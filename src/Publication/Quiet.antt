-- ===== src/Publication/Quiet.antt =====
-- The transaction pushes only past its checks (src/publication-transaction.js).
use chatgpt_codex_orchestrat.Prelude.{
  String, ◌≡◌, refl, Bool, true, false, ◌&&◌, ◌||◌, Option, none, some, List, [], ◌∷◌, ◌++◌, truthy,
  ◌==◌, Result, ok, thrown, arith, Bool-cases, inl, inr,
}
use chatgpt_codex_orchestrat.Publication.{
  Git, push, push_tag, current_branch, get_name, get_email, fetch, remote_main, add_all, head,
  is_ancestor, set_name, set_email, commit, Stop, gate_not_passed, identity_mismatch,
  moved_before_commit, moved_before_push, no_fast_forward, Request, Act, continue, ◌>>=◌, returns,
  ask, attempt, set_given, check_publish_identity, continue_if, is_some, check_remote, make_commit,
  check_fast_forward, prepare, parse_remote_ref, expected, trim,
}

abbrev pub is_push : Git → Bool
is_push (push b) = true
is_push (push_tag t) = true
is_push _ = false

abbrev pub has_push : List Git → Bool
has_push [] = false
has_push (c ∷ cs) = is_push c || has_push cs

has_push-append : (h : List Git) (c : Git) → has_push (h ++ c ∷ []) ≡ (has_push h || is_push c)
has_push-append [] c = ground arith
has_push-append (d ∷ h) c = ground (arith, has_push-append h c)

-- Without a push before, there is none after.
pub record IsQuiet {A : Type 0} (m : Act A) : Type 0 where
  pub quiet : (h : List Git) → has_push h ≡ false → has_push (m h).1 ≡ false

continued-IsQuiet :
    {A B : Type 0} (r : Result Stop A × List Git) (f : A → Act B)
    → has_push r.1 ≡ false
    → ((a : A) → IsQuiet (f a))
    → has_push (continue r f).1 ≡ false
continued-IsQuiet (thrown e, h) f q k = q
continued-IsQuiet (ok a, h) f q k = (k a).quiet h q

bind-IsQuiet :
    {A B : Type 0} (m : Act A) (f : A → Act B)
    → IsQuiet m
    → ((a : A) → IsQuiet (f a))
    → IsQuiet (m >>= f)
bind-IsQuiet m f q k = record { quiet = λ h n. continued-IsQuiet (m h) f (q.quiet h n) k }

returns-IsQuiet : {A : Type 0} (a : A) → IsQuiet (returns a)
returns-IsQuiet a = record { quiet = λ h n. n }

continue_if-IsQuiet : (b : Bool) (e : Stop) → IsQuiet (continue_if b e)
continue_if-IsQuiet true e = record { quiet = λ h n. n }
continue_if-IsQuiet false e = record { quiet = λ h n. n }

module _ (git : List Git → Git → Option String) where
  ask-IsQuiet : (c : Git) → is_push c ≡ false → IsQuiet (ask git c)
  ask-IsQuiet c p = record { quiet = λ h n. ground (arith, has_push-append h c) }

  attempt-IsQuiet : (c : Git) → is_push c ≡ false → IsQuiet (attempt git c)
  attempt-IsQuiet c p = record { quiet = λ h n. ground (arith, has_push-append h c) }

  set_given-IsQuiet :
      (c : String → Git) (o : Option String)
      → ((s : String) → is_push (c s) ≡ false)
      → IsQuiet (set_given git c o)
  set_given-IsQuiet c none p = returns-IsQuiet tt
  set_given-IsQuiet c (some s) p = elim (Bool-cases (truthy s)) [
    | inl t ↦ rw t (
        bind-IsQuiet (ask git (c s)) (λ _. returns tt) (ask-IsQuiet (c s) (p s))
          (λ _. returns-IsQuiet tt))
    | inr t ↦ rw t (returns-IsQuiet tt)
  ]

  identity-IsQuiet : (q : Request) → IsQuiet (check_publish_identity git q)
  unfolding check_publish_identity
  identity-IsQuiet q = bind-IsQuiet _ _ (set_given-IsQuiet set_name q.name (λ s. refl)) (λ _.
      bind-IsQuiet _ _ (set_given-IsQuiet set_email q.email (λ s. refl)) (λ _.
        bind-IsQuiet _ _ (attempt-IsQuiet get_name refl) (λ name.
          bind-IsQuiet _ _ (attempt-IsQuiet get_email refl)
            (λ email. returns-IsQuiet (expected git q.name name && expected git q.email email)))))

  remote-IsQuiet : (q : Request) (e : Stop) → IsQuiet (check_remote git q e)
  unfolding check_remote
  remote-IsQuiet q e = bind-IsQuiet _ _ (ask-IsQuiet fetch refl) (λ _.
      bind-IsQuiet _ _ (ask-IsQuiet remote_main refl)
        (λ out. continue_if-IsQuiet (parse_remote_ref out == q.expected_origin_main) e))

  commit-IsQuiet : (q : Request) → IsQuiet (make_commit git q)
  unfolding make_commit
  commit-IsQuiet q = bind-IsQuiet _ _ (ask-IsQuiet add_all refl) (λ _.
      bind-IsQuiet _ _ (ask-IsQuiet (commit q.commit_message) refl)
        (λ _. bind-IsQuiet _ _ (ask-IsQuiet head refl) (λ out. returns-IsQuiet (trim out))))

  forward-IsQuiet : IsQuiet (check_fast_forward git)
  unfolding check_fast_forward
  forward-IsQuiet =
      bind-IsQuiet _ _ (attempt-IsQuiet is_ancestor refl)
        (λ out. continue_if-IsQuiet (is_some out) no_fast_forward)

  pub prepare-IsQuiet : (q : Request) → IsQuiet (prepare git q)
  unfolding prepare
  prepare-IsQuiet q = bind-IsQuiet _ _ (continue_if-IsQuiet q.gate_ok gate_not_passed) (λ _.
      bind-IsQuiet _ _ (attempt-IsQuiet current_branch refl) (λ _.
        bind-IsQuiet _ _ (identity-IsQuiet q) (λ same.
          bind-IsQuiet _ _ (continue_if-IsQuiet same identity_mismatch) (λ _.
            bind-IsQuiet _ _ (remote-IsQuiet q moved_before_commit) (λ _.
              bind-IsQuiet _ _ (commit-IsQuiet q) (λ sha.
                bind-IsQuiet _ _ (remote-IsQuiet q moved_before_push)
                  (λ _. bind-IsQuiet _ _ forward-IsQuiet (λ _. returns-IsQuiet sha))))))))
