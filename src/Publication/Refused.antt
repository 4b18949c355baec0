-- ===== src/Publication/Refused.antt =====
-- A transaction that is refused has pushed nothing (src/publication-transaction.js).
use chatgpt_codex_orchestrat.Prelude.{
  String, ◌≡◌, ◌≢◌, refl, false, Option, none, some, List, [], ◌∷◌, ◌++◌, truthy, Result, ok,
  thrown, Bool-cases, inl, inr,
}
use chatgpt_codex_orchestrat.Publication.{
  Git, push, push_tag, make_tag, Stop, gate_not_passed, identity_mismatch, moved_before_commit,
  moved_before_push, no_fast_forward, git_threw, External, Request, Published, Act, continue, ask,
  prepare, push_given_tag, push_commit, publish_main, printed,
}
use chatgpt_codex_orchestrat.Publication.Quiet.{has_push, prepare-IsQuiet}

-- A refusal by a check, and not by a command that failed.
abbrev pub IsRefusal : Stop → Type 0
IsRefusal (git_threw c) = ⊥
IsRefusal _ = Unit {0}

module _ (git : List Git → Git → Option String)
    (readback : List Git → String → Option External) where
  -- what `push_commit` throws is a failure of git
  abbrev Failed : {A : Type 0} → Result Stop A × List Git → Type 0
  Failed (ok a, h) = Unit {0}
  Failed (thrown (git_threw c), h) = Unit {0}
  Failed (thrown _, h) = ⊥

  continued-Failed :
      {A B : Type 0} (r : Result Stop A × List Git) (f : A → Act B)
      → Failed r
      → ((a : A) (k : List Git) → Failed (f a k))
      → Failed (continue r f)
  continued-Failed (ok a, h) f p k = k a h
  continued-Failed (thrown (git_threw c), h) f p k = tt
  continued-Failed (thrown gate_not_passed, h) f p k = absurd p
  continued-Failed (thrown identity_mismatch, h) f p k = absurd p
  continued-Failed (thrown moved_before_commit, h) f p k = absurd p
  continued-Failed (thrown moved_before_push, h) f p k = absurd p
  continued-Failed (thrown no_fast_forward, h) f p k = absurd p

  ask-Failed : (c : Git) (h : List Git) → Failed (ask git c h)
  ask-Failed c h = answer (git h c)
    where
      answer : (o : Option String) → Failed {A = String} (printed c o, h ++ c ∷ [])
      answer none = tt
      answer (some s) = tt

  tag-Failed :
      (t : Option String) (sha : String) (h : List Git) → Failed (push_given_tag git t sha h)
  tag-Failed none sha h = tt
  tag-Failed (some t) sha h = elim (Bool-cases (truthy t)) [
    | inr e ↦ rw e tt
    | inl e ↦ rw e (
        continued-Failed (ask git (make_tag t sha) h) _ (ask-Failed (make_tag t sha) h) (λ _ k.
          continued-Failed (ask git (push_tag t) k) _ (ask-Failed (push_tag t) k) (λ _ _. tt)))
  ]

  push-Failed :
      (q : Request) (sha : String) (h : List Git) → Failed (push_commit git readback q sha h)
  unfolding push_commit
  push-Failed q sha h =
      continued-Failed (ask git (push q.target_branch) h) _ (ask-Failed (push q.target_branch) h)
        (λ _ k.
          continued-Failed (push_given_tag git q.tag sha k) _ (tag-Failed q.tag sha k) (λ _ _. tt))

  refused_first :
      (r : Result Stop String × List Git) (f : String → Act Published) (e : Stop)
      → IsRefusal e
      → ((sha : String) (k : List Git) → Failed (f sha k))
      → has_push r.1 ≡ false
      → (continue r f).0 ≡ thrown e
      → has_push (continue r f).1 ≡ false
  refused_first (thrown x, h) f e i k n p = n
  refused_first (ok sha, h) f e i k n p = absurd (not_refused (f sha h) e i (k sha h) p)
    where
      not_refused :
          (r : Result Stop Published × List Git) (e : Stop)
          → IsRefusal e
          → Failed r
          → r.0 ≢ thrown e
      not_refused (ok a, h) e i f = λ p. cc
      not_refused (thrown (git_threw c), h) (git_threw d) i f = absurd i
      not_refused (thrown (git_threw c), h) e i f = λ p. cc
      not_refused (thrown gate_not_passed, h) e i f = absurd f
      not_refused (thrown identity_mismatch, h) e i f = absurd f
      not_refused (thrown moved_before_commit, h) e i f = absurd f
      not_refused (thrown moved_before_push, h) e i f = absurd f
      not_refused (thrown no_fast_forward, h) e i f = absurd f

  -- A transaction that is refused, because the gate has not passed, the identity differs, origin/main
  -- has moved before the commit or before the push, or no fast-forward is possible, has pushed
  -- nothing: neither the branch nor a tag.
  pub publish_main-refused :
      (q : Request) (e : Stop)
      → IsRefusal e
      → (publish_main git readback q []).0 ≡ thrown e
      → has_push (publish_main git readback q []).1 ≡ false
  unfolding publish_main
  publish_main-refused q e i p =
      refused_first (prepare git q []) (push_commit git readback q) e i (push-Failed q)
        ((prepare-IsQuiet git q).quiet [] refl) p
