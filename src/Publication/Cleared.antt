-- ===== src/Publication/Cleared.antt =====
-- What a transaction that succeeds has checked right before the push
-- (src/publication-transaction.js).
use chatgpt_codex_orchestrat.Prelude.{
  String, ◌≡◌, refl, ap, ◌∙◌, Bool, true, false, Option, none, some, List, [], ◌∷◌, ◌++◌, ◌==◌,
  Result, ok, thrown, arith, eq_iff,
}
use chatgpt_codex_orchestrat.Publication.{
  Git, push, current_branch, fetch, remote_main, is_ancestor, Stop, gate_not_passed,
  identity_mismatch, moved_before_commit, moved_before_push, no_fast_forward, External, Request,
  Published, Act, continue, ask, check_publish_identity, continue_if, is_some, check_remote,
  make_commit, check_fast_forward, prepare, push_given_tag, push_commit, publish_main,
  parse_remote_ref, printed,
}

continue-ok :
    {A B : Type 0} (r : Result Stop A × List Git) (f : A → Act B) (b : B) (h : List Git)
    → continue r f ≡ (ok b, h)
    → (a : A) × (k : List Git) × (r ≡ (ok a, k)) × (f a k ≡ (ok b, h))
continue-ok (thrown e, k) f b h p = absurd (cc)
continue-ok (ok a, k) f b h p = (a, k, refl, p)

continue_if-ok :
    (t : Bool) (e : Stop) (k h : List Git) → continue_if t e k ≡ (ok tt, h) → (t ≡ true) × (k ≡ h)
continue_if-ok true e k h p = (refl, cc)
continue_if-ok false e k h p = absurd (cc)

printed-ok : (c : Git) (o : Option String) (s : String) → printed c o ≡ ok s → o ≡ some s
printed-ok c none s p = absurd (cc)
printed-ok c (some t) s p = cc

same_text : (a b : String) → (a == b) ≡ true → a ≡ b
same_text a b e = ground (arith, eq_iff a b)

module _ (git : List Git → Git → Option String) where
  ask-ok :
      (c : Git) (s : String) (k h : List Git)
      → ask git c k ≡ (ok s, h)
      → (git k c ≡ some s) × (k ++ c ∷ [] ≡ h)
  ask-ok c s k h p = (printed-ok c (git k c) s (ap (λ r. r.0) p), ap (λ r. r.1) p)

  -- The last answers before the push.
  abbrev pub WasCleared : Request → List Git → Type 0
  WasCleared q h =
      (k : List Git) × (ref : String) × (git k remote_main ≡ some ref)
      × (parse_remote_ref ref ≡ q.expected_origin_main)
      × (is_some (git (k ++ remote_main ∷ []) is_ancestor) ≡ true)
      × ((k ++ remote_main ∷ []) ++ is_ancestor ∷ [] ≡ h)

  check_remote-ok :
      (q : Request) (e : Stop) (k h : List Git)
      → check_remote git q e k ≡ (ok tt, h)
      → (j : List Git) × (ref : String) × (git j remote_main ≡ some ref)
        × (parse_remote_ref ref ≡ q.expected_origin_main)
        × (j ++ remote_main ∷ [] ≡ h)
  unfolding check_remote
  check_remote-ok q e k h p =
      let a = continue-ok (ask git fetch k) _ tt h p in
      let b = continue-ok (ask git remote_main a.1) _ tt h a.3 in
      let r = ask-ok remote_main b.0 a.1 b.1 b.2 in
      let c = continue_if-ok (parse_remote_ref b.0 == q.expected_origin_main) e b.1 h b.3 in
      (a.1, b.0, r.0, same_text (parse_remote_ref b.0) q.expected_origin_main c.0, r.1 ∙ c.1)

  check_fast_forward-ok :
      (k h : List Git)
      → check_fast_forward git k ≡ (ok tt, h)
      → (is_some (git k is_ancestor) ≡ true) × (k ++ is_ancestor ∷ [] ≡ h)
  unfolding check_fast_forward
  check_fast_forward-ok k h p =
      continue_if-ok (is_some (git k is_ancestor)) no_fast_forward (k ++ is_ancestor ∷ []) h p

  prepare-ok :
      (q : Request) (sha : String) (h : List Git)
      → prepare git q [] ≡ (ok sha, h)
      → (q.gate_ok ≡ true) × WasCleared q h
  unfolding prepare
  prepare-ok q sha h p =
      let a = continue-ok (continue_if q.gate_ok gate_not_passed []) _ sha h p in
      let g = continue_if-ok q.gate_ok gate_not_passed [] a.1 a.2 in
      let b = continue-ok (check_publish_identity git q (a.1 ++ current_branch ∷ [])) _ sha h a.3 in
      let c = continue-ok (continue_if b.0 identity_mismatch b.1) _ sha h b.3 in
      let d = continue-ok (check_remote git q moved_before_commit c.1) _ sha h c.3 in
      let e = continue-ok (make_commit git q d.1) _ sha h d.3 in
      let f = continue-ok (check_remote git q moved_before_push e.1) _ sha h e.3 in
      let i = continue-ok (check_fast_forward git f.1) _ sha h f.3 in
      let r = check_remote-ok q moved_before_push e.1 f.1 f.2 in
      let s = check_fast_forward-ok f.1 i.1 i.2 in
      (
        g.0,
        (
          r.0,
          r.1,
          r.2,
          r.3,
          ap (λ x. is_some (git x is_ancestor)) r.4 ∙ s.0,
          ap (λ x. x ++ is_ancestor ∷ []) r.4 ∙ (s.1 ∙ ap (λ x. x.1) i.3),
        ),
      )

  module _ (readback : List Git → String → Option External) where
    same_commit :
        (out other : Published) (k h : List Git)
        → ◌≡◌ {A = Result Stop Published × List Git} (ok out, k) (ok other, h)
        → out.commit ≡ other.commit
    same_commit out other k h p = cc

    pushed-ok :
        (q : Request) (sha : String) (out : Published) (k h : List Git)
        → push_commit git readback q sha k ≡ (ok out, h)
        → (sha ≡ out.commit) × ((s : String) × (git k (push q.target_branch) ≡ some s))
    unfolding push_commit
    pushed-ok q sha out k h p =
        let a = continue-ok (ask git (push q.target_branch) k) _ out h p in
        let r = ask-ok (push q.target_branch) a.0 k a.1 a.2 in
        let b = continue-ok (push_given_tag git q.tag sha a.1) _ out h a.3 in
        (same_commit _ out b.1 h b.3, (a.0, r.0))

    -- A transaction that succeeds passed the acceptance gate, and pushed the commit that it made. When
    -- it pushed, git had last answered that origin/main is where it was expected, and then that
    -- origin/main is an ancestor of HEAD; no command came between these two and the push.
    pub publish_main-WasCleared :
        (q : Request) (out : Published) (h : List Git)
        → publish_main git readback q [] ≡ (ok out, h)
        → (q.gate_ok ≡ true)
          × ((k : List Git) × WasCleared q k
              × (prepare git q [] ≡ (ok out.commit, k))
              × ((s : String) × (git k (push q.target_branch) ≡ some s)))
    unfolding publish_main
    publish_main-WasCleared q out h p =
        let a = continue-ok (prepare git q []) (push_commit git readback q) out h p in
        let r = prepare-ok q a.0 a.1 a.2 in
        let s = pushed-ok q a.0 out a.1 h a.3 in
        (r.0, (a.1, r.1, a.2 ∙ ap (λ x. (ok x, a.1)) s.0, s.1))
