-- ===== src/Direct/Runs.antt =====
-- The registry of a Direct run after any calls, and what a review of a step then answers
-- (src/direct-governance.js).
use chatgpt_codex_orchestrat.Prelude.{
  String, ◌≡◌, ◌≢◌, ◌↔◌, inl, inr, refl, ◌∙◌, true, Option, none, some, List, [], ◌∷◌, ◌++◌, ap,
  map, ◌==◌, Bool-cases, apart,
}
use chatgpt_codex_orchestrat.Evidence.{Evidence, normalize_evidence}
use chatgpt_codex_orchestrat.Gate.{
  Acceptance, RawAcceptance, normalize_acceptance, ProofContract, is_pass,
}
use chatgpt_codex_orchestrat.Gate.Exact.{All, last_for, Satisfies}
use chatgpt_codex_orchestrat.Direct.Items.{
  Item, register_item, register_if, register_acceptance, assign_evidence, apply_result_evidence,
  find_direct, direct_gate,
}
use chatgpt_codex_orchestrat.Direct.{
  Direct, new_direct, contract_of, reviewed, or_current, mark_step_reviewed, Turn,
  record_by_contract, record_passing_proof, record_passing, prepared, direct_transition, DirectCall,
  transitions, reviews, plans, plan_direct, after_call, after_calls,
}
use chatgpt_codex_orchestrat.Direct.Reviewed.{IsPassing, NewTo, IsDistinct, gate-IsPassing}
use chatgpt_codex_orchestrat.Direct.Record.{
  said_by, word_at, word_after, word_at-register_each, word_at-apply, word_after-append,
  All-Satisfies,
}
use chatgpt_codex_orchestrat.Registry.{missing}

register-NewTo :
    (id : String) (a : Acceptance) (xs : List Item)
    → id ≢ a.id
    → NewTo id xs
    → NewTo id (register_item a xs)
unfolding register_item
register-NewTo id a [] n h = (n, tt)
register-NewTo id a (x ∷ xs) n h = elim (Bool-cases (x.acceptance.id == a.id)) [
  | inl t ↦ rw t h
  | inr t ↦ rw t (h.0, register-NewTo id a xs n h.1)
]

register-IsDistinct :
    (a : Acceptance) (xs : List Item) → IsDistinct xs → IsDistinct (register_item a xs)
unfolding register_item
register-IsDistinct a [] d = (tt, tt)
register-IsDistinct a (x ∷ xs) d = elim (Bool-cases (x.acceptance.id == a.id)) [
  | inl t ↦ rw t d
  | inr t ↦ rw t (
    register-NewTo x.acceptance.id a xs (apart x.acceptance.id a.id t) d.0,
    register-IsDistinct a xs d.1,
  )
]

register_if-IsDistinct :
    (o : Option Acceptance) (xs : List Item) → IsDistinct xs → IsDistinct (register_if o xs)
register_if-IsDistinct none xs d = d
register_if-IsDistinct (some a) xs d = register-IsDistinct a xs d

register_each-IsDistinct :
    (items : List RawAcceptance) (xs : List Item)
    → IsDistinct xs
    → IsDistinct (register_acceptance items xs)
unfolding register_acceptance
register_each-IsDistinct [] xs d = d
register_each-IsDistinct (a ∷ items) xs d =
    register_each-IsDistinct items _ (register_if-IsDistinct (normalize_acceptance a) xs d)

assign-NewTo :
    (id : String) (e : Evidence) (xs : List Item)
    → id ≢ e.acceptance_id
    → NewTo id xs
    → NewTo id (assign_evidence e xs)
unfolding assign_evidence
assign-NewTo id e [] n h = (n, tt)
assign-NewTo id e (x ∷ xs) n h = elim (Bool-cases (x.acceptance.id == e.acceptance_id)) [
  | inl t ↦ rw t h
  | inr t ↦ rw t (h.0, assign-NewTo id e xs n h.1)
]

assign-IsDistinct :
    (e : Evidence) (xs : List Item) → IsDistinct xs → IsDistinct (assign_evidence e xs)
unfolding assign_evidence
assign-IsDistinct e [] d = (tt, tt)
assign-IsDistinct e (x ∷ xs) d = elim (Bool-cases (x.acceptance.id == e.acceptance_id)) [
  | inl t ↦ rw t d
  | inr t ↦ rw t (
    assign-NewTo x.acceptance.id e xs (apart x.acceptance.id e.acceptance_id t) d.0,
    assign-IsDistinct e xs d.1,
  )
]

apply-IsDistinct :
    (es : List Evidence) (xs : List Item) → IsDistinct xs → IsDistinct (apply_result_evidence es xs)
unfolding apply_result_evidence
apply-IsDistinct [] xs d = d
apply-IsDistinct (e ∷ es) xs d =
    apply-IsDistinct es (assign_evidence e xs) (assign-IsDistinct e xs d)

-- The evidence of the calls, in their order.
abbrev pub told_by : List DirectCall → List Evidence
told_by [] = []
told_by (transitions t ∷ cs) = map normalize_evidence t.evidence ++ told_by cs
told_by (reviews step ∷ cs) = told_by cs
told_by (plans ids ∷ cs) = told_by cs

module _ (compute : String → Option String) where
  contract_registry :
      (e : Evidence) (o : Option ProofContract) (d : Direct)
      → (record_by_contract compute e o d).1.registry ≡ d.registry
  contract_registry e none d = refl
  contract_registry e (some c) d = refl

  proof_registry :
      (e : Evidence) (d : Direct) → (record_passing_proof compute e d).1.registry ≡ d.registry
  unfolding record_passing_proof
  proof_registry e d = elim (Bool-cases (is_pass e.status)) [
    | inl t ↦ rw t (contract_registry e (contract_of (find_direct e.acceptance_id d.registry)) d)
    | inr t ↦ rw t refl
  ]

  passing_registry :
      (es : List Evidence) (d : Direct) → (record_passing compute es d).1.registry ≡ d.registry
  unfolding record_passing
  passing_registry [] d = refl
  passing_registry (e ∷ es) d =
      passing_registry es (record_passing_proof compute e d).1 ∙ proof_registry e d

  transition-IsDistinct :
      (t : Turn) (d : Direct)
      → IsDistinct d.registry
      → IsDistinct (direct_transition compute t d).1.registry
  unfolding direct_transition
  transition-IsDistinct t d h =
      rw (passing_registry (map normalize_evidence t.evidence) (prepared compute t d)) (
        apply-IsDistinct (map normalize_evidence t.evidence) _
          (register_each-IsDistinct t.acceptance d.registry h))

  review_registry :
      (step : Option String) (d : Direct) → (mark_step_reviewed step d).1.registry ≡ d.registry
  unfolding mark_step_reviewed
  review_registry step d = elim (Bool-cases (direct_gate d.registry).ok) [
    | inl t ↦ rw t refl
    | inr t ↦ rw t refl
  ]

  call-IsDistinct :
      (c : DirectCall) (d : Direct)
      → IsDistinct d.registry
      → IsDistinct (after_call compute d c).registry
  unfolding after_call plan_direct
  call-IsDistinct (transitions t) d h = transition-IsDistinct t d h
  call-IsDistinct (reviews step) d h = rw (review_registry step d) h
  call-IsDistinct (plans ids) d h = h

  calls-IsDistinct :
      (cs : List DirectCall) (d : Direct)
      → IsDistinct d.registry
      → IsDistinct (after_calls compute d cs).registry
  unfolding after_calls
  calls-IsDistinct [] d h = h
  calls-IsDistinct (c ∷ cs) d h =
      calls-IsDistinct cs (after_call compute d c) (call-IsDistinct c d h)

  abbrev AllPassing : Direct → Type 0
  AllPassing d = All (λ (x : Item). x.acceptance.required ≡ true → IsPassing x) d.registry

  review-AllPassing :
      (step : Option String) (d : Direct)
      → ((mark_step_reviewed step d).0 ≡ reviewed (or_current step d.current_step))
        ↔ ((direct_gate d.registry).ok ≡ true)
  unfolding mark_step_reviewed
  review-AllPassing step d = elim (Bool-cases (direct_gate d.registry).ok) [
    | inl t ↦ rw t (λ h. refl, λ h. refl)
    | inr t ↦ rw t (λ h. absurd (cc), λ h. absurd (cc))
  ]

  review_refused :
      (step : Option String) (d : Direct)
      → (mark_step_reviewed step d).0 ≢ reviewed (or_current step d.current_step)
      → (mark_step_reviewed step d).1 ≡ d
  unfolding mark_step_reviewed
  review_refused step d = elim (Bool-cases (direct_gate d.registry).ok) [
    | inl t ↦ rw t (λ n. absurd (n refl))
    | inr t ↦ rw t (λ n. refl)
  ]

  transition_word :
      (id : String) (t : Turn) (d : Direct)
      → word_at id (direct_transition compute t d).1.registry
        ≡ word_after (last_for id (map normalize_evidence t.evidence)) (word_at id d.registry)
  unfolding direct_transition
  transition_word id t d =
      let es = map normalize_evidence t.evidence in
      rw (passing_registry es (prepared compute t d)) (
        word_at-apply id es (register_acceptance t.acceptance d.registry)
        ∙ ap (word_after (last_for id es)) (word_at-register_each id t.acceptance d.registry))

  calls_word :
      (id : String) (cs : List DirectCall) (d : Direct)
      → word_at id (after_calls compute d cs).registry
        ≡ word_after (last_for id (told_by cs)) (word_at id d.registry)
  unfolding after_calls after_call plan_direct
  calls_word id [] d = refl
  calls_word id (transitions t ∷ cs) d =
      calls_word id cs (direct_transition compute t d).1
      ∙ (ap (word_after (last_for id (told_by cs))) (transition_word id t d)
          ∙ word_after-append id (map normalize_evidence t.evidence) (told_by cs)
              (word_at id d.registry))
  calls_word id (reviews step ∷ cs) d =
      calls_word id cs (mark_step_reviewed step d).1
      ∙ ap (λ xs. word_after (last_for id (told_by cs)) (word_at id xs)) (review_registry step d)
  calls_word id (plans ids ∷ cs) d = calls_word id cs (plan_direct compute ids d).1

  word_from :
      (id : String) (cs : List DirectCall)
      → word_at id (after_calls compute new_direct cs).registry ≡ said_by (last_for id (told_by cs))
  unfolding find_direct
  word_from id cs = calls_word id cs new_direct ∙ start (last_for id (told_by cs))
    where
      start : (o : Option Evidence) → word_after o (missing, none) ≡ said_by o
      start none = refl
      start (some e) = refl

  -- After any calls, a review of a step is granted exactly if, for every required item of the registry,
  -- the last piece of evidence for it in all the calls passes, at a level that the item accepts. If it
  -- is refused, nothing changes.
  pub mark-IsPassing :
      (cs : List DirectCall) (step : Option String)
      → let d = after_calls compute new_direct cs in
        let out = mark_step_reviewed step d in
        ((out.0 ≡ reviewed (or_current step d.current_step))
          ↔ All
              (λ (x : Item). x.acceptance.required ≡ true → Satisfies (told_by cs) x.acceptance)
              d.registry)
        × (out.0 ≢ reviewed (or_current step d.current_step) → out.1 ≡ d)
  mark-IsPassing cs step =
      let d = after_calls compute new_direct cs in
      let n = calls-IsDistinct cs new_direct tt in
      let g = gate-IsPassing d.registry n in
      let r = review-AllPassing step d in
      let s = All-Satisfies (told_by cs) d.registry n (λ id. word_from id cs) in
      ((λ h. s.0 (g.0 (r.0 h)), λ h. r.1 (g.1 (s.1 h))), review_refused step d)
