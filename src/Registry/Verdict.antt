-- ===== src/Registry/Verdict.antt =====
-- What the gate of the registry decides after a result (src/protocol.js).
use chatgpt_codex_orchestrat.Prelude.{
  String, ◌≡◌, ◌≢◌, ◌↔◌, inl, inr, refl, ap, ◌∙◌, Bool, true, false, not, ◌&&◌, Option, none, some,
  some-injective, List, [], ◌∷◌, if◌then◌else◌, arith, Bool-cases,
}
use chatgpt_codex_orchestrat.Evidence.{Evidence}
use chatgpt_codex_orchestrat.Registry.{
  Progress, reported, Registered, Task, ResultObject, same_id, is_registered, normalize_result,
  result_view, append_ledger_evidence, report, report_each, apply_evidence, is_pass_status,
  failures, check_acceptance_gate,
}
use chatgpt_codex_orchestrat.Registry.Distinct.{DistinctIds, same_id_iff}
use chatgpt_codex_orchestrat.Registry.Runs.{IsTidy, apply-IsTidy, each-IsTidy}

unfoldable pub find_registered : Option String → List Registered → Option Registered
find_registered id [] = none
find_registered id (x ∷ xs) = if same_id x.id id then some x else find_registered id xs

abbrev pub progress_of : Option Registered → Option Progress
progress_of none = none
progress_of (some x) = some x.status

-- What the last piece of evidence for the id says, or else what was there.
unfoldable pub last_word : Option String → List Evidence → Option Progress → Option Progress
last_word id [] o = o
last_word id (e ∷ es) o =
    last_word id es (if same_id (some e.acceptance_id) id then some (reported e.status) else o)

report_progress :
    (id : Option String) (e : Evidence) (xs : List Registered)
    → progress_of (find_registered id (report e xs)) ≡ (
        if same_id (some e.acceptance_id) id
        then some (reported e.status)
        else progress_of (find_registered id xs))
unfolding find_registered report
report_progress id e [] = ground arith
report_progress id e (x ∷ xs) = ground (
  arith,
  report_progress id e xs,
  same_id_iff x.id (some e.acceptance_id),
  same_id_iff x.id id,
  same_id_iff (some e.acceptance_id) id,
)

each_progress :
    (id : Option String) (es : List Evidence) (xs : List Registered)
    → progress_of (find_registered id (report_each es xs))
      ≡ last_word id es (progress_of (find_registered id xs))
unfolding report_each last_word
each_progress id [] xs = refl
each_progress id (e ∷ es) xs =
    each_progress id es (report e xs) ∙ ap (last_word id es) (report_progress id e xs)

abbrev Passes : List Registered → Type 0
Passes xs =
    (id : Option String) (x : Registered)
    → find_registered id xs ≡ some x
    → x.required ≡ true
    → is_pass_status x.status ≡ true

unregistered :
    (id : Option String) (x : Registered) (xs : List Registered)
    → is_registered id xs ≡ false
    → find_registered id xs ≢ some x
unfolding find_registered is_registered
unregistered id x [] n = λ e. cc
unregistered id x (y ∷ xs) n = λ e. ground (arith, n, e, unregistered id x xs)

tail_Passes :
    (x : Registered) (xs : List Registered)
    → is_registered x.id xs ≡ false
    → Passes (x ∷ xs)
    → Passes xs
unfolding find_registered
tail_Passes x xs n h id y e r =
    h id y (ground (arith, e, n, same_id_iff x.id id, unregistered x.id y xs n)) r

head_Passes :
    (x : Registered) (xs : List Registered)
    → Passes (x ∷ xs)
    → x.required ≡ true
    → is_pass_status x.status ≡ true
unfolding find_registered
head_Passes x xs h r = h x.id x (ground (arith, same_id_iff x.id x.id)) r

chosen_passes :
    (b : Bool) (x y : Registered) (o : Option Registered)
    → x.required && not (is_pass_status x.status) ≡ false
    → (o ≡ some y → y.required ≡ true → is_pass_status y.status ≡ true)
    → (if b then some x else o) ≡ some y
    → y.required ≡ true
    → is_pass_status y.status ≡ true
chosen_passes true x y o t k e r =
    let same : x ≡ y = some-injective e in
    let t' : y.required && not (is_pass_status y.status) ≡ false = rw (← same) t in
    ground (arith, t', r)
chosen_passes false x y o t k e r = k e r

cons_Passes :
    (x : Registered) (xs : List Registered)
    → x.required && not (is_pass_status x.status) ≡ false
    → Passes xs
    → Passes (x ∷ xs)
unfolding find_registered
cons_Passes x xs t h id y e r =
    chosen_passes (same_id x.id id) x y (find_registered id xs) t (h id y) e r

gate-Passes :
    (xs : List Registered) → DistinctIds xs → (check_acceptance_gate xs ≡ true) ↔ Passes xs
unfolding check_acceptance_gate failures find_registered
gate-Passes [] d = (λ h id x e. absurd (cc), λ h. refl)
gate-Passes (x ∷ xs) d = elim (Bool-cases (x.required && not (is_pass_status x.status))) [
  | inl t ↦ rw t (
    λ h. absurd (cc),
    λ h. let k = head_Passes x xs h (ground (arith, t)) in absurd (ground (arith, t, k)),
  )
  | inr t ↦
      let k = gate-Passes xs d.1 in
      rw t (λ h. cons_Passes x xs t (k.0 h), λ h. k.1 (tail_Passes x xs d.0 h))
]

apply_registry :
    (r : ResultObject) (s : Task)
    → IsTidy s
    → (apply_evidence r s).registry ≡ report_each (normalize_result r).1 s.registry
unfolding apply_evidence append_ledger_evidence
apply_registry r s h =
    let n = normalize_result (result_view (normalize_result r)) in
    ap (report_each (normalize_result r).1) (each-IsTidy n.0 n.1 s h).2

-- After a result is applied to a registry without an id twice, the status of every id is what the last
-- piece of its evidence for this id says, or else what it was, and the gate passes exactly if every
-- required item has the status pass.
pub apply_verdict :
    (r : ResultObject) (s : Task)
    → IsTidy s
    → let xs = (apply_evidence r s).registry in
      ((id : Option String)
        → progress_of (find_registered id xs)
          ≡ last_word id (normalize_result r).1 (progress_of (find_registered id s.registry)))
      × ((check_acceptance_gate xs ≡ true) ↔ (
          (id : Option String) (x : Registered)
          → find_registered id xs ≡ some x
          → x.required ≡ true
          → is_pass_status x.status ≡ true))
apply_verdict r s h = (
  λ id.
      ap (λ l. progress_of (find_registered id l)) (apply_registry r s h)
      ∙ each_progress id (normalize_result r).1 s.registry,
  gate-Passes (apply_evidence r s).registry (apply-IsTidy r s h).0.ids,
)
