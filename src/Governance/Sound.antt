-- ===== src/Governance/Sound.antt =====
-- The invariant of the Governance state, over the functions of src/governance/index.js.
use mathlib.Core.Path.{subst}
use text.Mathlib.TextPositions.{eq_refl}
use chatgpt_codex_orchestrat.Prelude.{
  String, ◌≡◌, ◌≢◌, ◌↔◌, ◌&&◌, ◌⊎◌, inl, inr, refl, sym, ◌∙◌, Bool, true, false, Option, none, some,
  some-injective, List, [], ◌∷◌, arith, map, if◌then◌else◌, ◌==◌, eq_iff,
}
use chatgpt_codex_orchestrat.Gate.{RawAcceptance, evaluate_gate}
use chatgpt_codex_orchestrat.Governance.State.{
  done, gate_pass, gate_pending, accepted, pending, Step, State, find_step, put_step, step_at,
  current_step, new_step, compute_machine_gate, step_hard_ok, publication_ready_for_done, accept,
  Publication,
}
use chatgpt_codex_orchestrat.Governance.Controls.{
  has_result, reissue, accept_found, accept_at, revise_step, ReviseDelta,
}
use chatgpt_codex_orchestrat.Governance.Results.{ResultArgs, result_step}

-- An accepted step has succeeded and passed its gate, and a gate that passes is the one that the
-- step's items and evidence give.
pub record IsStepSound (st : Step) : Type 0 where
  pub accepted_hard : st.brain_acceptance ≡ accepted → step_hard_ok (some st) ≡ true
  pub gate_true :
      st.machine_gate ≡ gate_pass
      → (evaluate_gate (map (λ i. i.contract) st.acceptance) st.evidence).ok ≡ true

abbrev pub AllSound : List (String × Step) → Type 0
AllSound steps = (id : String) (st : Step) → find_step id steps ≡ some st → IsStepSound st

abbrev pub AcceptedAt : Option Step → Type 0
AcceptedAt none = ⊥
AcceptedAt (some st) = st.brain_acceptance ≡ accepted

-- There is a publication that succeeded and was read back.
abbrev pub WasReadBack : Option Publication → Type 0
WasReadBack o = (p : Publication) × (o ≡ some p) × (p.ok ≡ true) × (p.external_readback ≡ true)

pub ready-WasReadBack :
    (o : Option Publication) → (publication_ready_for_done o ≡ true) ↔ WasReadBack o
unfolding publication_ready_for_done
ready-WasReadBack none = (λ h. absurd (cc), λ (p, e, a, b). absurd (cc))
ready-WasReadBack (some q) = (
  λ h. (q, refl, ground arith, ground arith),
  λ (p, e, a, b).
      subst (λ x. (x.ok && x.external_readback) ≡ true) (sym (some-injective e)) (rw (a, b) refl),
)

pub record IsSound (s : State) : Type 0 where
  pub steps : AllSound s.steps
  pub active : s.current_step_id ≢ none → current_step s ≢ none
  pub done_accepted : s.control ≡ some done → AcceptedAt (current_step s)
  pub done_published :
      s.control ≡ some done → s.publication_required ≡ true → WasReadBack s.publish_result

pub find-put :
    (k j : String) (st : Step) (steps : List (String × Step))
    → find_step j (put_step k st steps) ≡ (if k == j then some st else find_step j steps)
unfolding find_step put_step
find-put k j st [] = refl
find-put k j st ((i, old) ∷ steps) =
    ground (arith, eq_iff k j, eq_iff i k, eq_iff i j, find-put k j st steps)

pub find-put_self :
    (k : String) (st : Step) (steps : List (String × Step))
    → find_step k (put_step k st steps) ≡ some st
find-put_self k st steps = simp (find-put, eq_refl)

found_in :
    (b : Bool) (st x : Step) (o : Option Step)
    → (if b then some st else o) ≡ some x
    → (st ≡ x) ⊎ (o ≡ some x)
found_in true st x o e = inl (cc)
found_in false st x o e = inr e

pub put-AllSound :
    (k : String) (st : Step) (steps : List (String × Step))
    → IsStepSound st
    → AllSound steps
    → AllSound (put_step k st steps)
put-AllSound k st steps v all j x e =
    elim (found_in (k == j) st x (find_step j steps) (sym (find-put k j st steps) ∙ e)) [
      | inl same ↦ subst IsStepSound same v
      | inr other ↦ all j x other
    ]

-- a step that is not accepted, with its gate open
pub open_step :
    (st : Step) → st.brain_acceptance ≢ accepted → st.machine_gate ≡ gate_pending → IsStepSound st
open_step st b g = ground arith

pub new_step-IsStepSound :
    (id : String) (acc : Option (List RawAcceptance)) → IsStepSound (new_step id acc)
unfolding new_step
new_step-IsStepSound id acc = open_step (new_step id acc) (λ e. cc) refl

accept-IsStepSound :
    (st : Step) → IsStepSound st → step_hard_ok (some st) ≡ true → IsStepSound (accept st)
unfolding step_hard_ok
accept-IsStepSound st v h = record { accepted_hard = λ e. h; gate_true = v.gate_true }

pub reissue-IsStepSound :
    (acc : Option (List RawAcceptance)) (st : Step)
    → has_result st ≡ false
    → IsStepSound (reissue acc st)
unfolding has_result
reissue-IsStepSound none st h = open_step (reissue none st) (λ e. cc) (ground arith)
reissue-IsStepSound (some a) st h = open_step (reissue (some a) st) (λ e. cc) (ground arith)

pub revise-IsStepSound : (d : Option ReviseDelta) (st : Step) → IsStepSound (revise_step d st)
unfolding revise_step
revise-IsStepSound d st = open_step (revise_step d st) (λ e. cc) refl

computed-IsStepSound :
    (st : Step)
    → IsStepSound (record st { machine_gate = compute_machine_gate st; brain_acceptance = pending })
unfolding compute_machine_gate
computed-IsStepSound st = ground arith

pub result-IsStepSound : (args : ResultArgs) (st : Step) → IsStepSound (result_step args st)
unfolding result_step
result-IsStepSound args st = computed-IsStepSound _

accept_found-AllSound :
    (id : String) (o : Option Step) (steps : List (String × Step))
    → find_step id steps ≡ o
    → AllSound steps
    → step_hard_ok o ≡ true
    → AllSound (accept_found id o steps)
accept_found-AllSound id none steps e all h = all
accept_found-AllSound id (some st) steps e all h =
    put-AllSound id (accept st) steps (accept-IsStepSound st (all id st e) h) all

pub accept_at-AllSound :
    (cur : Option String) (steps : List (String × Step))
    → AllSound steps
    → step_hard_ok (step_at cur steps) ≡ true
    → AllSound (accept_at cur steps)
accept_at-AllSound none steps all h = all
accept_at-AllSound (some id) steps all h =
    accept_found-AllSound id (find_step id steps) steps refl all h
