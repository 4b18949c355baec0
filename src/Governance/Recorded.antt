-- ===== src/Governance/Recorded.antt =====
-- The invariant over recordResult of src/governance/index.js.
use chatgpt_codex_orchestrat.Prelude.{
  String, inl, inr, Option, none, some, truthy, Result, ok, thrown, Bool-cases,
}
use chatgpt_codex_orchestrat.Governance.State.{Step, State, find_step, given, Publication}
use chatgpt_codex_orchestrat.Governance.Controls.{Governance, GovernanceError, is_terminal_done}
use chatgpt_codex_orchestrat.Governance.Results.{
  ResultArgs, result_step, set_publication, apply_result, result_found, result_for, result_on_step,
  at_step, record_result, bound, bind_given,
}
use chatgpt_codex_orchestrat.Governance.Sound.{IsSound, put-AllSound, result-IsStepSound}
use chatgpt_codex_orchestrat.Governance.Live.{IsLive, IsLive-IsSound, put-present}
use chatgpt_codex_orchestrat.Governance.Entered.{IsLive-of}

publication-IsLive : (p : Option Publication) (s : State) → IsLive s → IsLive (set_publication p s)
publication-IsLive none s h = h
publication-IsLive (some p) s h = record {
  steps = h.steps;
  active = h.active;
  not_done = h.not_done;
}

apply-IsLive :
    (compute : String → Option String) (id : String) (args : ResultArgs) (st : Step)
    (g : Governance)
    → IsLive g.state
    → IsLive (apply_result compute id args st g).1.state
unfolding apply_result
apply-IsLive compute id args st g h = publication-IsLive args.publication _ (record {
  steps = put-AllSound id (result_step args st) g.steps (result-IsStepSound args st) h.steps;
  active = λ n. put-present g.current_step_id id (result_step args st) g.steps (h.active n);
  not_done = h.not_done;
})

found-IsSound :
    (compute : String → Option String) (id : String) (args : ResultArgs) (g : Governance)
    (o : Option Step)
    → IsLive g.state
    → IsSound (result_found compute id args g o).1.state
unfolding result_found
found-IsSound compute id args g none h = IsLive-IsSound h
found-IsSound compute id args g (some st) h = IsLive-IsSound (apply-IsLive compute id args st g h)

for-IsSound :
    (compute : String → Option String) (o : Option String) (args : ResultArgs) (g : Governance)
    → IsLive g.state
    → IsSound (result_for compute o args g).1.state
unfolding result_for
for-IsSound compute none args g h = IsLive-IsSound h
for-IsSound compute (some id) args g h = elim (Bool-cases (truthy id)) [
  | inr e ↦ rw e (IsLive-IsSound h)
  | inl t ↦ elim (Bool-cases (at_step g.current_step_id id)) [
    | inr e ↦ rw (t, e) (IsLive-IsSound h)
    | inl a ↦ rw (t, a) (found-IsSound compute id args g (find_step id g.steps) h)
  ]
]

on_step-IsSound :
    (compute : String → Option String) (args : ResultArgs) (g : Governance)
    → IsLive g.state
    → IsSound (result_on_step compute args g).1.state
unfolding result_on_step
on_step-IsSound compute args g h = elim (Bool-cases (given g.task_id)) [
  | inl t ↦ simp t (for-IsSound compute args.step_id args g h)
  | inr t ↦ simp t (IsLive-IsSound h)
]

bound-IsSound :
    (compute : String → Option String) (args : ResultArgs) (g : Governance)
    (r : Result GovernanceError (Unit {0}) × State)
    → IsLive r.1
    → IsSound (bound compute args g r).1.state
bound-IsSound compute args g (thrown e, s) h = IsLive-IsSound h
bound-IsSound compute args g (ok _, s) h = on_step-IsSound compute args (record g { state = s }) h

bind-IsLive : (t : Option String) (s : State) → IsLive s → IsLive (bind_given t s).1
bind-IsLive none s h = h
bind-IsLive (some t) s h = elim (Bool-cases (given s.task_id)) [
  | inl old ↦ rw old h
  | inr new ↦ rw new (record { steps = h.steps; active = h.active; not_done = h.not_done })
]

pub record-IsSound :
    (compute : String → Option String) (args : ResultArgs) (g : Governance)
    → IsSound g.state
    → IsSound (record_result compute args g).1.state
unfolding record_result
record-IsSound compute args g h = elim (Bool-cases (is_terminal_done g.control)) [
  | inl t ↦ simp t h
  | inr t ↦
      simp t
        (bound-IsSound compute args g _ (bind-IsLive args.task_id g.state (IsLive-of g.state t h)))
]
