-- ===== src/Governance/Transition.antt =====
-- `GovernanceService.transition` of src/governance/index.js, composed of the controls.
use chatgpt_codex_orchestrat.Prelude.{
  suc, String, Bool, true, false, Option, none, some, List, [], ◌∷◌, ◌++◌, map, if◌then◌else◌,
  Result, ok, thrown,
}
use chatgpt_codex_orchestrat.Governance.Ledger.{Ledger, proof_stale, get_proof, record_proof}
use chatgpt_codex_orchestrat.Governance.State.{
  Control, task, revise, ask_user, done, plan, replan, publish, MachineGate, gate_pass,
  BrainAcceptance, accepted, Reason, awaiting_user_decision, NextAction, task_next, replan_confirm,
  revise_execute, awaiting_user, done_next, control_entry, acceptance_revised, Step, State,
  find_step, put_step, current_step, given,
}
use chatgpt_codex_orchestrat.Governance.Handoff.{
  Handoff, control_handoff, gate_in, brain_in, drop_empty,
}
use chatgpt_codex_orchestrat.Governance.Controls.{
  Governance, GovernanceError, unknown_control, terminal, revise_needs_step, Args, Ending,
  enter_task, is_terminal_done, task_control, publish_control, done_control, revise_step,
  step_or_new, set_acceptance, ids_reopened,
}

-- What `transition` returns. `ok` and `accepted` are the opposite of `blocked`, and a control is
-- blocked exactly if there is a reason.
pub record Outcome : Type 0 where
  pub reason : Option Reason
  pub control : Control
  pub task_id : Option String
  pub step_id : Option String
  pub previous_step_id : Option String
  pub route : Option String
  pub local_route : Option String
  pub executor_status : String
  pub machine_gate : MachineGate
  pub brain_acceptance : BrainAcceptance
  pub publication_required : Bool
  pub next_action : NextAction
  pub handoff : Handoff

abbrev pub Answer : Type 0
Answer = Result GovernanceError Outcome × Governance

abbrev executor_in : String → Option Step → String
executor_in d none = d
executor_in d (some st) = st.executor_status

abbrev gate_or_pass : Option Step → MachineGate
gate_or_pass none = gate_pass
gate_or_pass (some st) = st.machine_gate

-- `_terminalDoneResult`
unfoldable pub terminal_outcome : State → Outcome
terminal_outcome s = record {
  reason = none;
  control = done;
  task_id = s.task_id;
  step_id = s.current_step_id;
  previous_step_id = s.previous_step_id;
  route = s.route;
  local_route = s.local_route;
  executor_status = executor_in "success" (current_step s);
  machine_gate = gate_or_pass (current_step s);
  brain_acceptance = accepted;
  publication_required = s.publication_required;
  next_action = done_next;
  handoff = control_handoff s done (some done_next);
}

abbrev unless_blocked : Option Reason → NextAction → Option NextAction
unless_blocked none next = some next
unless_blocked (some _) next = none

unfoldable pub outcome_of : Control → Ending → State → Outcome
outcome_of control e s = record {
  reason = e.0;
  control = control;
  task_id = s.task_id;
  step_id = s.current_step_id;
  previous_step_id = s.previous_step_id;
  route = s.route;
  local_route = s.local_route;
  executor_status = executor_in "unknown" (current_step s);
  machine_gate = gate_in (current_step s);
  brain_acceptance = brain_in (current_step s);
  publication_required = s.publication_required;
  next_action = e.1;
  handoff = control_handoff s control (unless_blocked e.0 e.1);
}

-- `if (control !== 'DONE') this.state.control = control`
abbrev pub set_control : Control → State → State
set_control done s = s
set_control c s = record s { control = some c }

abbrev pub set_given : Option String → Option String → Option String
set_given new old = if given new then new else old

abbrev pub set_routes : Args → State → State
set_routes args s = record s {
  route = set_given args.route s.route;
  local_route = set_given args.local_route s.local_route;
}

abbrev pub resume : State → State
resume s = record s { awaiting_user = false }

abbrev pub finish : Control → Result GovernanceError Ending × Governance → Answer
finish control (thrown e, g) = (thrown e, g)
finish control (ok e, g) =
    let s = set_control control g.state in
    let logged = record s { history = s.history ++ control_entry control e.0 e.1 ∷ [] } in
    (ok (outcome_of control e logged), record g { state = logged })

module _ (compute : String → Option String) where
  -- `_invalidateProofs`
  unfoldable pub invalidate_proofs : List String → Ledger → Ledger
  invalidate_proofs [] ledger = ledger
  invalidate_proofs (id ∷ ids) ledger = invalidate_proofs ids (elim (get_proof id ledger) [
    | none ↦ ledger
    | some p ↦
        record_proof compute
          (record p {
            status = proof_stale;
            verification_id = drop_empty p.verification_id;
            step_id = drop_empty p.step_id;
          })
          ledger
  ])

  -- `REVISE`, for a step id that is given.
  unfoldable pub revise_control : String → Args → Governance → Governance
  unfolding invalidate_proofs
  revise_control id args g =
      let st =
        set_acceptance args.acceptance (step_or_new (find_step id g.steps) id args.acceptance) in
      let ids = ids_reopened args.revise_delta st in
      record g {
        state = record g.state {
          current_step_id = some id;
          steps = put_step id (revise_step args.revise_delta st) g.steps;
          history = g.history ++ map acceptance_revised ids;
        };
        ledger = invalidate_proofs ids g.ledger;
      }

  -- The `switch` on the control.
  unfoldable pub dispatch : Control → Args → Governance → Result GovernanceError Ending × Governance
  unfolding revise_control
  dispatch plan args g = (
    ok (none, task_next),
    record g { state = record (resume g.state) { plan_revision = suc g.plan_revision } },
  )
  dispatch replan args g = (
    ok (none, replan_confirm),
    record g { state = record (resume g.state) { plan_revision = suc g.plan_revision } },
  )
  dispatch task args g =
      let (r, s) = task_control args (resume g.state) in (r, record g { state = s })
  dispatch revise args g = elim args.step_id [
    | none ↦ (thrown revise_needs_step, g)
    | some id ↦
        if given (some id)
        then (ok (none, revise_execute), revise_control id args g)
        else (thrown revise_needs_step, g)
  ]
  dispatch ask_user args g = (
    ok (some awaiting_user_decision, awaiting_user),
    record g { state = record g.state { awaiting_user = true; ask_user = some args.ask } },
  )
  dispatch publish args g =
      let (e, s) = publish_control g.allow_publish (resume g.state) in
      (ok e, record g { state = s })
  dispatch done args g =
      let (e, s) = done_control (resume g.state) in (ok e, record g { state = s })

  -- Past the task boundary: the terminal guard, then the control.
  abbrev pub proceed : Control → Args → Governance → Answer
  proceed control args g =
      finish control (dispatch control args (record g { state = set_routes args g.state }))

  abbrev pub guarded : Control → Args → Governance → Answer
  guarded done args g =
      if is_terminal_done g.control then (ok (terminal_outcome g.state), g) else proceed done args g
  guarded control args g =
      if is_terminal_done g.control then (thrown terminal, g) else proceed control args g

  abbrev pub entered :
      Control → Args → Governance → Result GovernanceError (Unit {0}) × State → Answer
  entered control args g (thrown e, s) = (thrown e, record g { state = s })
  entered control args g (ok _, s) = guarded control args (record g { state = s })

  -- A control outside of CONTROLS is `none`.
  unfoldable pub transition : Option Control → Args → Governance → Answer
  unfolding dispatch
  transition none args g = (thrown unknown_control, g)
  transition (some control) args g =
      entered control args g (enter_task args.task_id control g.state)
