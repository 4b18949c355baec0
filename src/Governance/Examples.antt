-- ===== src/Governance/Examples.antt =====
-- Runs of the Governance service, and its theorems at concrete calls.
use chatgpt_codex_orchestrat.Prelude.{
  String, ◌≡◌, ◌≢◌, ◌↔◌, ◌⊎◌, inr, refl, true, false, Option, none, some, List, [], ◌∷◌, ◌++◌, ok,
  thrown, apart,
}
use chatgpt_codex_orchestrat.Evidence.{object}
use chatgpt_codex_orchestrat.Gate.{named}
use chatgpt_codex_orchestrat.Governance.State.{
  task, done, plan, gate_pass, pending, AskUser, fresh_state, Step, find_step, put_step, accept,
  step_hard_ok, current_step,
}
use chatgpt_codex_orchestrat.Governance.Ledger.{
  Proof, proof_pass, record_proof, invalidate_on_change, is_fresh, get_proof, normal_files,
}
use chatgpt_codex_orchestrat.Governance.Controls.{
  Args, Governance, enter_task, done_control, prior_not_ready, terminal, result_after_done,
}
use chatgpt_codex_orchestrat.Governance.Results.{ResultArgs, record_result}
use chatgpt_codex_orchestrat.Governance.Transition.{transition, Outcome}
use chatgpt_codex_orchestrat.Governance.Sound.{IsSound}
use chatgpt_codex_orchestrat.Governance.Reach.{
  Call, control_call, result_call, run, created, run-IsSound,
}
use chatgpt_codex_orchestrat.Governance.Terminal.{run_terminal, IsFinal, terminal_answers}
use chatgpt_codex_orchestrat.Governance.Ending.{
  MayEndAt, Accepted, done_iff_ready, task_advances, refused_task,
}
use chatgpt_codex_orchestrat.Governance.Changed.{Touches}
use chatgpt_codex_orchestrat.Governance.Freshness.{
  IsAfter, SamePrints, invalidate-is_fresh, record-is_fresh,
}

abbrev no_question : AskUser
no_question = record {
  why_blocked = "";
  minimal_user_action = "";
  expected_fields = [];
  question = "";
  resume_control_id = none;
}

abbrev no_args : Args
no_args = record {
  task_id = some "t1";
  step_id = none;
  route = none;
  local_route = none;
  acceptance = none;
  revise_delta = none;
  ask = no_question;
}

abbrev for_step : String → Args
for_step id = record no_args { step_id = some id; acceptance = some (named "tests" ∷ []) }

abbrev success : ResultArgs
success = record {
  task_id = some "t1";
  step_id = some "s1";
  executor_status = "success";
  evidence = some (object (some "tests") none (some "pass") none none none none ∷ []);
  changed = none;
  publication = none;
}

abbrev files : String → Option String
files f = some "3f786850"

abbrev start : Governance
start = created false []

abbrev tasked : List Call
tasked =
    control_call files (some plan) no_args ∷ control_call files (some task) (for_step "s1") ∷ []

abbrev finished : List Call
finished = result_call files success ∷ control_call files (some done) no_args ∷ []

abbrev ready_step : Step
ready_step = record {
  step_id = "s1";
  acceptance = [];
  evidence = [];
  executor_status = "success";
  machine_gate = gate_pass;
  brain_acceptance = pending;
  changed = [];
}

abbrev ready : Governance
ready = record start {
  state = record fresh_state {
    task_id = some "t1";
    control = some task;
    current_step_id = some "s1";
    steps = ("s1", ready_step) ∷ [];
  };
}

abbrev at_end : Governance
at_end = record ready { state = record ready.state { control = some done } }

abbrev proof : Proof
proof = record {
  acceptance_id = "tests";
  status = proof_pass;
  kind = "verify";
  summary = "";
  verification_id = none;
  relevant_files = "./src\\a.js" ∷ [];
  fingerprints = [];
  dependency_free = false;
  step_id = none;
}

done_ends : (transition files (some done) no_args ready).1.control ≡ some done
unfolding transition enter_task done_control find_step put_step
done_ends = refl

run-IsSound_example : IsSound (run start (tasked ++ finished)).state
run-IsSound_example = run-IsSound false [] (tasked ++ finished)

run_terminal_example : run at_end finished ≡ at_end
run_terminal_example = run_terminal at_end finished refl refl (λ h. h, (λ h. cc h.0, tt))

terminal_answers_example :
    ((o : Outcome) × (transition files (some done) no_args at_end ≡ (ok o, at_end))
      × IsFinal at_end.state o)
    × (task ≢ done → transition files (some task) no_args at_end ≡ (thrown terminal, at_end))
    × (record_result files success at_end ≡ (thrown result_after_done, at_end))
terminal_answers_example = terminal_answers files task no_args success at_end refl (refl, inr refl)

done_iff_ready_example :
    let r = transition files (some done) no_args ready in
    (Accepted r.0 × (r.1.control ≡ some done)) ↔ MayEndAt ready.state (current_step ready.state)
done_iff_ready_example = done_iff_ready files no_args ready (λ e. cc) (refl, inr refl)

found_ready : find_step "s1" ready.steps ≡ some ready_step
unfolding find_step
found_ready = refl

task_advances_example :
    let r = transition files (some task) (for_step "s2") ready in
    (step_hard_ok (some ready_step) ≡ false
      → r ≡ (thrown prior_not_ready, refused_task (for_step "s2") ready))
    × (step_hard_ok (some ready_step) ≡ true
        → (r.1.current_step_id ≡ some "s2")
          × (r.1.previous_step_id ≡ some "s1")
          × (find_step "s1" r.1.steps ≡ some (accept ready_step)))
task_advances_example =
    task_advances files (for_step "s2") ready "s1" "s2" ready_step (λ e. cc) (refl, inr refl) refl
      refl found_ready refl refl (apart "s1" "s2" refl)

invalidate-is_fresh_example :
    let ledger = record_proof files proof [] in
    let after = (invalidate_on_change ("src/a.js" ∷ []) ledger).0 in
    IsAfter ("src/a.js" ∷ []) (get_proof "tests" ledger) (get_proof "tests" after)
    × ((is_fresh files "tests" none after ≡ true) ↔ (
        (is_fresh files "tests" none ledger ≡ true)
        × ((p : Proof) → get_proof "tests" ledger ≡ some p → ¬ Touches ("src/a.js" ∷ []) p)))
invalidate-is_fresh_example =
    invalidate-is_fresh files none ("src/a.js" ∷ []) "tests" (record_proof files proof [])

record-is_fresh_example :
    let after = record_proof files proof [] in
    let names = normal_files proof.relevant_files in
    ((is_fresh files "tests" none after ≡ true) ↔ (
      (proof_pass ≡ proof_pass) × ((false ≡ true) ⊎ ((names ≢ []) × SamePrints files files names))))
    × (proof.acceptance_id ≢ "docs" → get_proof "docs" after ≡ get_proof "docs" [])
record-is_fresh_example = record-is_fresh files files proof "docs" []
