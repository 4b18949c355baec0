-- ===== src/Coordinator/Examples.antt =====
-- A run of the coordinator, and its theorems at it.
use chatgpt_codex_orchestrat.Prelude.{String, ◌≡◌, ◌⊎◌, refl, none, some, List, [], ◌∷◌}
use chatgpt_codex_orchestrat.Governance.State.{task}
use chatgpt_codex_orchestrat.Coordinator.State.{natural, Envelope, RunResult, accepted, new_run}
use chatgpt_codex_orchestrat.Coordinator.{RunCall, control_of, reply_of, accept_control}
use chatgpt_codex_orchestrat.Coordinator.Calls.{after_calls, run_calls-IsOnce}
use chatgpt_codex_orchestrat.Coordinator.Once.{IsOnce}
use chatgpt_codex_orchestrat.Coordinator.Accept.{IsTaken, IsRefused, accept_control-IsTaken}

abbrev hash : RunResult → String
hash r = r.payload

abbrev first_task : Envelope
first_task = record {
  run_id = some "run";
  control_id = some "c1";
  sequence = natural 1;
  control = some task;
  step_id = some "s1";
  instruction = some "build";
  ack_result_id = none;
}

abbrev first_result : RunResult
first_result = record {
  run_id = some "run";
  result_id = some "r1";
  in_reply_to = some "c1";
  sequence = natural 1;
  payload_hash = some "done";
  payload = "done";
}

abbrev calls : List RunCall
calls = control_of first_task ∷ reply_of first_result ∷ reply_of first_result ∷ []

first_accepted : (accept_control first_task (new_run (some "run"))).0 ≡ accepted 1
unfolding accept_control
first_accepted = refl

run_calls-IsOnce_example : IsOnce hash (after_calls hash (new_run (some "run")) calls)
run_calls-IsOnce_example = run_calls-IsOnce hash (some "run") calls

accept_control-IsTaken_example :
    IsTaken
      (some "c1")
      (natural 1)
      (new_run (some "run"))
      (accept_control first_task (new_run (some "run")))
    ⊎ IsRefused first_task (new_run (some "run")) (accept_control first_task (new_run (some "run")))
accept_control-IsTaken_example = accept_control-IsTaken first_task (new_run (some "run"))
