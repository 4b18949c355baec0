-- ===== src/JobMap/Examples.antt =====
-- Preflights over concrete job maps.
use chatgpt_codex_orchestrat.Prelude.{
  String, ◌≡◌, ◌↔◌, refl, Bool, true, false, ◌&&◌, none, some, List, [], ◌∷◌, ◌==◌, ok, thrown,
}
use chatgpt_codex_orchestrat.JobMap.{
  Job, Scope, running, completed, is_null, ambiguous, recover_job, readable, recovery_preflight,
}
use chatgpt_codex_orchestrat.JobMap.Safe.{Answers, concerning, all_fit, preflight-concerning}

abbrev scope : Scope
scope = record {
  workspace_id = some "w1";
  workspace_root = none;
  task_id = some "t1";
  step_id = none;
  identity = none;
}

abbrev unbound_job : Job
unbound_job = record {
  job_id = "j1";
  task_id = none;
  step_id = none;
  identity = none;
  workspace_id = some "w1";
  workspace_root = none;
  state = running;
}

abbrev ended_job : Job
ended_job = record unbound_job { job_id = "j2"; task_id = some "t1"; state = completed }

abbrev same_text : String → String → Bool
same_text a b = a == b

one_is_recovered :
    recovery_preflight same_text scope (some unbound_job ∷ some ended_job ∷ [])
    ≡ ok (recover_job unbound_job)
unfolding recovery_preflight
one_is_recovered = refl

two_are_ambiguous :
    recovery_preflight same_text scope (some unbound_job ∷ some unbound_job ∷ [])
    ≡ thrown (ambiguous 2)
unfolding recovery_preflight
two_are_ambiguous = refl

preflight-concerning_example :
    (recovery_preflight same_text scope (some unbound_job ∷ some ended_job ∷ [])
      ≡ ok (recover_job unbound_job))
    ↔ ((is_null scope.workspace_id && is_null scope.workspace_root ≡ false)
        × (is_null scope.task_id && (is_null scope.step_id && is_null scope.identity) ≡ false)
        × ((js : List Job) × (readable (some unbound_job ∷ some ended_job ∷ []) ≡ some js)
            × (all_fit same_text scope (concerning same_text scope js) ≡ true)
            × Answers (concerning same_text scope js) (recover_job unbound_job)))
preflight-concerning_example =
    preflight-concerning same_text scope (some unbound_job ∷ some ended_job ∷ [])
      (recover_job unbound_job)
