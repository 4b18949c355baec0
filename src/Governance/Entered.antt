-- ===== src/Governance/Entered.antt =====
-- Entering a call of the Governance service, src/governance/index.js: the check of the task and of its end.
use chatgpt_codex_orchestrat.Prelude.{
  String, ◌≡◌, inl, inr, refl, false, not, ◌&&◌, Option, none, some, [], arith, Result, ok, thrown,
  Bool-cases,
}
use chatgpt_codex_orchestrat.Governance.State.{Control, State, fresh_state, find_step, given}
use chatgpt_codex_orchestrat.Governance.Controls.{
  GovernanceError, enter_task, bind_task, require_task, is_terminal_done, same_task, is_plan,
}
use chatgpt_codex_orchestrat.Governance.Sound.{IsSound}
use chatgpt_codex_orchestrat.Governance.Live.{IsLive}

pub fresh-IsSound :
    (s : State) → s.steps ≡ [] → s.current_step_id ≡ none → s.control ≡ none → IsSound s
unfolding find_step
fresh-IsSound s e c d = record {
  steps = λ id st f. cc (rw e at f);
  active = λ n. absurd (n c);
  done_accepted = λ k. cc;
  done_published = λ k r. cc;
}

require-IsSound :
    (r : Result GovernanceError (Unit {0}) × State) → IsSound r.1 → IsSound (require_task r).1
require-IsSound (thrown e, s) h = h
require-IsSound (ok _, s) h = h

bind-IsSound : (t : String) (s : State) → IsSound s → IsSound (bind_task t s).1
bind-IsSound t s h = elim (Bool-cases (given s.task_id)) [
  | inl old ↦ rw old h
  | inr new ↦ rw new (record {
    steps = h.steps;
    active = h.active;
    done_accepted = h.done_accepted;
    done_published = h.done_published;
  })
]

pub enter-IsSound :
    (t : Option String) (c : Control) (s : State) → IsSound s → IsSound (enter_task t c s).1
unfolding enter_task
enter-IsSound none c s h = require-IsSound (ok tt, s) h
enter-IsSound (some t) c s h = elim (Bool-cases (given s.task_id && not (same_task s.task_id t))) [
  | inr same ↦ rw same (require-IsSound (bind_task t s) (bind-IsSound t s h))
  | inl other ↦ elim (Bool-cases (is_terminal_done s.control && is_plan c)) [
    | inl new ↦
        rw (other, new) (fresh-IsSound (record fresh_state { task_id = some t }) refl refl refl)
    | inr refused ↦ rw (other, refused) h
  ]
]

pub IsLive-of : (s : State) → is_terminal_done s.control ≡ false → IsSound s → IsLive s
IsLive-of s t h = record { steps = h.steps; active = h.active; not_done = λ e. ground arith }
