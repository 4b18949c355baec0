-- ===== src/Governance/Reach.antt =====
-- The invariant over every sequence of calls of the Governance service (src/governance/index.js).
use chatgpt_codex_orchestrat.Prelude.{
  String, ◌≢◌, inl, inr, refl, Bool, Option, none, some, List, [], ◌∷◌, if◌then◌else◌, truthy,
  Result, ok, thrown, Bool-cases,
}
use chatgpt_codex_orchestrat.Governance.State.{
  Control, task, revise, revise_execute, ask_user, done, plan, replan, publish, State, fresh_state,
  find_step, given,
}
use chatgpt_codex_orchestrat.Governance.Ledger.{Ledger}
use chatgpt_codex_orchestrat.Governance.Controls.{
  Governance, GovernanceError, terminal, Args, Ending, revise_needs_step, enter_task,
  is_terminal_done, revise_step, step_or_new, set_acceptance,
}
use chatgpt_codex_orchestrat.Governance.Results.{ResultArgs, record_result}
use chatgpt_codex_orchestrat.Governance.Transition.{
  dispatch, revise_control, transition, finish, proceed, guarded, entered, set_routes, set_control,
  resume,
}
use chatgpt_codex_orchestrat.Governance.Sound.{IsSound, revise-IsStepSound}
use chatgpt_codex_orchestrat.Governance.Live.{
  IsLive, IsLive-IsSound, put-IsLive, task_control-IsLive, publish-IsLive, done-IsSound,
}
use chatgpt_codex_orchestrat.Governance.Entered.{fresh-IsSound, enter-IsSound, IsLive-of}
use chatgpt_codex_orchestrat.Governance.Recorded.{record-IsSound}

controlled-IsSound :
    (c : Control) (s : State) → c ≢ done → IsLive s → IsSound (record s { control = some c })
controlled-IsSound c s n h = record {
  steps = h.steps;
  active = h.active;
  done_accepted = λ k. absurd (n (cc));
  done_published = λ k r. absurd (n (cc));
}

set_control-IsSound : (c : Control) (s : State) → c ≢ done → IsLive s → IsSound (set_control c s)
set_control-IsSound done s n h = absurd (n refl)
set_control-IsSound task s n h = controlled-IsSound task s n h
set_control-IsSound revise s n h = controlled-IsSound revise s n h
set_control-IsSound ask_user s n h = controlled-IsSound ask_user s n h
set_control-IsSound plan s n h = controlled-IsSound plan s n h
set_control-IsSound replan s n h = controlled-IsSound replan s n h
set_control-IsSound publish s n h = controlled-IsSound publish s n h

revise-IsLive :
    (compute : String → Option String) (id : String) (args : Args) (g : Governance)
    → IsLive g.state
    → IsLive (revise_control compute id args g).state
unfolding revise_control
revise-IsLive compute id args g h =
    let st =
      set_acceptance args.acceptance (step_or_new (find_step id g.steps) id args.acceptance) in
    let a =
      put-IsLive id (revise_step args.revise_delta st) g.state
        (revise-IsStepSound args.revise_delta st) h in
    record { steps = a.steps; active = a.active; not_done = a.not_done }

-- the end of a control other than `DONE`
finish-IsSound :
    (c : Control) (r : Result GovernanceError Ending × Governance)
    → c ≢ done
    → IsLive r.1.state
    → IsSound (finish c r).1.state
finish-IsSound c (thrown e, g) n h = IsLive-IsSound h
finish-IsSound c (ok e, g) n h =
    let s = set_control-IsSound c g.state n h in
    record {
      steps = s.steps;
      active = s.active;
      done_accepted = s.done_accepted;
      done_published = s.done_published;
    }

resume-IsLive : (s : State) → IsLive s → IsLive (resume s)
resume-IsLive s h = record { steps = h.steps; active = h.active; not_done = h.not_done }

dispatch-IsLive :
    (compute : String → Option String) (c : Control) (args : Args) (g : Governance)
    → c ≢ done
    → IsLive g.state
    → IsLive (dispatch compute c args g).1.state
unfolding dispatch
dispatch-IsLive compute plan args g n h = record {
  steps = h.steps;
  active = h.active;
  not_done = h.not_done;
}
dispatch-IsLive compute replan args g n h = record {
  steps = h.steps;
  active = h.active;
  not_done = h.not_done;
}
dispatch-IsLive compute task args g n h =
    task_control-IsLive args (resume g.state) (resume-IsLive g.state h)
dispatch-IsLive compute revise args g n h = by_step args.step_id
  where
    by_step :
        (o : Option String)
        → IsLive
            (elim o as (λ x. Result GovernanceError Ending × Governance) [
              | none ↦ (thrown revise_needs_step, g)
              | some id ↦
                  if given (some id)
                  then (ok (none, revise_execute), revise_control compute id args g)
                  else (thrown revise_needs_step, g)
            ]).1.state
    by_step none = h
    by_step (some id) = elim (Bool-cases (truthy id)) [
      | inl t ↦ rw t (revise-IsLive compute id args g h)
      | inr t ↦ rw t h
    ]
dispatch-IsLive compute ask_user args g n h = record {
  steps = h.steps;
  active = h.active;
  not_done = h.not_done;
}
dispatch-IsLive compute publish args g n h =
    publish-IsLive g.allow_publish (resume g.state) (resume-IsLive g.state h)
dispatch-IsLive compute done args g n h = absurd (n refl)

-- `DONE` may end a live task.
finish_done-IsSound :
    (compute : String → Option String) (args : Args) (g : Governance)
    → IsLive g.state
    → IsSound (finish done (dispatch compute done args g)).1.state
unfolding dispatch
finish_done-IsSound compute args g h =
    let s = done-IsSound (resume g.state) (resume-IsLive g.state h) in
    record {
      steps = s.steps;
      active = s.active;
      done_accepted = s.done_accepted;
      done_published = s.done_published;
    }

routes-IsLive : (args : Args) (s : State) → IsLive s → IsLive (set_routes args s)
routes-IsLive args s h = record { steps = h.steps; active = h.active; not_done = h.not_done }

proceed-IsSound :
    (compute : String → Option String) (c : Control) (args : Args) (g : Governance)
    → c ≢ done
    → IsLive g.state
    → IsSound (proceed compute c args g).1.state
proceed-IsSound compute c args g n h =
    finish-IsSound c (dispatch compute c args (record g { state = set_routes args g.state })) n
      (dispatch-IsLive compute c args _ n (routes-IsLive args g.state h))

unless_terminal :
    (compute : String → Option String) (c : Control) (args : Args) (g : Governance)
    → c ≢ done
    → IsSound g.state
    → IsSound
        (if is_terminal_done g.control
          then (thrown terminal, g)
          else proceed compute c args g).1.state
unless_terminal compute c args g n h = elim (Bool-cases (is_terminal_done g.control)) [
  | inl t ↦ simp t h
  | inr t ↦ simp t (proceed-IsSound compute c args g n (IsLive-of g.state t h))
]

guarded-IsSound :
    (compute : String → Option String) (c : Control) (args : Args) (g : Governance)
    → IsSound g.state
    → IsSound (guarded compute c args g).1.state
guarded-IsSound compute done args g h = elim (Bool-cases (is_terminal_done g.control)) [
  | inl t ↦ simp t h
  | inr t ↦ simp t (
      finish_done-IsSound compute args (record g { state = set_routes args g.state })
        (routes-IsLive args g.state (IsLive-of g.state t h)))
]
guarded-IsSound compute task args g h = unless_terminal compute task args g (λ e. cc) h
guarded-IsSound compute revise args g h = unless_terminal compute revise args g (λ e. cc) h
guarded-IsSound compute ask_user args g h = unless_terminal compute ask_user args g (λ e. cc) h
guarded-IsSound compute plan args g h = unless_terminal compute plan args g (λ e. cc) h
guarded-IsSound compute replan args g h = unless_terminal compute replan args g (λ e. cc) h
guarded-IsSound compute publish args g h = unless_terminal compute publish args g (λ e. cc) h

entered-IsSound :
    (compute : String → Option String) (c : Control) (args : Args) (g : Governance)
    (r : Result GovernanceError (Unit {0}) × State)
    → IsSound r.1
    → IsSound (entered compute c args g r).1.state
entered-IsSound compute c args g (thrown e, s) h = h
entered-IsSound compute c args g (ok _, s) h =
    guarded-IsSound compute c args (record g { state = s }) h

pub transition-IsSound :
    (compute : String → Option String) (c : Option Control) (args : Args) (g : Governance)
    → IsSound g.state
    → IsSound (transition compute c args g).1.state
transition-IsSound compute none args g h = unfold transition in h
transition-IsSound compute (some c) args g h =
    unfold transition in
    entered-IsSound compute c args g (enter_task args.task_id c g.state)
      (enter-IsSound args.task_id c g.state h)

-- A call of the service, with the file system as it is then.
pub data Call : Type 0 where
  control_call : (String → Option String) → Option Control → Args → Call
  result_call : (String → Option String) → ResultArgs → Call

-- The service after a call, whether it returned or threw.
unfoldable pub call : Governance → Call → Governance
call g (control_call compute c args) = (transition compute c args g).1
call g (result_call compute args) = (record_result compute args g).1

unfoldable pub run : Governance → List Call → Governance
unfolding call
run g [] = g
run g (c ∷ cs) = run (call g c) cs

run_from-IsSound : (g : Governance) (cs : List Call) → IsSound g.state → IsSound (run g cs).state
unfolding run
run_from-IsSound g [] h = h
run_from-IsSound g (control_call compute c args ∷ cs) h =
    run_from-IsSound (transition compute c args g).1 cs (transition-IsSound compute c args g h)
run_from-IsSound g (result_call compute args ∷ cs) h =
    run_from-IsSound (record_result compute args g).1 cs (record-IsSound compute args g h)

abbrev pub created : Bool → Ledger → Governance
created allow ledger = record { state = fresh_state; ledger = ledger; allow_publish = allow }

-- After any controls and results, calls that threw included, of a new service: a step that the Brain
-- has accepted has executor success and a passing machine gate; a machine gate that passes is what
-- the acceptance gate gives for the step's items and evidence; an active step exists; and a task that
-- is DONE has its current step accepted, and its publication read back if one was required.
pub run-IsSound :
    (allow : Bool) (ledger : Ledger) (cs : List Call)
    → IsSound (run (created allow ledger) cs).state
run-IsSound allow ledger cs =
    run_from-IsSound (created allow ledger) cs (fresh-IsSound fresh_state refl refl refl)
