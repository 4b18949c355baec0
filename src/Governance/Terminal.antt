-- ===== src/Governance/Terminal.antt =====
-- The end of a task: a DONE task does not change, and DONE needs every gate
-- (src/governance/index.js).
use chatgpt_codex_orchestrat.Prelude.{
  String, ◌≡◌, ◌≢◌, ◌⊎◌, inl, inr, refl, ap, ◌∙◌, true, false, Option, none, some, List, [], ◌∷◌,
  arith, ok, thrown, Bool-cases, eq_iff,
}
use chatgpt_codex_orchestrat.Governance.State.{
  Control, task, revise, ask_user, done, plan, replan, publish, Step, State, given, current_step,
  done_next, accepted, gate_pass,
}
use chatgpt_codex_orchestrat.Governance.Controls.{
  Governance, terminal, task_not_terminal, result_after_done, Args, enter_task, same_task, is_plan,
}
use chatgpt_codex_orchestrat.Governance.Handoff.{control_handoff}
use chatgpt_codex_orchestrat.Governance.Results.{ResultArgs, record_result}
use chatgpt_codex_orchestrat.Governance.Transition.{transition, guarded, terminal_outcome, Outcome}
use chatgpt_codex_orchestrat.Governance.Reach.{Call, control_call, result_call, call, run}

-- The call is a PLAN for another task.
abbrev pub StartsTask : Governance → Call → Type 0
StartsTask g (control_call compute c args) =
    (c ≡ some plan) × (t : String) × (args.task_id ≡ some t) × (same_task g.task_id t ≡ false)
StartsTask g (result_call compute args) = ⊥

abbrev pub NoneStartsTask : Governance → List Call → Type 0
NoneStartsTask g [] = Unit
NoneStartsTask g (c ∷ cs) = ¬ StartsTask g c × NoneStartsTask g cs

plan_or : (c : Control) → (c ≡ plan) ⊎ (is_plan c ≡ false)
plan_or c = ground arith

-- a terminal task is entered unchanged, or refused
enter_terminal :
    (t : Option String) (c : Control) (s : State)
    → s.control ≡ some done
    → given s.task_id ≡ true
    → ¬ ((c ≡ plan) × (u : String) × (t ≡ some u) × (same_task s.task_id u ≡ false))
    → (enter_task t c s ≡ (ok tt, s)) ⊎ (enter_task t c s ≡ (thrown task_not_terminal, s))
unfolding enter_task
enter_terminal none c s d g n = inl (ground arith)
enter_terminal (some u) c s d g n = elim (Bool-cases (same_task s.task_id u)) [
  | inl same ↦ inl (ground arith)
  | inr other ↦ elim (plan_or c) [
    | inl p ↦ absurd (n (p, u, refl, other))
    | inr p ↦ inr (ground arith)
  ]
]

guarded_terminal :
    (compute : String → Option String) (c : Control) (args : Args) (g : Governance)
    → g.control ≡ some done
    → (guarded compute c args g).1 ≡ g
guarded_terminal compute done args g d = simp d
guarded_terminal compute task args g d = simp d
guarded_terminal compute revise args g d = simp d
guarded_terminal compute ask_user args g d = simp d
guarded_terminal compute plan args g d = simp d
guarded_terminal compute replan args g d = simp d
guarded_terminal compute publish args g d = simp d

control_terminal :
    (compute : String → Option String) (c : Option Control) (args : Args) (g : Governance)
    → g.control ≡ some done
    → given g.task_id ≡ true
    → ¬ StartsTask g (control_call compute c args)
    → (transition compute c args g).1 ≡ g
unfolding transition
control_terminal compute none args g d t n = refl
control_terminal compute (some c) args g d t n =
    elim (enter_terminal args.task_id c g.state d t (λ s. n (ap some s.0, s.1, s.2, s.3))) [
      | inl e ↦ rw e (guarded_terminal compute c args g d)
      | inr e ↦ rw e refl
    ]

record_terminal :
    (compute : String → Option String) (args : ResultArgs) (g : Governance)
    → g.control ≡ some done
    → record_result compute args g ≡ (thrown result_after_done, g)
unfolding record_result
record_terminal compute args g d = simp d

call_terminal :
    (g : Governance) (c : Call)
    → g.control ≡ some done
    → given g.task_id ≡ true
    → ¬ StartsTask g c
    → call g c ≡ g
unfolding call
call_terminal g (control_call compute c args) d t n = control_terminal compute c args g d t n
call_terminal g (result_call compute args) d t n = ap (λ r. r.1) (record_terminal compute args g d)

-- A task that is DONE never changes: whatever controls and results follow, in whatever order, none of
-- them a PLAN for another task, the service is exactly as it was.
pub run_terminal :
    (g : Governance) (cs : List Call)
    → g.control ≡ some done
    → given g.task_id ≡ true
    → NoneStartsTask g cs
    → run g cs ≡ g
unfolding run
run_terminal g [] d t n = refl
run_terminal g (c ∷ cs) d t n = rw (call_terminal g c d t n.0) (run_terminal g cs d t n.1)

-- The control names no task, or the one that is there.
abbrev pub IsForTask : Option String → State → Type 0
IsForTask t s = (given s.task_id ≡ true) × ((t ≡ none) ⊎ (t ≡ s.task_id))

same_task_self : (t : Option String) (u : String) → some u ≡ t → same_task t u ≡ true
same_task_self none u e = absurd (cc)
same_task_self (some v) u e = ground (arith, eq_iff v u)

pub enter_same :
    (t : Option String) (c : Control) (s : State) → IsForTask t s → enter_task t c s ≡ (ok tt, s)
unfolding enter_task
enter_same none c s h = simp h.0
enter_same (some u) c s (h, inl e) = absurd (cc)
enter_same (some u) c s (h, inr e) = simp (h, same_task_self s.task_id u e)

done_again :
    (compute : String → Option String) (args : Args) (g : Governance)
    → g.control ≡ some done
    → guarded compute done args g ≡ (ok (terminal_outcome g.state), g)
done_again compute args g d = simp d

control_refused :
    (compute : String → Option String) (c : Control) (args : Args) (g : Governance)
    → g.control ≡ some done
    → c ≢ done
    → guarded compute c args g ≡ (thrown terminal, g)
control_refused compute done args g d n = absurd (n refl)
control_refused compute task args g d n = simp d
control_refused compute revise args g d n = simp d
control_refused compute ask_user args g d n = simp d
control_refused compute plan args g d n = simp d
control_refused compute replan args g d n = simp d
control_refused compute publish args g d n = simp d

pub past_entry :
    (compute : String → Option String) (c : Control) (args : Args) (g : Governance)
    → IsForTask args.task_id g.state
    → transition compute (some c) args g ≡ guarded compute c args g
unfolding transition
past_entry compute c args g t = rw (enter_same args.task_id c g.state t) refl

-- The answer to a DONE on a task that is DONE, with all that the state says of the task and its step.
pub record IsFinal (s : State) (o : Outcome) : Type 0 where
  pub reason : o.reason ≡ none
  pub control : o.control ≡ done
  pub next_action : o.next_action ≡ done_next
  pub brain_acceptance : o.brain_acceptance ≡ accepted
  pub task_id : o.task_id ≡ s.task_id
  pub step_id : o.step_id ≡ s.current_step_id
  pub previous_step_id : o.previous_step_id ≡ s.previous_step_id
  pub route : o.route ≡ s.route
  pub local_route : o.local_route ≡ s.local_route
  pub publication_required : o.publication_required ≡ s.publication_required
  pub step :
      (st : Step)
      → current_step s ≡ some st
      → (o.executor_status ≡ st.executor_status) × (o.machine_gate ≡ st.machine_gate)
  pub no_step :
      current_step s ≡ none → (o.executor_status ≡ "success") × (o.machine_gate ≡ gate_pass)
  pub handoff : o.handoff ≡ control_handoff s done (some done_next)

terminal_outcome-IsFinal : (s : State) → IsFinal s (terminal_outcome s)
unfolding terminal_outcome
terminal_outcome-IsFinal s = record {
  reason = refl;
  control = refl;
  next_action = refl;
  brain_acceptance = refl;
  task_id = refl;
  step_id = refl;
  previous_step_id = refl;
  route = refl;
  local_route = refl;
  publication_required = refl;
  step = λ st e. rw e (refl, refl);
  no_step = λ e. rw e (refl, refl);
  handoff = refl;
}

-- On a DONE task, a DONE that names that task or none is accepted again, with the task's own steps,
-- routes, gates and publication in the answer; every other such control is refused as one on a terminal
-- task, and so is a result; the service stays as it is.
pub terminal_answers :
    (compute : String → Option String) (c : Control) (args : Args) (results : ResultArgs)
    (g : Governance)
    → g.control ≡ some done
    → IsForTask args.task_id g.state
    → ((o : Outcome) × (transition compute (some done) args g ≡ (ok o, g)) × IsFinal g.state o)
      × (c ≢ done → transition compute (some c) args g ≡ (thrown terminal, g))
      × (record_result compute results g ≡ (thrown result_after_done, g))
terminal_answers compute c args results g d t = (
  (
    terminal_outcome g.state,
    past_entry compute done args g t ∙ done_again compute args g d,
    terminal_outcome-IsFinal g.state,
  ),
  λ n. past_entry compute c args g t ∙ control_refused compute c args g d n,
  record_terminal compute results g d,
)
