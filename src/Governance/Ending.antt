-- ===== src/Governance/Ending.antt =====
-- What DONE and a change of step need (src/governance/index.js).
use chatgpt_codex_orchestrat.Prelude.{
  String, ◌≡◌, ◌≢◌, ◌↔◌, inl, inr, refl, sym, ap, ◌∙◌, true, false, Option, none, some, List, arith,
  truthy, Result, ok, thrown, Bool-cases, differ,
}
use chatgpt_codex_orchestrat.Governance.State.{
  Control, task, done, Step, State, find_step, put_step, step_at, current_step, step_hard_ok,
  accept, new_step,
}
use chatgpt_codex_orchestrat.Governance.Controls.{
  Governance, GovernanceError, prior_not_ready, Args, Ending, is_terminal_done, done_control,
  done_found, task_control, task_for, advance, issue_task, issue_found, has_result, reissue,
  changes_step, accept_at, accept_found, accept_current,
}
use chatgpt_codex_orchestrat.Governance.Transition.{
  Outcome, dispatch, transition, finish, guarded, set_routes, resume, outcome_of,
}
use chatgpt_codex_orchestrat.Governance.Sound.{
  WasReadBack, ready-WasReadBack, find-put, find-put_self,
}
use chatgpt_codex_orchestrat.Governance.Live.{MayEnd, done_found-cases}
use chatgpt_codex_orchestrat.Governance.Terminal.{IsForTask, past_entry}

-- There is a current step that may end the task.
abbrev pub MayEndAt : State → Option Step → Type 0
MayEndAt s none = ⊥
MayEndAt s (some cur) =
    (step_hard_ok (some cur) ≡ true)
    × (s.publication_required ≡ true → WasReadBack s.publish_result)

MayEnd-WasReadBack : (s : State) (cur : Step) → MayEnd s cur ↔ MayEndAt s (some cur)
MayEnd-WasReadBack s cur =
    let r = ready-WasReadBack s.publish_result in
    (λ h. (h.0, λ q. r.0 (h.1 q)), λ h. (h.0, λ q. r.1 (h.1 q)))

-- The control was carried out, and not blocked.
abbrev pub Accepted : Result GovernanceError Outcome → Type 0
Accepted (ok o) = o.reason ≡ none
Accepted (thrown e) = ⊥

abbrev Ends : Ending × State → Type 0
Ends (e, s) = (e.0 ≡ none) × (s.control ≡ some done)

done_found-Ends :
    (s : State) (o : Option Step) → s.control ≢ some done → Ends (done_found s o) ↔ MayEndAt s o
unfolding done_found
done_found-Ends s none n = (λ h. cc, λ h. absurd h)
done_found-Ends s (some cur) n = elim (done_found-cases s cur) [
  | inl ends ↦ rw ends.0 (λ h. (MayEnd-WasReadBack s cur).0 ends.1, λ h. (refl, refl))
  | inr stays ↦ (λ h. absurd (stays.1 h.0), λ h. absurd (stays.2 ((MayEnd-WasReadBack s cur).1 h)))
]

guarded-Ends :
    (compute : String → Option String) (args : Args) (g : Governance)
    → is_terminal_done g.control ≡ false
    → let r = guarded compute done args g in
      (Accepted r.0 × (r.1.control ≡ some done))
      ↔ Ends (done_control (resume (set_routes args g.state)))
unfolding dispatch outcome_of
guarded-Ends compute args g t = simp t (λ h. h, λ h. h)

not_terminal : (c : Option Control) → c ≢ some done → is_terminal_done c ≡ false
not_terminal none n = refl
not_terminal (some c) n = ground arith

-- On a task that is not DONE, a DONE that names that task or none is accepted and ends the task
-- exactly if there is a current step whose executor succeeded and whose machine gate passes, and the
-- publication, if one is required, succeeded and was read back.
pub done_iff_ready :
    (compute : String → Option String) (args : Args) (g : Governance)
    → g.control ≢ some done
    → IsForTask args.task_id g.state
    → let r = transition compute (some done) args g in
      (Accepted r.0 × (r.1.control ≡ some done)) ↔ MayEndAt g.state (current_step g.state)
unfolding done_control
done_iff_ready compute args g n t =
    let a = guarded-Ends compute args g (not_terminal g.control n) in
    let b = done_found-Ends (resume (set_routes args g.state)) (current_step g.state) n in
    rw (past_entry compute done args g t) (λ h. b.0 (a.0 h), λ h. a.1 (b.1 h))

accept_found-find :
    (id : String) (st : Step) (steps : List (String × Step))
    → find_step id (accept_found id (some st) steps) ≡ some (accept st)
accept_found-find id st steps = rw find-put_self refl

accept_at-find :
    (o : Option String) (id : String) (st : Step) (steps : List (String × Step))
    → o ≡ some id
    → find_step id steps ≡ some st
    → find_step id (accept_at o steps) ≡ some (accept st)
accept_at-find o id st steps e f = rw (e, f) (accept_found-find id st steps)

find-put_other :
    (id j : String) (st : Step) (steps : List (String × Step))
    → id ≢ j
    → find_step j (put_step id st steps) ≡ find_step j steps
find-put_other id j st steps n = rw (find-put id j st steps, differ id j n) refl

-- a step other than `id` stays
issued-find :
    (id j : String) (args : Args) (s : State)
    → id ≢ j
    → let t = (issue_task id args.acceptance s).1 in
      (find_step j t.steps ≡ find_step j s.steps)
      × (t.current_step_id ≡ some id)
      × (t.previous_step_id ≡ s.previous_step_id)
unfolding issue_task
issued-find id j args s n = found (find_step id s.steps)
  where
    found :
        (o : Option Step)
        → let t = (issue_found id args.acceptance s o).1 in
          (find_step j t.steps ≡ find_step j s.steps)
          × (t.current_step_id ≡ some id)
          × (t.previous_step_id ≡ s.previous_step_id)
    found none =
        unfold issue_found in
        (find-put_other id j (new_step id args.acceptance) s.steps n, refl, refl)
    found (some st) =
        unfold issue_found in
        elim (Bool-cases (has_result st)) [
          | inl old ↦ rw old (refl, refl, refl)
          | inr new ↦
              rw new (find-put_other id j (reissue args.acceptance st) s.steps n, refl, refl)
        ]

-- the state that a change of step leads to
abbrev moved : State → State
moved s = record (accept_current s) { previous_step_id = s.current_step_id }

changing : (cur id : String) → truthy cur ≡ true → cur ≢ id → changes_step (some cur) id ≡ true
changing cur id t d = rw (t, differ cur id d) refl

task_for_changes :
    (id cur : String) (args : Args) (s : State)
    → s.current_step_id ≡ some cur
    → truthy cur ≡ true
    → cur ≢ id
    → (step_hard_ok (current_step s) ≡ false → task_for id args s ≡ (thrown prior_not_ready, s))
      × (step_hard_ok (current_step s) ≡ true
          → task_for id args s ≡ (
            ok (issue_task id args.acceptance (moved s)).0,
            (issue_task id args.acceptance (moved s)).1,
          ))
unfolding task_for advance
task_for_changes id cur args s c tc d =
    let e = ap (λ o. changes_step o id) c ∙ changing cur id tc d in
    (λ k. simp (e, k), λ k. simp (e, k))

task_control-task_for :
    (id : String) (args : Args) (s : State)
    → args.step_id ≡ some id
    → truthy id ≡ true
    → task_control args s ≡ task_for id args s
unfolding task_control
task_control-task_for id args s i t = rw i (rw t refl)

-- a `TASK` is `task_control` after the routes are set
guarded-task_control :
    (compute : String → Option String) (args : Args) (g : Governance)
    → is_terminal_done g.control ≡ false
    → let r = task_control args (resume (set_routes args g.state)) in
      guarded compute task args g ≡ finish task (r.0, record g { state = r.1 })
unfolding dispatch
guarded-task_control compute args g t = simp t

-- the service after a `TASK` that may not change the step
abbrev pub refused_task : Args → Governance → Governance
refused_task args g = record g { state = resume (set_routes args g.state) }

-- A TASK for a step other than the current one, of a task that is not DONE. If the current step's
-- executor has not succeeded or its machine gate does not pass, the TASK throws; only the routes and
-- the wait for the user are other than before. If it may go on, then the step it leaves is accepted
-- and is the previous one, and the step it names is the current one.
pub task_advances :
    (compute : String → Option String) (args : Args) (g : Governance) (cur id : String) (st : Step)
    → g.control ≢ some done
    → IsForTask args.task_id g.state
    → g.current_step_id ≡ some cur
    → truthy cur ≡ true
    → find_step cur g.steps ≡ some st
    → args.step_id ≡ some id
    → truthy id ≡ true
    → cur ≢ id
    → let r = transition compute (some task) args g in
      (step_hard_ok (some st) ≡ false → r ≡ (thrown prior_not_ready, refused_task args g))
      × (step_hard_ok (some st) ≡ true
          → (r.1.current_step_id ≡ some id)
            × (r.1.previous_step_id ≡ some cur)
            × (find_step cur r.1.steps ≡ some (accept st)))
task_advances compute args g cur id st n t c tc f i ti d =
    let s = resume (set_routes args g.state) in
    let k = task_for_changes id cur args s c tc d in
    let start = ap (λ o. step_at o g.steps) c ∙ f in
    let to_for = task_control-task_for id args s i ti in
    let m = issued-find id cur args (moved s) (λ e. d (sym e)) in
    let go =
      past_entry compute task args g t
      ∙ guarded-task_control compute args g (not_terminal g.control n) in
    (
      λ no.
          go
          ∙ ap (λ r. finish task (r.0, record g { state = r.1 }))
              (to_for ∙ k.0 (ap step_hard_ok start ∙ no)),
      λ yes.
          rw (go, to_for ∙ k.1 (ap step_hard_ok start ∙ yes))
            (m.1, m.2 ∙ c, m.0 ∙ accept_at-find g.current_step_id cur st g.steps c f),
    )
