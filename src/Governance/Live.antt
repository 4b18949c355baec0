-- ===== src/Governance/Live.antt =====
-- Every operation of src/governance/index.js keeps the invariant of its state.
use chatgpt_codex_orchestrat.Prelude.{
  String, ◌≡◌, ◌≢◌, ◌⊎◌, inl, inr, refl, ap, ◌∙◌, Bool, true, Option, none, some, List, arith,
  if◌then◌else◌, truthy, Result, ok, thrown, Bool-cases,
}
use chatgpt_codex_orchestrat.Gate.{RawAcceptance}
use chatgpt_codex_orchestrat.Governance.State.{
  done, done_next, Step, State, find_step, put_step, step_at, current_step, new_step, step_hard_ok,
  publication_ready_for_done, accept,
}
use chatgpt_codex_orchestrat.Governance.Controls.{
  GovernanceError, Args, Ending, has_result, reissue, issue_task, accept_found, accept_at,
  accept_current, task_control, task_needs_step, task_for, advance, issue_after, issue_found,
  changes_step, publish_control, done_control, done_found,
}
use chatgpt_codex_orchestrat.Governance.Sound.{
  ready-WasReadBack, IsStepSound, AllSound, AcceptedAt, IsSound, find-put, find-put_self,
  put-AllSound, accept_at-AllSound, new_step-IsStepSound, reissue-IsStepSound,
}

-- The invariant of a state whose task is not done.
pub record IsLive (s : State) : Type 0 where
  pub steps : AllSound s.steps
  pub active : s.current_step_id ≢ none → current_step s ≢ none
  pub not_done : s.control ≢ some done

pub IsLive-IsSound : {s : State} → IsLive s → IsSound s
IsLive-IsSound h = record {
  steps = h.steps;
  active = h.active;
  done_accepted = λ e. absurd (h.not_done e);
  done_published = λ e. absurd (h.not_done e);
}

-- writing one step, as the current one
pub put-IsLive :
    (id : String) (st : Step) (s : State)
    → IsStepSound st
    → IsLive s
    → IsLive (record s { current_step_id = some id; steps = put_step id st s.steps })
put-IsLive id st s v h = record {
  steps = put-AllSound id st s.steps v h.steps;
  active = λ e n. cc (find-put_self id st s.steps);
  not_done = h.not_done;
}

issued-IsLive :
    (id : String) (acc : Option (List RawAcceptance)) (s : State) (o : Option Step)
    → find_step id s.steps ≡ o
    → IsLive s
    → IsLive (issue_found id acc s o).1
unfolding issue_found
issued-IsLive id acc s none e h = put-IsLive id (new_step id acc) s (new_step-IsStepSound id acc) h
issued-IsLive id acc s (some st) e h = elim (Bool-cases (has_result st)) [
  | inl old ↦ rw old (record { steps = h.steps; active = λ k n. cc; not_done = h.not_done })
  | inr new ↦ rw new (put-IsLive id (reissue acc st) s (reissue-IsStepSound acc st new) h)
]

issue-IsLive :
    (id : String) (acc : Option (List RawAcceptance)) (s : State)
    → IsLive s
    → IsLive (issue_task id acc s).1
unfolding issue_task
issue-IsLive id acc s h = issued-IsLive id acc s (find_step id s.steps) refl h

-- accepting a step changes no step's presence
accept_found-present :
    (id j : String) (o : Option Step) (steps : List (String × Step))
    → find_step j steps ≢ none
    → find_step j (accept_found id o steps) ≢ none
accept_found-present id j none steps h = h
accept_found-present id j (some st) steps h = λ n. ground (arith, find-put id j (accept st) steps)

-- writing a step changes no step's presence
pub put-present :
    (cur : Option String) (id : String) (st : Step) (steps : List (String × Step))
    → step_at cur steps ≢ none
    → step_at cur (put_step id st steps) ≢ none
put-present none id st steps h = h
put-present (some j) id st steps h = λ n. ground (arith, find-put id j st steps)

accept_at-present :
    (cur : Option String) (steps : List (String × Step))
    → step_at cur steps ≢ none
    → step_at cur (accept_at cur steps) ≢ none
accept_at-present none steps h = h
accept_at-present (some id) steps h = accept_found-present id id (find_step id steps) steps h

accept-IsLive :
    (s : State) → IsLive s → step_hard_ok (current_step s) ≡ true → IsLive (accept_current s)
accept-IsLive s h k = record {
  steps = accept_at-AllSound s.current_step_id s.steps h.steps k;
  active = λ n. accept_at-present s.current_step_id s.steps (h.active n);
  not_done = h.not_done;
}

abbrev LiveIfOk : Result GovernanceError State → Type 0
LiveIfOk (ok s) = IsLive s
LiveIfOk (thrown e) = Unit {0}

advance-IsLive : (s : State) → IsLive s → LiveIfOk (advance s)
unfolding advance
advance-IsLive s h = elim (Bool-cases (step_hard_ok (current_step s))) [
  | inl k ↦ rw k (
      let a = accept-IsLive s h k in
      record { steps = a.steps; active = a.active; not_done = a.not_done })
  | inr k ↦ rw k tt
]

issue_after-IsLive :
    (id : String) (args : Args) (s : State) (r : Result GovernanceError State)
    → IsLive s
    → LiveIfOk r
    → IsLive (issue_after id args s r).1
issue_after-IsLive id args s (thrown e) h k = h
issue_after-IsLive id args s (ok t) h k = issue-IsLive id args.acceptance t k

task_for-IsLive : (id : String) (args : Args) (s : State) → IsLive s → IsLive (task_for id args s).1
unfolding task_for
task_for-IsLive id args s h = elim (Bool-cases (changes_step s.current_step_id id)) [
  | inl c ↦ rw c (issue_after-IsLive id args s (advance s) h (advance-IsLive s h))
  | inr c ↦ rw c (issue_after-IsLive id args s (ok s) h h)
]

pub task_control-IsLive : (args : Args) (s : State) → IsLive s → IsLive (task_control args s).1
unfolding task_control
task_control-IsLive args s h = by_id args.step_id
  where
    by_id :
        (o : Option String)
        → IsLive
            (elim o as (λ x. Result GovernanceError Ending × State) [
              | none ↦ (thrown task_needs_step, s)
              | some id ↦ if truthy id then task_for id args s else (thrown task_needs_step, s)
            ]).1
    by_id none = h
    by_id (some id) = elim (Bool-cases (truthy id)) [
      | inl t ↦ rw t (task_for-IsLive id args s h)
      | inr t ↦ rw t h
    ]

pub publish-IsLive : (allow : Bool) (s : State) → IsLive s → IsLive (publish_control allow s).1
unfolding publish_control
publish-IsLive allow s h = elim (Bool-cases (step_hard_ok (current_step s))) [
  | inr k ↦ rw k h
  | inl k ↦ elim (Bool-cases allow) [
    | inr off ↦ rw (k, off) h
    | inl on ↦
        rw (k, on)
          (let a = accept-IsLive s h k in
            record { steps = a.steps; active = a.active; not_done = a.not_done })
  ]
]

accept_found-accepted :
    (id : String) (st : Step) (steps : List (String × Step))
    → AcceptedAt (find_step id (accept_found id (some st) steps))
accept_found-accepted id st steps = rw find-put_self refl

accept_at-accepted :
    (cur : Option String) (steps : List (String × Step)) (st : Step)
    → step_at cur steps ≡ some st
    → AcceptedAt (step_at cur (accept_at cur steps))
accept_at-accepted none steps st e = absurd (cc)
accept_at-accepted (some id) steps st e = rw e (accept_found-accepted id st steps)

-- what `DONE` needs
abbrev pub MayEnd : State → Step → Type 0
MayEnd s cur =
    (step_hard_ok (some cur) ≡ true)
    × (s.publication_required ≡ true → publication_ready_for_done s.publish_result ≡ true)

pub done_found-cases :
    (s : State) (cur : Step)
    → ((done_found s (some cur)
          ≡ ((none, done_next), record (accept_current s) { control = some done }))
        × MayEnd s cur)
      ⊎ ((done_found s (some cur)).1 ≡ s) × ((done_found s (some cur)).0.0 ≢ none) × ¬ MayEnd s cur
unfolding done_found step_hard_ok
done_found-cases s cur = ground arith

done_found-IsSound :
    (s : State) (o : Option Step) → current_step s ≡ o → IsLive s → IsSound (done_found s o).1
done_found-IsSound s none e h = unfold done_found in IsLive-IsSound h
done_found-IsSound s (some cur) e h = elim (done_found-cases s cur) [
  | inr stays ↦ rw stays.0 (IsLive-IsSound h)
  | inl ends ↦
      let a = accept-IsLive s h (ap step_hard_ok e ∙ ends.1.0) in
      rw ends.0 (record {
        steps = a.steps;
        active = a.active;
        done_accepted = λ _. accept_at-accepted s.current_step_id s.steps cur e;
        done_published = λ _ r. (ready-WasReadBack s.publish_result).0 (ends.1.1 r);
      })
]

pub done-IsSound : (s : State) → IsLive s → IsSound (done_control s).1
unfolding done_control
done-IsSound s h = done_found-IsSound s (current_step s) refl h
