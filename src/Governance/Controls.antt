-- ===== src/Governance/Controls.antt =====
-- The Brain controls: `GovernanceService.transition` of src/governance/index.js. What was written
-- before a throw stays written, so the service comes back beside the error too.
use chatgpt_codex_orchestrat.Prelude.{
  String, Bool, true, false, not, ◌&&◌, ◌||◌, Option, none, some, List, [], ◌∷◌, if◌then◌else◌,
  truthy, Result, ok, thrown, ◌==◌,
}
use chatgpt_codex_orchestrat.Evidence.{Evidence}
use chatgpt_codex_orchestrat.Gate.{RawAcceptance}
use chatgpt_codex_orchestrat.Governance.Ledger.{Ledger}
use chatgpt_codex_orchestrat.Governance.State.{
  Control, done, plan, gate_pending, pending, revised, item_pending, Item, Step, AskUser, Reason,
  task_reissue, publish_not_ready, publish_disabled, done_no_step, done_executor, done_gate,
  done_publication, NextAction, execute, blocked_task_reissue, blocked_publish_acceptance,
  blocked_publish_disabled, publication_pending, blocked_done, blocked_done_publication, done_next,
  State, fresh_state, find_step, put_step, current_step, given, items_of, new_step, step_hard_ok,
  is_gate_pass, is_gate_pending, accept, publication_ready_for_done,
}

pub record Governance : Type 0 where
  pub state : State
  pub open state use *
  pub ledger : Ledger
  pub allow_publish : Bool

pub data GovernanceError : Type 0 where
  unknown_control task_not_terminal task_mismatch task_required terminal : GovernanceError
  task_needs_step prior_not_ready revise_needs_step : GovernanceError
  result_after_done result_needs_step result_not_active step_missing : GovernanceError

pub record ReviseDelta : Type 0 where
  pub invalidate : List String
  pub preserve : List String

pub record Args : Type 0 where
  pub task_id : Option String
  pub step_id : Option String
  pub route : Option String
  pub local_route : Option String
  pub acceptance : Option (List RawAcceptance)
  pub revise_delta : Option ReviseDelta
  pub ask : AskUser

-- How a control ends that does not throw: what blocks it, if anything, and what comes next.
abbrev pub Ending : Type 0
Ending = Option Reason × NextAction

abbrev pub is_terminal_done : Option Control → Bool
is_terminal_done (some done) = true
is_terminal_done _ = false

abbrev pub is_plan : Control → Bool
is_plan plan = true
is_plan _ = false

abbrev pub same_task : Option String → String → Bool
same_task none t = false
same_task (some u) t = u == t

-- `_bindTask`, for a task id that is not null.
abbrev pub bind_task : String → State → Result GovernanceError (Unit {0}) × State
bind_task t s =
    if given s.task_id
    then ((if same_task s.task_id t then ok tt else thrown task_mismatch), s)
    else (ok tt, record s { task_id = some t })

-- The task boundary, `_bindTask` and `_requireTask`.
abbrev pub require_task :
    Result GovernanceError (Unit {0}) × State → Result GovernanceError (Unit {0}) × State
require_task (thrown e, s) = (thrown e, s)
require_task (ok _, s) = ((if given s.task_id then ok tt else thrown task_required), s)

unfoldable pub enter_task :
    Option String → Control → State → Result GovernanceError (Unit {0}) × State
enter_task none control s = require_task (ok tt, s)
enter_task (some t) control s =
    if given s.task_id && not (same_task s.task_id t)
    then (if is_terminal_done s.control && is_plan control
        then require_task (bind_task t fresh_state)
        else (thrown task_not_terminal, s))
    else require_task (bind_task t s)

abbrev is_empty {ℓ} : {A : Type ℓ} → List A → Bool
is_empty [] = true
is_empty (_ ∷ _) = false

unfoldable pub has_result : Step → Bool
has_result st =
    not (st.executor_status == "unknown")
    || (not (is_gate_pending st.machine_gate)
        || (not (is_empty st.evidence) || not (is_empty st.changed)))

-- `if (acceptance) this._setCurrentStepAcceptance(step, acceptance)`
abbrev pub set_acceptance : Option (List RawAcceptance) → Step → Step
set_acceptance none st = st
set_acceptance (some raws) st = record st { acceptance = items_of raws }

abbrev pub reissue : Option (List RawAcceptance) → Step → Step
reissue acceptance st = record (set_acceptance acceptance st) { brain_acceptance = pending }

-- `TASK` once a change of step is settled, by the step that is there: authorise it, or refuse a step
-- with a RESULT. Either way it is the current step now.
unfoldable pub issue_found :
    String → Option (List RawAcceptance) → State → Option Step → Ending × State
unfolding has_result
issue_found id acceptance s none = (
  (none, execute),
  record s { current_step_id = some id; steps = put_step id (new_step id acceptance) s.steps },
)
issue_found id acceptance s (some st) =
    if has_result st
    then ((some task_reissue, blocked_task_reissue), record s { current_step_id = some id })
    else (
      (none, execute),
      record s { current_step_id = some id; steps = put_step id (reissue acceptance st) s.steps },
    )

unfoldable pub issue_task : String → Option (List RawAcceptance) → State → Ending × State
issue_task id acceptance s = issue_found id acceptance s (find_step id s.steps)

-- `cur.brainAcceptance = 'accepted'`
abbrev pub accept_found : String → Option Step → List (String × Step) → List (String × Step)
accept_found id none steps = steps
accept_found id (some st) steps = put_step id (accept st) steps

abbrev pub accept_at : Option String → List (String × Step) → List (String × Step)
accept_at none steps = steps
accept_at (some id) steps = accept_found id (find_step id steps) steps

abbrev pub accept_current : State → State
accept_current s = record s { steps = accept_at s.current_step_id s.steps }

abbrev is_current : Option String → String → Bool
is_current none id = false
is_current (some cur) id = cur == id

-- Accept the prior step, which must be ready, and move on.
unfoldable pub advance : State → Result GovernanceError State
advance s =
    if step_hard_ok (current_step s)
    then ok (record (accept_current s) { previous_step_id = s.current_step_id })
    else thrown prior_not_ready

abbrev pub issue_after :
    String → Args → State → Result GovernanceError State → Result GovernanceError Ending × State
issue_after id args s (thrown e) = (thrown e, s)
issue_after id args s (ok s') = let (e, t) = issue_task id args.acceptance s' in (ok e, t)

abbrev pub changes_step : Option String → String → Bool
changes_step cur id = given cur && not (is_current cur id)

unfoldable pub task_for : String → Args → State → Result GovernanceError Ending × State
unfolding advance
task_for id args s =
    issue_after id args s (if changes_step s.current_step_id id then advance s else ok s)

unfoldable pub task_control : Args → State → Result GovernanceError Ending × State
task_control args s = elim args.step_id [
  | none ↦ (thrown task_needs_step, s)
  | some id ↦ if truthy id then task_for id args s else (thrown task_needs_step, s)
]

pub contains : List String → String → Bool
contains [] id = false
contains (x ∷ xs) id = x == id || contains xs id

-- The ids that a revision reopens, in the order of the items.
unfoldable pub reopened : ReviseDelta → List Item → List String
unfolding contains
reopened delta [] = []
reopened delta (i ∷ items) =
    let rest = reopened delta items in
    if contains delta.invalidate i.contract.id && not (contains delta.preserve i.contract.id)
    then i.contract.id ∷ rest
    else rest

-- The first item with the id becomes pending.
unfoldable pub mark_pending : String → List Item → List Item
mark_pending id [] = []
mark_pending id (i ∷ items) =
    if i.contract.id == id
    then record i { status = item_pending } ∷ items
    else i ∷ mark_pending id items

unfoldable pub mark_all_pending : List String → List Item → List Item
unfolding mark_pending
mark_all_pending [] items = items
mark_all_pending (id ∷ ids) items = mark_all_pending ids (mark_pending id items)

unfoldable pub drop_evidence : List String → List Evidence → List Evidence
unfolding contains
drop_evidence ids [] = []
drop_evidence ids (e ∷ es) =
    let rest = drop_evidence ids es in if contains ids e.acceptance_id then rest else e ∷ rest

abbrev pub apply_delta : Option ReviseDelta → Step → Step
apply_delta none st = st
apply_delta (some d) st =
    let ids = reopened d st.acceptance in
    record st {
      acceptance = mark_all_pending ids st.acceptance;
      evidence = drop_evidence ids st.evidence;
    }

abbrev pub ids_reopened : Option ReviseDelta → Step → List String
ids_reopened none st = []
ids_reopened (some d) st = reopened d st.acceptance

abbrev pub step_or_new : Option Step → String → Option (List RawAcceptance) → Step
step_or_new none id acceptance = new_step id acceptance
step_or_new (some st) id acceptance = st

-- The step that `REVISE` leaves: reopened, and not executed.
unfoldable pub revise_step : Option ReviseDelta → Step → Step
unfolding reopened mark_all_pending drop_evidence
revise_step delta st = record (apply_delta delta st) {
  brain_acceptance = revised;
  executor_status = "unknown";
  machine_gate = gate_pending;
}

unfoldable pub publish_control : Bool → State → Ending × State
publish_control allow s =
    if not (step_hard_ok (current_step s))
    then ((some publish_not_ready, blocked_publish_acceptance), s)
    else (if not allow then ((some publish_disabled, blocked_publish_disabled), s) else (
      (none, publication_pending),
      record (accept_current s) { publication_required = true },
    ))

unfoldable pub done_found : State → Option Step → Ending × State
done_found s none = ((some done_no_step, blocked_done), s)
done_found s (some cur) =
    if not (cur.executor_status == "success")
    then ((some done_executor, blocked_done), s)
    else (if not (is_gate_pass cur.machine_gate)
        then ((some done_gate, blocked_done), s)
        else (if s.publication_required && not (publication_ready_for_done s.publish_result)
            then ((some done_publication, blocked_done_publication), s)
            else ((none, done_next), record (accept_current s) { control = some done })))

unfoldable pub done_control : State → Ending × State
unfolding done_found
done_control s = done_found s (current_step s)
