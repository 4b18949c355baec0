-- ===== src/Governance/State.antt =====
-- The state of the Governance service, and its steps (src/governance/index.js). The steps are an
-- association list. The time stamps of the history are left out: no code reads them.
use chatgpt_codex_orchestrat.Prelude.{
  ℕ, String, Bool, true, false, ◌&&◌, Option, none, some, List, [], ◌∷◌, map, if◌then◌else◌, truthy,
  ◌==◌,
}
use chatgpt_codex_orchestrat.Evidence.{Status, Evidence}
use chatgpt_codex_orchestrat.Gate.{Acceptance, RawAcceptance, normalize_acceptance, evaluate_gate}

pub data Control : Type 0 where
  task revise ask_user done plan replan publish : Control

pub data MachineGate : Type 0 where
  gate_pending gate_pass gate_fail : MachineGate

pub data BrainAcceptance : Type 0 where
  pending accepted revised : BrainAcceptance

-- The `status` field of an acceptance item, which is undefined at first.
pub data ItemStatus : Type 0 where
  unset item_missing item_pending : ItemStatus
  shown : Status → ItemStatus

pub record Item : Type 0 where
  pub contract : Acceptance
  pub status : ItemStatus

pub record Step : Type 0 where
  pub step_id : String
  pub acceptance : List Item
  pub evidence : List Evidence
  pub executor_status : String
  pub machine_gate : MachineGate
  pub brain_acceptance : BrainAcceptance
  pub changed : List String

pub record AskUser : Type 0 where
  pub why_blocked : String
  pub minimal_user_action : String
  pub expected_fields : List String
  pub question : String
  pub resume_control_id : Option String

-- What `publicationReadyForDone` reads of a publication.
pub record Publication : Type 0 where
  pub ok : Bool
  pub external_readback : Bool

unfoldable pub publication_ready_for_done : Option Publication → Bool
publication_ready_for_done none = false
publication_ready_for_done (some p) = p.ok && p.external_readback

abbrev pub is_published : Option Publication → Bool
is_published none = false
is_published (some p) = p.ok

-- Why a control is blocked, and what comes next.
pub data Reason : Type 0 where
  task_reissue awaiting_user_decision publish_not_ready publish_disabled : Reason
  done_no_step done_executor done_gate done_publication : Reason

pub data NextAction : Type 0 where
  task_next replan_confirm execute blocked_task_reissue revise_execute awaiting_user : NextAction
  blocked_publish_acceptance blocked_publish_disabled publication_pending : NextAction
  blocked_done blocked_done_publication done_next : NextAction

pub data HistoryEntry : Type 0 where
  control_entry : Control → Option Reason → NextAction → HistoryEntry
  acceptance_revised : String → HistoryEntry
  proofs_invalidated : ℕ → List String → HistoryEntry
  proof_recorded : String → String → HistoryEntry
  publication_entry : Bool → HistoryEntry
  result_entry : String → String → MachineGate → List String → HistoryEntry

pub record State : Type 0 where
  pub task_id : Option String
  pub control : Option Control
  pub route : Option String
  pub local_route : Option String
  pub plan_revision : ℕ
  pub current_step_id : Option String
  pub previous_step_id : Option String
  pub steps : List (String × Step)
  pub awaiting_user : Bool
  pub ask_user : Option AskUser
  pub publication_required : Bool
  pub publish_result : Option Publication
  pub published : Bool
  pub history : List HistoryEntry

-- `_freshState`, which `_resetTask` restores field by field.
abbrev pub fresh_state : State
fresh_state = record {
  task_id = none;
  control = none;
  route = none;
  local_route = none;
  plan_revision = 0;
  current_step_id = none;
  previous_step_id = none;
  steps = [];
  awaiting_user = false;
  ask_user = none;
  publication_required = false;
  publish_result = none;
  published = false;
  history = [];
}

unfoldable pub find_step : String → List (String × Step) → Option Step
find_step id [] = none
find_step id ((j, st) ∷ steps) = if j == id then some st else find_step id steps

-- `this.state.steps[id] = st`
unfoldable pub put_step : String → Step → List (String × Step) → List (String × Step)
put_step id st [] = (id, st) ∷ []
put_step id st ((j, old) ∷ steps) =
    if j == id then (j, st) ∷ steps else (j, old) ∷ put_step id st steps

abbrev pub step_at : Option String → List (String × Step) → Option Step
step_at none steps = none
step_at (some id) steps = find_step id steps

-- `get currentStep()`
abbrev pub current_step : State → Option Step
current_step s = step_at s.current_step_id s.steps

abbrev pub given : Option String → Bool
given none = false
given (some t) = truthy t

abbrev keep_item : Option Acceptance → List Item → List Item
keep_item none items = items
keep_item (some a) items = record { contract = a; status = unset } ∷ items

-- `(acceptance || []).map(normalizeAcceptanceItem).filter(Boolean)`
unfoldable pub items_of : List RawAcceptance → List Item
items_of [] = []
items_of (raw ∷ raws) = keep_item (normalize_acceptance raw) (items_of raws)

abbrev pub or_none : Option (List RawAcceptance) → List RawAcceptance
or_none none = []
or_none (some raws) = raws

unfoldable pub new_step : String → Option (List RawAcceptance) → Step
unfolding items_of
new_step id acceptance = record {
  step_id = id;
  acceptance = items_of (or_none acceptance);
  evidence = [];
  executor_status = "unknown";
  machine_gate = gate_pending;
  brain_acceptance = pending;
  changed = [];
}

-- `_computeMachineGate`
unfoldable pub compute_machine_gate : Step → MachineGate
compute_machine_gate st =
    if (evaluate_gate (map (λ i. i.contract) st.acceptance) st.evidence).ok
    then gate_pass
    else gate_fail

abbrev pub is_gate_pass : MachineGate → Bool
is_gate_pass gate_pass = true
is_gate_pass _ = false

abbrev pub is_gate_pending : MachineGate → Bool
is_gate_pending gate_pending = true
is_gate_pending _ = false

-- `_stepHardOk`
unfoldable pub step_hard_ok : Option Step → Bool
step_hard_ok none = false
step_hard_ok (some st) = st.executor_status == "success" && is_gate_pass st.machine_gate

abbrev pub is_accepted : BrainAcceptance → Bool
is_accepted accepted = true
is_accepted _ = false

abbrev pub accept : Step → Step
accept st = record st { brain_acceptance = accepted }

-- The first piece of evidence for an id: `step.evidence.find(…)`.
abbrev find_evidence : String → List Evidence → Option Evidence
find_evidence id [] = none
find_evidence id (e ∷ es) = if e.acceptance_id == id then some e else find_evidence id es

abbrev synced : Option Evidence → ItemStatus → ItemStatus
synced (some e) st = shown e.status
synced none unset = item_missing
synced none st = st

abbrev pub sync_item : List Evidence → Item → Item
sync_item es i = record i { status = synced (find_evidence i.contract.id es) i.status }

-- `_syncAcceptanceStatus`
unfoldable pub sync_acceptance_status : Step → Step
sync_acceptance_status st = record st { acceptance = map (sync_item st.evidence) st.acceptance }
