-- ===== src/Governance/Handoff.antt =====
-- The handoff blob of src/state/handoff.js, and the two ways in which the Governance service builds
-- it. A field that is left out of the blob is `none`, or an empty list.
use chatgpt_codex_orchestrat.Prelude.{
  String, Bool, Option, none, some, List, [], map, if◌then◌else◌, truthy,
}
use chatgpt_codex_orchestrat.Evidence.{Status, Evidence}
use chatgpt_codex_orchestrat.Governance.State.{
  Control, MachineGate, gate_pending, BrainAcceptance, pending, NextAction, Item, Step, State,
  current_step,
}

pub record EvidenceSummary : Type 0 where
  pub acceptance_id : String
  pub status : Status
  pub kind : String
  pub summary : Option String

pub record Handoff : Type 0 where
  pub machine_gate : MachineGate
  pub brain_acceptance : BrainAcceptance
  pub task_id : Option String
  pub step_id : Option String
  pub control : Option Control
  pub route : Option String
  pub local_route : Option String
  pub acceptance : List (String × Bool)
  pub evidence_summary : List EvidenceSummary
  pub changed : List String
  pub next_action : Option NextAction

-- `if (x) handoff.x = x`
abbrev pub drop_empty : Option String → Option String
drop_empty none = none
drop_empty (some s) = if truthy s then some s else none

-- `buildHandoff`. The two gates come from the service, whose values are those that it accepts.
unfoldable pub build_handoff : Handoff → Handoff
build_handoff h = record h {
  task_id = drop_empty h.task_id;
  step_id = drop_empty h.step_id;
  route = drop_empty h.route;
  local_route = drop_empty h.local_route;
}

abbrev pub item_view : Item → String × Bool
item_view i = (i.contract.id, i.contract.required)

abbrev pub evidence_view : Evidence → EvidenceSummary
evidence_view e = record {
  acceptance_id = e.acceptance_id;
  status = e.status;
  kind = e.kind;
  summary = drop_empty (some e.summary);
}

abbrev pub items_in : Option Step → List Item
items_in none = []
items_in (some st) = st.acceptance

abbrev pub evidence_in : Option Step → List Evidence
evidence_in none = []
evidence_in (some st) = st.evidence

abbrev pub changed_in : Option Step → List String
changed_in none = []
changed_in (some st) = st.changed

abbrev pub gate_in : Option Step → MachineGate
gate_in none = gate_pending
gate_in (some st) = st.machine_gate

abbrev pub brain_in : Option Step → BrainAcceptance
brain_in none = pending
brain_in (some st) = st.brain_acceptance

abbrev or_control : Option Control → Control → Control
or_control none c = c
or_control (some d) c = d

-- `_buildHandoff`; a blocked control has no next action.
unfoldable pub control_handoff : State → Control → Option NextAction → Handoff
unfolding build_handoff
control_handoff s control next =
    let cur = current_step s in
    build_handoff (record {
      machine_gate = gate_in cur;
      brain_acceptance = brain_in cur;
      task_id = s.task_id;
      step_id = s.current_step_id;
      control = some (or_control s.control control);
      route = s.route;
      local_route = s.local_route;
      acceptance = map item_view (items_in cur);
      evidence_summary = map evidence_view (evidence_in cur);
      changed = changed_in cur;
      next_action = next;
    })

-- `_buildResultHandoff`
unfoldable pub result_handoff : State → Step → Handoff
unfolding build_handoff
result_handoff s st = build_handoff (record {
  machine_gate = st.machine_gate;
  brain_acceptance = st.brain_acceptance;
  task_id = s.task_id;
  step_id = some st.step_id;
  control = s.control;
  route = s.route;
  local_route = s.local_route;
  acceptance = map item_view st.acceptance;
  evidence_summary = map evidence_view st.evidence;
  changed = st.changed;
  next_action = none;
})
