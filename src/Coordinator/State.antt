-- ===== src/Coordinator/State.antt =====
-- The messages, the state and the answers of the Direct run coordinator, src/protocol-integrity.js.
use chatgpt_codex_orchestrat.Prelude.{ℕ, String, Option, none, List, []}
use chatgpt_codex_orchestrat.Governance.State.{Control}

-- A sequence number, which need not be an integer.
pub data Sequence : Type 0 where
  natural : ℕ → Sequence
  negative : ℕ → Sequence
  not_integer : Sequence

-- What `acceptControl` reads of an envelope.
pub record Envelope : Type 0 where
  pub run_id : Option String
  pub control_id : Option String
  pub sequence : Sequence
  pub control : Option Control
  pub step_id : Option String
  pub instruction : Option String
  pub ack_result_id : Option String

-- What a RESULT is identified by; `payload` is the rest of what the hash covers.
pub record RunResult : Type 0 where
  pub run_id : Option String
  pub result_id : Option String
  pub in_reply_to : Option String
  pub sequence : Sequence
  pub payload_hash : Option String
  pub payload : String

pub record Metrics : Type 0 where
  pub stale_control_rejected : ℕ
  pub duplicate_result : ℕ
  pub result_retransmit : ℕ
  pub delivery_ack_timeout : ℕ
  pub protocol_integrity_failure : ℕ

-- The state of a run. A control is kept with its sequence number.
pub record Run : Type 0 where
  pub run_id : Option String
  pub last_accepted_sequence : ℕ
  pub last_accepted_control : Option String
  pub outstanding : Option String
  pub last_sent_result : Option String
  pub last_acknowledged_result : Option String
  pub processed_controls : List String
  pub processed_results : List String
  pub acknowledged_results : List String
  pub controls : List (String × ℕ)
  pub results : List (String × RunResult)
  pub metrics : Metrics

pub data Rejected : Type 0 where
  invalid_envelope run_mismatch stale_sequence other_outstanding already_processed : Rejected
  unknown_ack duplicate_differs result_id_required payload_hash_required hash_mismatch : Rejected
  not_outstanding sequence_mismatch : Rejected

pub data Reply : Type 0 where
  accepted : ℕ → Reply
  recorded : Reply
  duplicate : Reply
  retransmitted : Option String → Option String → Reply
  rejected : Rejected → Reply

abbrev pub no_metrics : Metrics
no_metrics = record {
  stale_control_rejected = 0;
  duplicate_result = 0;
  result_retransmit = 0;
  delivery_ack_timeout = 0;
  protocol_integrity_failure = 0;
}

-- The state that the coordinator starts from.
abbrev pub new_run : Option String → Run
new_run id = record {
  run_id = id;
  last_accepted_sequence = 0;
  last_accepted_control = none;
  outstanding = none;
  last_sent_result = none;
  last_acknowledged_result = none;
  processed_controls = [];
  processed_results = [];
  acknowledged_results = [];
  controls = [];
  results = [];
  metrics = no_metrics;
}
