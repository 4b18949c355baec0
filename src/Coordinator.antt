-- ===== src/Coordinator.antt =====
-- The Direct run coordinator: `createDirectRunCoordinator` of src/protocol-integrity.js. `hash` is
-- computePayloadHash, which sorts by the locale and hashes with node:crypto. Writing the run ledger to
-- disk is left out: its failures are ignored by the code. Ids are not names that Object.prototype has.
pub mod State
pub mod Once
pub mod Calls
pub mod Accept
mod Examples
use chatgpt_codex_orchestrat.Prelude.{
  ℕ, zero, suc, String, Bool, true, false, not, ◌&&◌, ◌||◌, Option, none, some, List, [], ◌∷◌, ◌++◌,
  if◌then◌else◌, truthy, ◌==◌, leb, nat_eq,
}
use chatgpt_codex_orchestrat.Table.{is_in, lookup, store}
use chatgpt_codex_orchestrat.Governance.State.{Control, task, revise, given}
use chatgpt_codex_orchestrat.Coordinator.State.{
  Envelope, Metrics, Rejected, Reply, Run, RunResult, Sequence, accepted, already_processed,
  duplicate, duplicate_differs, hash_mismatch, invalid_envelope, natural, negative, new_run,
  no_metrics, not_integer, not_outstanding, other_outstanding, payload_hash_required, recorded,
  rejected, result_id_required, retransmitted, run_mismatch, sequence_mismatch, stale_sequence,
  unknown_ack,
}

abbrev is_integer : Sequence → Bool
is_integer not_integer = false
is_integer _ = true

abbrev known_control : Option Control → Bool
known_control none = false
known_control (some c) = true

abbrev needs_instruction : Option Control → Bool
needs_instruction (some task) = true
needs_instruction (some revise) = true
needs_instruction _ = false

-- `validateStructuredEnvelope(env).ok`
unfoldable pub is_valid_envelope : Envelope → Bool
is_valid_envelope env =
    given env.run_id
    && (given env.control_id
        && (is_integer env.sequence
            && (known_control env.control
                && (given env.step_id
                    && not (needs_instruction env.control && not (given env.instruction))))))

abbrev pub stale : Rejected → Run → Reply × Run
stale why st = (
  rejected why,
  record st {
    metrics = record st.metrics { stale_control_rejected = suc st.metrics.stale_control_rejected };
  },
)

abbrev pub broken : Rejected → Run → Reply × Run
broken why st = (
  rejected why,
  record st {
    metrics = record st.metrics {
      protocol_integrity_failure = suc st.metrics.protocol_integrity_failure;
    };
  },
)

abbrev pub same : Option String → Option String → Bool
same none none = true
same (some x) (some y) = x == y
same _ _ = false

-- `st.runId && id !== st.runId`
abbrev pub other_run : Option String → Option String → Bool
other_run mine theirs = given mine && not (same theirs mine)

-- `st.outstandingControlId && st.outstandingControlId !== id`
abbrev pub other_open : Option String → String → Bool
other_open current id = given current && not (same current (some id))

abbrev pub acknowledge : String → Run → Run
acknowledge id st = record st {
  acknowledged_results =
      if is_in id st.acknowledged_results
      then st.acknowledged_results
      else st.acknowledged_results ++ id ∷ [];
  last_acknowledged_result = some id;
}

abbrev pub take_control : String → ℕ → Run → Reply × Run
take_control id n st = (
  accepted n,
  record st {
    last_accepted_control = some id;
    last_accepted_sequence = n;
    outstanding = some id;
    processed_controls = st.processed_controls ++ id ∷ [];
    controls = store id n st.controls;
  },
)

-- The acknowledgement that rides on a control.
abbrev pub ack_found : String → ℕ → String → Run → Option RunResult → Reply × Run
ack_found id n ack st none = stale unknown_ack st
ack_found id n ack st (some r) = take_control id n (acknowledge ack st)

unfoldable pub take_acked : String → ℕ → Option String → Run → Reply × Run
unfolding is_in lookup store
take_acked id n none st = take_control id n st
take_acked id n (some ack) st =
    if truthy ack then ack_found id n ack st (lookup ack st.results) else take_control id n st

unfoldable pub take_new : String → ℕ → Option String → Run → Reply × Run
unfolding take_acked
take_new id n ack st =
    if leb n st.last_accepted_sequence
    then stale stale_sequence st
    else (if other_open st.outstanding id
        then stale other_outstanding st
        else (if is_in id st.processed_controls
            then stale already_processed st
            else take_acked id n ack st))

-- A valid envelope has a control id, and a sequence number that is an integer.
unfoldable pub take_valid : Option String → Sequence → Option String → Run → Reply × Run
unfolding take_new
take_valid none n ack st = (rejected invalid_envelope, st)
take_valid (some id) not_integer ack st = (rejected invalid_envelope, st)
take_valid (some id) (negative n) ack st = stale stale_sequence st
take_valid (some id) (natural n) ack st = take_new id n ack st

unfoldable pub accept_control : Envelope → Run → Reply × Run
unfolding is_valid_envelope take_valid
accept_control env st =
    if not (is_valid_envelope env)
    then (rejected invalid_envelope, st)
    else (if other_run st.run_id env.run_id
        then (rejected run_mismatch, st)
        else take_valid env.control_id env.sequence env.ack_result_id st)

abbrev pub duplicate_of : RunResult → Run → Option RunResult → Reply × Run
duplicate_of r st (some prior) =
    if not (same prior.payload_hash r.payload_hash) || not (same prior.in_reply_to r.in_reply_to)
    then broken duplicate_differs st
    else (
      duplicate,
      record st {
        metrics = record st.metrics { duplicate_result = suc st.metrics.duplicate_result };
      },
    )
duplicate_of r st none = (
  duplicate,
  record st { metrics = record st.metrics { duplicate_result = suc st.metrics.duplicate_result } },
)

abbrev pub same_sequence : ℕ → Sequence → Bool
same_sequence n (natural m) = nat_eq n m
same_sequence n _ = false

abbrev pub keep_result : String → RunResult → Run → Reply × Run
keep_result id r st = (
  recorded,
  record st {
    processed_results = st.processed_results ++ id ∷ [];
    results = store id r st.results;
    last_sent_result = some id;
    outstanding = none;
  },
)

abbrev pub reply_found : String → RunResult → Run → Option ℕ → Reply × Run
reply_found id r st none = stale sequence_mismatch st
reply_found id r st (some n) =
    if same_sequence n r.sequence then keep_result id r st else stale sequence_mismatch st

abbrev pub control_at : Option String → List (String × ℕ) → Option ℕ
control_at none controls = none
control_at (some c) controls = lookup c controls

pub data RunCall : Type 0 where
  control_of : Envelope → RunCall
  reply_of : RunResult → RunCall
  retransmit_of : RunResult → RunCall

-- The same result id and payload hash again.
unfoldable pub retransmit : RunResult → Run → Reply × Run
retransmit r st = (
  retransmitted r.result_id r.payload_hash,
  record st {
    metrics = record st.metrics { result_retransmit = suc st.metrics.result_retransmit };
  },
)

module _ (hash : RunResult → String) where
  -- A result that is not a duplicate, with its id.
  unfoldable pub new_result : String → RunResult → Run → Reply × Run
  unfolding lookup store
  new_result id r st =
      if not (given r.payload_hash)
      then (rejected payload_hash_required, st)
      else (if not (same (some (hash r)) r.payload_hash)
          then broken hash_mismatch st
          else (if not (same r.in_reply_to st.outstanding)
              then stale not_outstanding st
              else reply_found id r st (control_at r.in_reply_to st.controls)))

  unfoldable pub result_of : Option String → RunResult → Run → Reply × Run
  unfolding new_result is_in
  result_of none r st =
      if other_run st.run_id r.run_id
      then (rejected run_mismatch, st)
      else (rejected result_id_required, st)
  result_of (some id) r st =
      if is_in id st.processed_results
      then duplicate_of r st (lookup id st.results)
      else (if other_run st.run_id r.run_id
          then (rejected run_mismatch, st)
          else (if truthy id then new_result id r st else (rejected result_id_required, st)))

  unfoldable pub record_run_result : RunResult → Run → Reply × Run
  unfolding result_of
  record_run_result r st = result_of r.result_id r st

  unfoldable pub run_call : Run → RunCall → Reply × Run
  unfolding accept_control record_run_result retransmit
  run_call st (control_of env) = accept_control env st
  run_call st (reply_of r) = record_run_result r st
  run_call st (retransmit_of r) = retransmit r st
