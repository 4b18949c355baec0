-- ===== src/Relay.antt =====
-- The relay between accounts and their devices: the requests in flight of `RelayCore` of
-- src/relay/core.js, that is its sessions, pending requests, queues and waiting polls. A promise that
-- is settled is an entry of `settled` or of `polled`; a payload and a reply are opaque texts.
pub mod Store
pub mod Core
pub mod Calls
pub mod Frame
pub mod Sweeps
pub mod Events
pub mod Bounds
pub mod Once
pub mod Rows
pub mod Later
pub mod Fence
pub mod Revoked
pub mod Codes
pub mod Completed
pub mod Paired
pub mod Credential
pub mod Delivered
mod Examples
pub mod Pairing
use chatgpt_codex_orchestrat.Prelude.{
  ℕ, zero, suc, String, Bool, true, false, not, ◌&&◌, ◌||◌, Option, none, some, List, [], ◌∷◌, ◌++◌,
  if◌then◌else◌, ◌==◌, leb, nat_eq,
}
use chatgpt_codex_orchestrat.Table.{lookup, store, remove}

pub data RelayError : Type 0 where
  device_not_found device_revoked device_offline device_not_ready : RelayError
  invalid_device_credential invalid_runtime_id : RelayError
  stale_connection_epoch device_runtime_changed poll_replaced : RelayError
  device_dispatch_limit account_dispatch_limit : RelayError
  request_not_pending request_fence_mismatch request_deadline_exceeded relay_restarted : RelayError
  pairing_code_invalid pairing_already_consumed pairing_expired : RelayError
  pairing_already_approved authorization_pending constraint_failed : RelayError
  device_failure : String → RelayError

-- A request that waits for its response. Its timer is an event.
pub record Item : Type 0 where
  pub account_id : String
  pub device_id : String
  pub connection_epoch : ℕ
  pub runtime_id : String
  pub deadline : ℕ
  pub payload : String
  pub queued : Bool

pub record Session : Type 0 where
  pub runtime_id : String
  pub connection_epoch : ℕ

pub record Waiter : Type 0 where
  pub token : ℕ
  pub epoch : ℕ
  pub runtime_id : String

-- What the agent of a device receives.
pub record Envelope : Type 0 where
  pub request_id : String
  pub device_id : String
  pub connection_epoch : ℕ
  pub runtime_id : String
  pub deadline : ℕ
  pub payload : String

pub data Outcome : Type 0 where
  resolved : String → Outcome
  rejected : RelayError → Outcome

pub data PollOutcome : Type 0 where
  delivered : Envelope → PollOutcome
  nothing : PollOutcome
  poll_failed : RelayError → PollOutcome

pub record Relay : Type 0 where
  pub sessions : List (String × Session)
  pub pending : List (String × Item)
  pub queues : List (String × List String)
  pub waiters : List (String × Waiter)
  pub next_token : ℕ
  pub settled : List (String × Outcome)
  pub polled : List (ℕ × PollOutcome)

abbrev pub no_requests : Relay
no_requests = record {
  sessions = [];
  pending = [];
  queues = [];
  waiters = [];
  next_token = 0;
  settled = [];
  polled = [];
}

abbrev pub queue_of : String → Relay → List String
queue_of device r = elim (lookup device r.queues) [ none ↦ [] | some ids ↦ ids ]

abbrev pub is_nil {ℓ} : {A : Type ℓ} → List A → Bool
is_nil [] = true
is_nil (x ∷ xs) = false

-- `queue.splice(queue.indexOf(id), 1)`
unfoldable pub splice_first : String → List String → List String
splice_first id [] = []
splice_first id (x ∷ xs) = if x == id then xs else x ∷ splice_first id xs

-- The queue of a device after a splice: an empty one is deleted.
abbrev pub put_queue : String → List String → Relay → Relay
put_queue device ids r = record r {
  queues = if is_nil ids then remove device r.queues else store device ids r.queues;
}

abbrev pub splice_found : String → String → Option (List String) → Relay → Relay
splice_found id device none r = r
splice_found id device (some ids) r = put_queue device (splice_first id ids) r

abbrev pub spliced : String → Item → Relay → Relay
spliced id item r = splice_found id item.device_id (lookup item.device_id r.queues) r

abbrev pub settle : String → Outcome → Relay → Relay
settle id out r = record r { pending = remove id r.pending; settled = r.settled ++ (id, out) ∷ [] }

-- `#rejectPending`
unfoldable pub reject_found : String → RelayError → Option Item → Relay → Relay
unfolding splice_first
reject_found id why none r = r
reject_found id why (some item) r =
    settle id (rejected why) (if item.queued then spliced id item r else r)

unfoldable pub reject_pending : String → RelayError → Relay → Relay
unfolding reject_found
reject_pending id why r = reject_found id why (lookup id r.pending) r

-- A waiting poll is answered: its timer is cleared and it no longer waits.
abbrev pub answer_poll : String → ℕ → PollOutcome → Relay → Relay
answer_poll device token out r = record r {
  waiters = remove device r.waiters;
  polled = r.polled ++ (token, out) ∷ [];
}

abbrev pub cancel_found : String → RelayError → Option Waiter → Relay → Relay
cancel_found device why none r = r
cancel_found device why (some w) r = answer_poll device w.token (poll_failed why) r

-- `#cancelPoll`
unfoldable pub cancel_poll : String → RelayError → Relay → Relay
cancel_poll device why r = cancel_found device why (lookup device r.waiters) r

abbrev pub with_item : String → Item → Relay → Relay
with_item id item r = record r { pending = store id item r.pending }

abbrev pub envelope_of : String → Item → Envelope
envelope_of id item = record {
  request_id = id;
  device_id = item.device_id;
  connection_epoch = item.connection_epoch;
  runtime_id = item.runtime_id;
  deadline = item.deadline;
  payload = item.payload;
}

-- One round of the loop of `#dequeueEnvelope`, for the id at the head of the queue.
unfoldable pub take_item :
    (epoch : ℕ) (runtime : String) (now : ℕ) → String → Item → Relay → Option Envelope × Relay
unfolding reject_pending
take_item epoch runtime now id item r =
    let unqueued = record item { queued = false } in
    let r' = with_item id unqueued r in
    if not (item.runtime_id == runtime) || not (nat_eq item.connection_epoch epoch)
    then (none, r')
    else (if leb item.deadline now
        then (none, reject_pending id request_deadline_exceeded r')
        else (some (envelope_of id unqueued), r'))

unfoldable pub take_found :
    (epoch : ℕ) (runtime : String) (now : ℕ)
    → String
    → Option Item
    → Relay
    → Option Envelope × Relay
unfolding take_item
take_found epoch runtime now id none r = (none, r)
take_found epoch runtime now id (some item) r = take_item epoch runtime now id item r

unfoldable pub take_head :
    (epoch : ℕ) (runtime : String) (now : ℕ) → String → Relay → Option Envelope × Relay
unfolding take_found
take_head epoch runtime now id r = take_found epoch runtime now id (lookup id r.pending) r

-- The loop goes on where a round found no request to hand out.
abbrev pub or_go_on :
    Option Envelope × Relay → (Relay → Option Envelope × Relay) → Option Envelope × Relay
or_go_on (none, r) rest = rest r
or_go_on (some e, r) rest = (some e, r)

-- `#dequeueEnvelope`: the loop over the ids of the queue, which ends with the queue.
unfoldable pub dequeue :
    String
    → (epoch : ℕ) (runtime : String) (now : ℕ) → List String
    → Relay
    → Option Envelope × Relay
unfolding take_head
dequeue device epoch runtime now [] r = (none, record r { queues = remove device r.queues })
dequeue device epoch runtime now (id ∷ ids) r =
    or_go_on (take_head epoch runtime now id (record r { queues = store device ids r.queues }))
      (λ r'. dequeue device epoch runtime now ids r')

unfoldable pub dequeue_envelope :
    String → (epoch : ℕ) (runtime : String) (now : ℕ) → Relay → Option Envelope × Relay
unfolding dequeue
dequeue_envelope device epoch runtime now r = dequeue device epoch runtime now (queue_of device r) r

abbrev pub deliver : String → Waiter → Option Envelope × Relay → Relay
deliver device w (none, r) = r
deliver device w (some e, r) = answer_poll device w.token (delivered e) r

-- `#queueRequest`, which serves a poll that waits.
abbrev pub enqueue : String → Item → Relay → Relay
enqueue id item r = record (with_item id (record item { queued = true }) r) {
  queues = store item.device_id (queue_of item.device_id r ++ id ∷ []) r.queues;
}

unfoldable pub serve_found : String → ℕ → Option Waiter → Relay → Relay
unfolding dequeue_envelope
serve_found device now none r = r
serve_found device now (some w) r =
    deliver device w (dequeue_envelope device w.epoch w.runtime_id now r)

abbrev pub serve : String → ℕ → Relay → Relay
serve device now r = serve_found device now (lookup device r.waiters) r

unfoldable pub queue_found : String → ℕ → Option Item → Relay → Relay
unfolding serve_found
queue_found id now none r = r
queue_found id now (some item) r =
    if item.queued then r else serve item.device_id now (enqueue id item r)

unfoldable pub queue_request : String → ℕ → Relay → Relay
unfolding queue_found
queue_request id now r = queue_found id now (lookup id r.pending) r
