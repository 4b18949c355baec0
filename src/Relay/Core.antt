-- ===== src/Relay/Core.antt =====
-- The parts of the calls of `RelayCore` of src/relay/core.js: the limits, the presence of a device,
-- the requests in flight at a new connection, at a revocation, at a response and at a poll.
use chatgpt_codex_orchestrat.Prelude.{
  ℕ, suc, ◌-◌, String, Bool, false, not, ◌&&◌, ◌||◌, Option, none, some, List, [], ◌∷◌, ◌++◌, map,
  if◌then◌else◌, ◌==◌, leb, ltb, nat_eq, Result, ok, thrown, ◌>>◌, guard,
}
use chatgpt_codex_orchestrat.Table.{is_in, lookup, store, remove}
use chatgpt_codex_orchestrat.Relay.{
  RelayError, device_revoked, stale_connection_epoch, device_runtime_changed, poll_replaced,
  device_dispatch_limit, account_dispatch_limit, request_not_pending, request_fence_mismatch,
  relay_restarted, device_failure, Item, Session, Envelope, Outcome, resolved, rejected, delivered,
  nothing, Relay, reject_pending, settle, cancel_poll, with_item, queue_request,
}
use chatgpt_codex_orchestrat.Relay.Store.{Device, Db, is_null, is_time}

pub record Config : Type 0 where
  pub presence_window : ℕ
  pub supported_versions : List String
  pub device_limit : ℕ
  pub account_limit : ℕ

-- `normalizePendingLimit`, of a number that is an integer and not negative.
unfoldable pub normalize_pending_limit : ℕ → Option ℕ
normalize_pending_limit n = if ltb n 1 || ltb 1024 n then none else some n

pub record World : Type 0 where
  pub db : Db
  pub relay : Relay

-- The credentials that an agent presents with a call.
pub record Agent : Type 0 where
  pub device_id : String
  pub credential : String
  pub runtime_id : String
  pub connection_epoch : ℕ

-- What a connection or a poll reports of the agent.
pub record Report : Type 0 where
  pub executor_ready : Bool
  pub protocol_version : String
  pub agent_version : Option String

-- A number of milliseconds among the arguments.
pub data Millis : Type 0 where
  millis : ℕ → Millis
  negative : ℕ → Millis
  not_a_number : Millis

abbrev pub min : ℕ → ℕ → ℕ
min a b = if leb a b then a else b

-- `Math.max(1, Math.min(Number(deadlineMs) || 30_000, 120_000))`
unfoldable pub deadline_after : Millis → ℕ
deadline_after (millis n) = if nat_eq n 0 then 30000 else min n 120000
deadline_after (negative n) = if nat_eq n 0 then 30000 else 1
deadline_after not_a_number = 30000

-- `Math.max(0, Math.min(Number(holdMs) || 0, 25_000))`
unfoldable pub hold_time : Millis → ℕ
hold_time (millis n) = min n 25000
hold_time _ = 0

-- Of `summary`, what the calls test.
pub record Summary : Type 0 where
  pub revoked : Bool
  pub online : Bool
  pub ready : Bool

abbrev pub is_recent : ℕ → Option ℕ → ℕ → Bool
is_recent window none now = false
is_recent window (some seen) now = leb (now - seen) window

abbrev pub text_of : Option String → String
text_of none = ""
text_of (some s) = s

unfoldable pub summary : Config → ℕ → String → Device → Relay → Summary
summary config now id row r =
    let online =
      not (is_time row.revoked_at)
      && (not (is_null (lookup id r.sessions))
          && is_recent config.presence_window row.last_seen_at now) in
    record {
      revoked = is_time row.revoked_at;
      online = online;
      ready =
          online
          && (row.executor_ready && is_in (text_of row.protocol_version) config.supported_versions);
    }

-- `#pendingCount`
unfoldable pub pending_count : (Item → Bool) → List (String × Item) → ℕ
pending_count test [] = 0
pending_count test ((id, item) ∷ items) =
    let rest = pending_count test items in if test item then suc rest else rest

abbrev pub of_device : String → Item → Bool
of_device device item = item.device_id == device

abbrev pub of_account : String → Item → Bool
of_account account item = item.account_id == account

-- `#admitDispatch`
unfoldable pub admit_dispatch : Config → String → String → Relay → Result RelayError (Unit {0})
unfolding pending_count
admit_dispatch config account device r =
    guard (not (leb config.device_limit (pending_count (of_device device) r.pending)))
      device_dispatch_limit
    >> guard (not (leb config.account_limit (pending_count (of_account account) r.pending)))
        account_dispatch_limit

-- One item of the loop of `connectAgent`.
unfoldable pub reconnect_found : String → Session → ℕ → String → Option Item → Relay → Relay
unfolding reject_pending queue_request
reconnect_found device session now id none r = r
reconnect_found device session now id (some item) r =
    if not (item.device_id == device)
    then r
    else (if not (item.runtime_id == session.runtime_id)
        then reject_pending id device_runtime_changed r
        else queue_request id now
            (with_item id (record item { connection_epoch = session.connection_epoch }) r))

unfoldable pub reconnect_each : String → Session → ℕ → List String → Relay → Relay
unfolding reconnect_found
reconnect_each device session now [] r = r
reconnect_each device session now (id ∷ ids) r =
    reconnect_each device session now ids
      (reconnect_found device session now id (lookup id r.pending) r)

abbrev pub keys {ℓ} : {A : Type ℓ} → List (String × A) → List String
keys xs = map (λ x. x.0) xs

-- The requests in flight, once the database has opened the session.
unfoldable pub connect_session : String → Session → ℕ → Relay → Relay
unfolding cancel_poll reconnect_each
connect_session device session now r =
    let r' =
      cancel_poll device stale_connection_epoch
        (record r { sessions = store device session r.sessions }) in
    reconnect_each device session now (keys r'.pending) r'

-- The loop of `#fenceDevice`.
unfoldable pub reject_of_device : String → RelayError → List (String × Item) → Relay → Relay
unfolding reject_pending
reject_of_device device why [] r = r
reject_of_device device why ((id, item) ∷ items) r =
    reject_of_device device why items
      (if item.device_id == device then reject_pending id why r else r)

-- `#fenceDevice`
unfoldable pub fence_device : String → RelayError → Relay → Relay
unfolding cancel_poll reject_of_device
fence_device device why r =
    let r' = cancel_poll device why (record r { sessions = remove device r.sessions }) in
    reject_of_device device why r'.pending (record r' { queues = remove device r'.queues })

unfoldable pub fence_each : List String → Relay → Relay
unfolding fence_device
fence_each [] r = r
fence_each (id ∷ ids) r = fence_each ids (fence_device id device_revoked r)

unfoldable pub cancel_each : List String → Relay → Relay
unfolding cancel_poll
cancel_each [] r = r
cancel_each (id ∷ ids) r = cancel_each ids (cancel_poll id relay_restarted r)

unfoldable pub reject_each : List String → Relay → Relay
unfolding reject_pending
reject_each [] r = r
reject_each (id ∷ ids) r = reject_each ids (reject_pending id relay_restarted r)

-- `close`
unfoldable pub close : Relay → Relay
unfolding cancel_each reject_each
close r =
    let r' = cancel_each (keys r.waiters) r in
    record (reject_each (keys r'.pending) r') { sessions = []; queues = [] }

-- The body of a response: an object with a Boolean `ok`, or anything else.
pub data Response : Type 0 where
  succeeded : String → Response
  failed : Option String → Response
  bare : String → Response

abbrev pub outcome_of : Response → Outcome
outcome_of (succeeded value) = resolved value
outcome_of (failed none) = rejected (device_failure "LOCAL_EXECUTION_FAILED")
outcome_of (failed (some code)) = rejected (device_failure code)
outcome_of (bare value) = resolved value

-- The response comes from the device, the runtime and the connection that the request is for.
abbrev pub is_fenced : Agent → Item → Bool
is_fenced agent item =
    item.device_id == agent.device_id
    && (item.runtime_id == agent.runtime_id && nat_eq item.connection_epoch agent.connection_epoch)

unfoldable pub respond_found :
    Agent → String → Response → Option Item → Relay → Result RelayError Relay
respond_found agent id response none r = thrown request_not_pending
respond_found agent id response (some item) r =
    guard (is_fenced agent item) request_fence_mismatch >> ok (settle id (outcome_of response) r)

-- A poll that nothing could be given: the one that waits is replaced.
abbrev pub hold_poll : Agent → ℕ → Relay → Relay
hold_poll agent hold r =
    if nat_eq hold 0
    then record r {
      polled = r.polled ++ (r.next_token, nothing) ∷ [];
      next_token = suc r.next_token;
    }
    else (let r' = cancel_poll agent.device_id poll_replaced r in
        record r' {
          waiters =
              store agent.device_id
                (record {
                  token = r.next_token;
                  epoch = agent.connection_epoch;
                  runtime_id = agent.runtime_id;
                })
                r'.waiters;
          next_token = suc r.next_token;
        })

abbrev pub poll_answered : Agent → ℕ → Option Envelope × Relay → Relay
poll_answered agent hold (none, r) = hold_poll agent hold r
poll_answered agent hold (some e, r) = record r {
  polled = r.polled ++ (r.next_token, delivered e) ∷ [];
  next_token = suc r.next_token;
}
