-- ===== src/Relay/Calls.antt =====
-- The calls of `RelayCore` of src/relay/core.js on the database and on the requests in flight. A call
-- runs to its first wait without interruption, and the clock stands during it. What a call waits for
-- is settled later, by another event. Accounts are those of the bearer, as accountForBearer found them.
use chatgpt_codex_orchestrat.Prelude.{
  ℕ, ◌+◌, String, Bool, false, not, ◌&&◌, Option, none, some, List, [], ◌∷◌, if◌then◌else◌, truthy,
  ◌==◌, nat_eq, Result, ok, thrown, ◌>>=◌, ◌>>◌, guard,
}
use chatgpt_codex_orchestrat.Table.{lookup}
use chatgpt_codex_orchestrat.Relay.{
  RelayError, device_not_found, device_revoked, device_offline, device_not_ready,
  invalid_runtime_id, stale_connection_epoch, device_runtime_changed, request_deadline_exceeded,
  Item, Session, Waiter, nothing, Relay, reject_pending, answer_poll, with_item, dequeue_envelope,
  queue_request,
}
use chatgpt_codex_orchestrat.Relay.Store.{
  Device, is_text, is_set, authenticate_device, open_session, touch_session, device_for_account,
  invalidate_device_affinities, revoke_device, revoke_all,
}
use chatgpt_codex_orchestrat.Relay.Core.{
  Config, World, Agent, Report, Millis, deadline_after, hold_time, Summary, summary, admit_dispatch,
  connect_session, fence_device, fence_each, close, Response, respond_found, poll_answered,
}

unfoldable pub new_item :
    (account device : String) → Session → (deadline : ℕ) (payload : String) → Item
new_item account device session deadline payload = record {
  account_id = account;
  device_id = device;
  connection_epoch = session.connection_epoch;
  runtime_id = session.runtime_id;
  deadline = deadline;
  payload = payload;
  queued = false;
}

unfoldable pub dispatch_item : (id : String) → (now : ℕ) → Item → Relay → Relay
unfolding queue_request
dispatch_item id now item r = queue_request id now (with_item id item r)

unfoldable pub dispatch_session :
    Config
    → (account device id : String) (payload : String) → Millis
    → ℕ
    → Option Session
    → Relay
    → Result RelayError Relay
unfolding admit_dispatch new_item dispatch_item deadline_after
dispatch_session config account device id payload limit now none r = thrown device_offline
dispatch_session config account device id payload limit now (some session) r =
    admit_dispatch config account device r
    >> ok (
        dispatch_item id now (new_item account device session (now + deadline_after limit) payload)
          r)

abbrev pub check_ready : Summary → Result RelayError (Unit {0})
check_ready s =
    guard (not s.revoked) device_revoked
    >> (guard s.online device_offline >> guard s.ready device_not_ready)

unfoldable pub dispatch_found :
    Config
    → (account device id : String) (payload : String) → Millis
    → ℕ
    → Option Device
    → World
    → Result RelayError World
unfolding dispatch_session summary
dispatch_found config account device id payload limit now none w = thrown device_not_found
dispatch_found config account device id payload limit now (some row) w =
    check_ready (summary config now device row w.relay)
    >> (dispatch_session config account device id payload limit now (lookup device w.relay.sessions)
          w.relay
        >>= λ r. ok (record w { relay = r }))

-- `dispatchForAccount`, with the fresh id of the request.
unfoldable pub dispatch_for_account :
    Config
    → (account device id : String) (payload : String) → Millis
    → ℕ
    → World
    → Result RelayError World
unfolding dispatch_found device_for_account
dispatch_for_account config account device id payload limit now w =
    dispatch_found config account device id payload limit now
      (device_for_account account device w.db) w

-- The connection of `#validateAgent`.
abbrev pub check_session : Agent → Option Session → Result RelayError (Unit {0})
check_session agent none = thrown device_offline
check_session agent (some s) =
    guard (s.runtime_id == agent.runtime_id) device_runtime_changed
    >> guard (nat_eq s.connection_epoch agent.connection_epoch) stale_connection_epoch

-- The account's calls that revoke devices.
unfoldable pub revoke_one : (account device : String) → ℕ → World → Result RelayError World
unfolding revoke_device fence_device
revoke_one account device now w = revoke_device account device now w.db >>= λ db.
    ok (record { db = db; relay = fence_device device device_revoked w.relay })

unfoldable pub revoke_every : (account : String) → ℕ → World → World
unfolding revoke_all fence_each
revoke_every account now w =
    let out = revoke_all account now w.db in record { db = out.1; relay = fence_each out.0 w.relay }

abbrev pub timer_found : String → ℕ → Option Waiter → Relay → Relay
timer_found device token none r = r
timer_found device token (some w) r =
    if nat_eq w.token token then answer_poll device token nothing r else r

-- The timer of a poll that waits; that of one that was answered is cleared.
unfoldable pub poll_timer : String → ℕ → Relay → Relay
poll_timer device token r = timer_found device token (lookup device r.waiters) r

-- Another runtime than that of the last connection.
abbrev pub runtime_changed : Device → String → Bool
runtime_changed row runtime =
    is_set row.last_runtime_id && not (is_text row.last_runtime_id runtime)

-- One event: a call with the time of the clock, or a timer.
pub data Event : Type 0 where
  connects : Agent → Report → ℕ → Event
  polls : Agent → Report → Millis → ℕ → Event
  dispatches : (account device id payload : String) → Millis → ℕ → Event
  responds : Agent → String → Response → Event
  revokes : (account device : String) → ℕ → Event
  revokes_all : (account : String) → ℕ → Event
  deadline_passes : String → Event
  poll_times_out : String → ℕ → Event
  closes : Event

abbrev pub or_same : World → Result RelayError World → World
or_same w (ok w') = w'
or_same w (thrown why) = w

module _ (sha256 : String → String) where
  -- `#validateAgent`
  unfoldable pub validate_agent : Agent → World → Result RelayError (Unit {0})
  unfolding authenticate_device
  validate_agent agent w =
      authenticate_device sha256 agent.device_id agent.credential w.db >>= λ row.
      check_session agent (lookup agent.device_id w.relay.sessions)

  -- `connectAgent`, where the agent's epoch is not read.
  unfoldable pub connect_agent : Agent → Report → ℕ → World → Result RelayError World
  unfolding authenticate_device open_session connect_session invalidate_device_affinities
  connect_agent agent report now w =
      authenticate_device sha256 agent.device_id agent.credential w.db >>= λ before.
      guard (truthy agent.runtime_id) invalid_runtime_id
      >> (open_session agent.device_id agent.runtime_id report.executor_ready
            report.protocol_version report.agent_version now w.db
          >>= λ opened. ok (record {
            db =
                if runtime_changed before agent.runtime_id
                then invalidate_device_affinities agent.device_id now opened.1
                else opened.1;
            relay =
                connect_session agent.device_id
                  (record {
                    runtime_id = agent.runtime_id;
                    connection_epoch = opened.0.connection_epoch;
                  })
                  now w.relay;
          }))

  -- `pollAgent` to its answer or its wait.
  unfoldable pub poll_agent : Agent → Report → Millis → ℕ → World → Result RelayError World
  unfolding validate_agent touch_session dequeue_envelope hold_time
  poll_agent agent report hold now w =
      validate_agent agent w
      >> (touch_session agent.device_id agent.runtime_id agent.connection_epoch
            report.executor_ready report.protocol_version report.agent_version now w.db
          >>= λ db. ok (record {
            db = db;
            relay = poll_answered agent (hold_time hold) (
                dequeue_envelope agent.device_id agent.connection_epoch agent.runtime_id now
                  w.relay);
          }))

  -- `respondAgent`
  unfoldable pub respond_agent : Agent → String → Response → World → Result RelayError World
  unfolding validate_agent respond_found
  respond_agent agent id response w =
      validate_agent agent w
      >> (respond_found agent id response (lookup id w.relay.pending) w.relay >>= λ r.
          ok (record w { relay = r }))

  module _ (config : Config) where
    unfoldable pub event_result : World → Event → Result RelayError World
    unfolding connect_agent poll_agent dispatch_for_account respond_agent revoke_one revoke_every
        reject_pending poll_timer close
    event_result w (connects agent report now) = connect_agent agent report now w
    event_result w (polls agent report hold now) = poll_agent agent report hold now w
    event_result w (dispatches account device id payload limit now) =
        dispatch_for_account config account device id payload limit now w
    event_result w (responds agent id response) = respond_agent agent id response w
    event_result w (revokes account device now) = revoke_one account device now w
    event_result w (revokes_all account now) = ok (revoke_every account now w)
    event_result w (deadline_passes id) =
        ok (record w { relay = reject_pending id request_deadline_exceeded w.relay })
    event_result w (poll_times_out device token) =
        ok (record w { relay = poll_timer device token w.relay })
    event_result w closes = ok (record w { relay = close w.relay })

    -- A call that throws changes nothing.
    unfoldable pub step : World → Event → World
    unfolding event_result
    step w e = or_same w (event_result w e)

    unfoldable pub run : World → List Event → World
    unfolding step
    run w [] = w
    run w (e ∷ es) = run (step w e) es
