-- ===== src/Relay/Later.antt =====
-- No event of the relay undoes what the rows of the devices say (src/relay/core.js).
use mathlib.Core.Path.{subst}
use chatgpt_codex_orchestrat.Prelude.{
  ℕ, String, ◌≡◌, refl, Bool, true, false, Option, none, some, List, if◌then◌else◌, truthy, Result,
  ok, thrown, bind_returned, guard_passed, ok-injective,
}
use chatgpt_codex_orchestrat.Table.{lookup}
use chatgpt_codex_orchestrat.Relay.{RelayError, invalid_runtime_id}
use chatgpt_codex_orchestrat.Relay.Store.{
  Device, Db, device_for_account, authenticate_device, open_session, touch_session,
  invalidate_device_affinities, revoke_device,
}
use chatgpt_codex_orchestrat.Relay.Core.{
  Config, World, Agent, Report, Millis, summary, Response, respond_found,
}
use chatgpt_codex_orchestrat.Relay.Calls.{
  check_ready, dispatch_session, dispatch_found, dispatch_for_account, revoke_one, revoke_every,
  runtime_changed, or_same, Event, connects, polls, dispatches, responds, revokes, revokes_all,
  deadline_passes, poll_times_out, closes, validate_agent, connect_agent, poll_agent, respond_agent,
  event_result, step,
}
use chatgpt_codex_orchestrat.Relay.Rows.{
  EvolvesIn, same-Evolves, open-EvolvesIn, touch-EvolvesIn, revoke-EvolvesIn, revoke_all-EvolvesIn,
}

maybe_invalidated :
    (b : Bool) (id : String) (now : ℕ) (rows : List (String × Device)) (db : Db)
    → EvolvesIn rows db.devices
    → EvolvesIn rows (if b then invalidate_device_affinities id now db else db).devices
unfolding invalidate_device_affinities
maybe_invalidated true id now rows db h = h
maybe_invalidated false id now rows db h = h

pub connect-EvolvesIn :
    (sha256 : String → String) (agent : Agent) (report : Report) (now : ℕ) (w w' : World)
    → connect_agent sha256 agent report now w ≡ ok w'
    → EvolvesIn w.db.devices w'.db.devices
unfolding connect_agent invalidate_device_affinities
connect-EvolvesIn sha256 agent report now w w' e =
    let (before, e1, _) =
      bind_returned (authenticate_device sha256 agent.device_id agent.credential w.db) _ e in
    let (_, e2) = guard_passed (truthy agent.runtime_id) invalid_runtime_id _ e1 in
    let (opened, e3, f) =
      bind_returned
        (open_session agent.device_id agent.runtime_id report.executor_ready report.protocol_version
          report.agent_version now w.db)
        _ e2 in
    let (row, _, _, k) =
      open-EvolvesIn agent.device_id agent.runtime_id report.executor_ready report.protocol_version
        report.agent_version now w.db opened f in
    subst (λ (x : World). EvolvesIn w.db.devices x.db.devices) (ok-injective e3)
      (maybe_invalidated (runtime_changed before agent.runtime_id) agent.device_id now w.db.devices
        opened.1 k)

poll-EvolvesIn :
    (sha256 : String → String) (agent : Agent) (report : Report) (hold : Millis) (now : ℕ)
    (w w' : World)
    → poll_agent sha256 agent report hold now w ≡ ok w'
    → EvolvesIn w.db.devices w'.db.devices
unfolding poll_agent
poll-EvolvesIn sha256 agent report hold now w w' e =
    let (_, e1, _) = bind_returned (validate_agent sha256 agent w) _ e in
    let (db, e2, f) =
      bind_returned
        (touch_session agent.device_id agent.runtime_id agent.connection_epoch report.executor_ready
          report.protocol_version report.agent_version now w.db)
        _ e1 in
    subst (λ (x : World). EvolvesIn w.db.devices x.db.devices) (ok-injective e2)
      (touch-EvolvesIn agent.device_id agent.runtime_id agent.connection_epoch report.executor_ready
        report.protocol_version report.agent_version now w.db db f)

respond_db :
    (sha256 : String → String) (agent : Agent) (id : String) (response : Response) (w w' : World)
    → respond_agent sha256 agent id response w ≡ ok w'
    → w'.db ≡ w.db
unfolding respond_agent
respond_db sha256 agent id response w w' e =
    let (_, e1, _) = bind_returned (validate_agent sha256 agent w) _ e in
    let (r, e2, _) =
      bind_returned (respond_found agent id response (lookup id w.relay.pending) w.relay) _ e1 in
    subst (λ (x : World). x.db ≡ w.db) (ok-injective e2) refl

dispatch_db :
    (config : Config) (account device id payload : String) (limit : Millis) (now : ℕ)
    (o : Option Device) (w w' : World)
    → dispatch_found config account device id payload limit now o w ≡ ok w'
    → w'.db ≡ w.db
unfolding dispatch_found
dispatch_db config account device id payload limit now none w w' e = cc
dispatch_db config account device id payload limit now (some row) w w' e =
    let (_, e1, _) = bind_returned (check_ready (summary config now device row w.relay)) _ e in
    let (r, e2, f) =
      bind_returned
        (dispatch_session config account device id payload limit now
          (lookup device w.relay.sessions) w.relay)
        _ e1 in
    subst (λ (x : World). x.db ≡ w.db) (ok-injective e2) refl

revoke_one-EvolvesIn :
    (account device : String) (now : ℕ) (w w' : World)
    → revoke_one account device now w ≡ ok w'
    → EvolvesIn w.db.devices w'.db.devices
unfolding revoke_one
revoke_one-EvolvesIn account device now w w' e =
    let (db, e1, f) = bind_returned (revoke_device account device now w.db) _ e in
    subst (λ (x : World). EvolvesIn w.db.devices x.db.devices) (ok-injective e1)
      (revoke-EvolvesIn account device now w.db db f)

unchanged-EvolvesIn : (db db' : Db) → db' ≡ db → EvolvesIn db.devices db'.devices
unchanged-EvolvesIn db db' e = rw e (λ d. same-Evolves (lookup d db.devices))

event-EvolvesIn :
    (sha256 : String → String) (config : Config) (e : Event) (w w' : World)
    → event_result sha256 config w e ≡ ok w'
    → EvolvesIn w.db.devices w'.db.devices
unfolding event_result dispatch_for_account revoke_every
event-EvolvesIn sha256 config (connects agent report now) w w' e =
    connect-EvolvesIn sha256 agent report now w w' e
event-EvolvesIn sha256 config (polls agent report hold now) w w' e =
    poll-EvolvesIn sha256 agent report hold now w w' e
event-EvolvesIn sha256 config (dispatches account device id payload limit now) w w' e =
    unchanged-EvolvesIn w.db w'.db (
      dispatch_db config account device id payload limit now
        (device_for_account account device w.db) w w' e)
event-EvolvesIn sha256 config (responds agent id response) w w' e =
    unchanged-EvolvesIn w.db w'.db (respond_db sha256 agent id response w w' e)
event-EvolvesIn sha256 config (revokes account device now) w w' e =
    revoke_one-EvolvesIn account device now w w' e
event-EvolvesIn sha256 config (revokes_all account now) w w' e =
    subst (λ (x : World). EvolvesIn w.db.devices x.db.devices) (ok-injective e)
      (revoke_all-EvolvesIn account now w.db)
event-EvolvesIn sha256 config (deadline_passes id) w w' e =
    subst (λ (x : World). EvolvesIn w.db.devices x.db.devices) (ok-injective e)
      (λ d. same-Evolves _)
event-EvolvesIn sha256 config (poll_times_out device token) w w' e =
    subst (λ (x : World). EvolvesIn w.db.devices x.db.devices) (ok-injective e)
      (λ d. same-Evolves _)
event-EvolvesIn sha256 config closes w w' e =
    subst (λ (x : World). EvolvesIn w.db.devices x.db.devices) (ok-injective e)
      (λ d. same-Evolves _)

or_same-EvolvesIn :
    (w : World) (out : Result RelayError World)
    → ((w' : World) → out ≡ ok w' → EvolvesIn w.db.devices w'.db.devices)
    → EvolvesIn w.db.devices (or_same w out).db.devices
or_same-EvolvesIn w (ok w') k = k w' refl
or_same-EvolvesIn w (thrown why) k = λ d. same-Evolves _

pub step-EvolvesIn :
    (sha256 : String → String) (config : Config) (e : Event) (w : World)
    → EvolvesIn w.db.devices (step sha256 config w e).db.devices
unfolding step
step-EvolvesIn sha256 config e w =
    or_same-EvolvesIn w (event_result sha256 config w e)
      (λ w' f. event-EvolvesIn sha256 config e w w' f)
