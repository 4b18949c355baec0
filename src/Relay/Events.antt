-- ===== src/Relay/Events.antt =====
-- The events of the relay keep what the moves of Frame keep, but for the entry of a new request
-- (src/relay/core.js).
use chatgpt_codex_orchestrat.Prelude.{
  ℕ, String, ◌≡◌, inl, inr, refl, Option, none, some, List, nat_eq, Result, ok, thrown, Bool-cases,
  bind_returned, guard_passed, truthy, ok-injective,
}
use mathlib.Core.Path.{subst}
use chatgpt_codex_orchestrat.Table.{lookup, store}
use chatgpt_codex_orchestrat.Relay.{
  RelayError, invalid_runtime_id, device_revoked, request_deadline_exceeded, Item, Session, Waiter,
  Relay, with_item, dequeue_envelope,
}
use chatgpt_codex_orchestrat.Relay.Store.{
  Device, Db, authenticate_device, open_session, touch_session, device_for_account, revoke_device,
  revoke_all,
}
use chatgpt_codex_orchestrat.Relay.Core.{
  Config, World, Agent, Report, Millis, admit_dispatch, Response, respond_found, hold_time, summary,
}
use chatgpt_codex_orchestrat.Relay.Calls.{
  new_item, dispatch_found, check_ready, or_same, timer_found, dispatch_item, dispatch_session,
  dispatch_for_account, revoke_one, revoke_every, poll_timer, Event, connects, polls, dispatches,
  responds, revokes, revokes_all, deadline_passes, poll_times_out, closes, validate_agent,
  connect_agent, poll_agent, respond_agent, event_result, step,
}
use chatgpt_codex_orchestrat.Relay.Frame.{Predicate, Rewrites, Settles, Drops, Clears}
use chatgpt_codex_orchestrat.Relay.Frame
use chatgpt_codex_orchestrat.Relay.Sweeps

-- The id of the request that an event may enter.
abbrev pub entered_by : Event → Option String
entered_by (dispatches account device id payload limit now) = some id
entered_by _ = none

module _ (P : Predicate) (rewrites : Rewrites P) (settles : Settles P) (drops : Drops P)
    (clears : Clears P) where
  abbrev Keeps : Relay → Type 0
  Keeps r = P r.sessions r.pending r.settled

  -- What the opening of a session must keep.
  abbrev pub OpeningKeeps : Event → World → Type 0
  OpeningKeeps (connects agent report now) w =
      (opened : Device × Db)
      → open_session agent.device_id agent.runtime_id report.executor_ready report.protocol_version
          report.agent_version now w.db
        ≡ ok opened
      → Keeps (record w.relay {
        sessions =
            store agent.device_id
              (record {
                runtime_id = agent.runtime_id;
                connection_epoch = opened.0.connection_epoch;
              })
              w.relay.sessions;
      })
  OpeningKeeps _ w = Unit

  -- A predicate that does not read the sessions.
  pub keeps_opening :
      (e : Event) (w : World)
      → ((q : List (String × Session)) → P q w.relay.pending w.relay.settled)
      → OpeningKeeps e w
  keeps_opening (connects agent report now) w h = λ opened e. h _
  keeps_opening (polls _ _ _ _) w h = tt
  keeps_opening (dispatches _ _ _ _ _ _) w h = tt
  keeps_opening (responds _ _ _) w h = tt
  keeps_opening (revokes _ _ _) w h = tt
  keeps_opening (revokes_all _ _) w h = tt
  keeps_opening (deadline_passes _) w h = tt
  keeps_opening (poll_times_out _ _) w h = tt
  keeps_opening closes w h = tt

  pub connect_agent-Keeps :
      (sha256 : String → String) (agent : Agent) (report : Report) (now : ℕ) (w w' : World)
      → connect_agent sha256 agent report now w ≡ ok w'
      → OpeningKeeps (connects agent report now) w
      → Keeps w'.relay
  unfolding connect_agent
  connect_agent-Keeps sha256 agent report now w w' e h =
      let (before, e1, _) =
        bind_returned (authenticate_device sha256 agent.device_id agent.credential w.db) _ e in
      let (_, e2) = guard_passed (truthy agent.runtime_id) invalid_runtime_id _ e1 in
      let (opened, e3, f) =
        bind_returned
          (open_session agent.device_id agent.runtime_id report.executor_ready
            report.protocol_version report.agent_version now w.db)
          _ e2 in
      subst (λ x. Keeps x.relay) (ok-injective e3)
        (Sweeps.connect-Keeps P rewrites settles drops clears agent.device_id _ now w.relay
          (h opened f))

  poll_agent-Keeps :
      (sha256 : String → String) (agent : Agent) (report : Report) (hold : Millis) (now : ℕ)
      (w w' : World)
      → poll_agent sha256 agent report hold now w ≡ ok w'
      → Keeps w.relay
      → Keeps w'.relay
  unfolding poll_agent
  poll_agent-Keeps sha256 agent report hold now w w' e h =
      let (_, e1, _) = bind_returned (validate_agent sha256 agent w) _ e in
      let (db, e2, _) =
        bind_returned
          (touch_session agent.device_id agent.runtime_id agent.connection_epoch
            report.executor_ready report.protocol_version report.agent_version now w.db)
          _ e1 in
      subst (λ x. Keeps x.relay) (ok-injective e2)
        (Sweeps.answered-Keeps P rewrites settles drops clears agent (hold_time hold)
          (dequeue_envelope agent.device_id agent.connection_epoch agent.runtime_id now w.relay)
          (Frame.dequeue-Keeps P rewrites settles agent.device_id agent.connection_epoch
            agent.runtime_id now w.relay h))

  respond_agent-Keeps :
      (sha256 : String → String) (agent : Agent) (id : String) (response : Response) (w w' : World)
      → respond_agent sha256 agent id response w ≡ ok w'
      → Keeps w.relay
      → Keeps w'.relay
  unfolding respond_agent
  respond_agent-Keeps sha256 agent id response w w' e h =
      let (_, e1, _) = bind_returned (validate_agent sha256 agent w) _ e in
      let (r, e2, f) =
        bind_returned (respond_found agent id response (lookup id w.relay.pending) w.relay) _ e1 in
      subst (λ x. Keeps x.relay) (ok-injective e2)
        (Sweeps.respond_found-Keeps P rewrites settles drops clears agent id response
          (lookup id w.relay.pending) w.relay r refl f h)

  revoke_one-Keeps :
      (account device : String) (now : ℕ) (w w' : World)
      → revoke_one account device now w ≡ ok w'
      → Keeps w.relay
      → Keeps w'.relay
  unfolding revoke_one
  revoke_one-Keeps account device now w w' e h =
      let (db, e1, _) = bind_returned (revoke_device account device now w.db) _ e in
      subst (λ x. Keeps x.relay) (ok-injective e1)
        (Sweeps.fence-Keeps P rewrites settles drops clears device device_revoked w.relay h)

  timer-Keeps :
      (device : String) (token : ℕ) (o : Option Waiter) (r : Relay)
      → Keeps r
      → Keeps (timer_found device token o r)
  timer-Keeps device token none r h = h
  timer-Keeps device token (some w) r h = elim (Bool-cases (nat_eq w.token token)) [
    | inl t ↦ rw t h
    | inr t ↦ rw t h
  ]

  -- What the entry of a new request must keep.
  abbrev pub EntryKeeps : Config → Option String → Relay → Type 0
  EntryKeeps config o r =
      (id : String) (item : Item)
      → o ≡ some id
      → admit_dispatch config item.account_id item.device_id r ≡ ok tt
      → Keeps (with_item id item r)

  dispatch_session-Keeps :
      (config : Config) (account device id payload : String) (limit : Millis) (now : ℕ)
      (o : Option Session) (r r' : Relay)
      → dispatch_session config account device id payload limit now o r ≡ ok r'
      → EntryKeeps config (some id) r
      → Keeps r'
  unfolding dispatch_session dispatch_item new_item
  dispatch_session-Keeps config account device id payload limit now none r r' e k = absurd (cc)
  dispatch_session-Keeps config account device id payload limit now (some session) r r' e k =
      let (u, e1, a) = bind_returned (admit_dispatch config account device r) _ e in
      subst Keeps (ok-injective e1) (Frame.queue-Keeps P rewrites settles id now _ (k id _ refl a))

  dispatch_found-Keeps :
      (config : Config) (account device id payload : String) (limit : Millis) (now : ℕ)
      (o : Option Device) (w w' : World)
      → dispatch_found config account device id payload limit now o w ≡ ok w'
      → EntryKeeps config (some id) w.relay
      → Keeps w'.relay
  unfolding dispatch_found
  dispatch_found-Keeps config account device id payload limit now none w w' e k = absurd (cc)
  dispatch_found-Keeps config account device id payload limit now (some row) w w' e k =
      let (_, e1, _) = bind_returned (check_ready (summary config now device row w.relay)) _ e in
      let (r, e2, f) =
        bind_returned
          (dispatch_session config account device id payload limit now
            (lookup device w.relay.sessions) w.relay)
          _ e1 in
      subst (λ x. Keeps x.relay) (ok-injective e2)
        (dispatch_session-Keeps config account device id payload limit now _ w.relay r f k)

  event-Keeps :
      (sha256 : String → String) (config : Config) (e : Event) (w w' : World)
      → event_result sha256 config w e ≡ ok w'
      → EntryKeeps config (entered_by e) w.relay
      → OpeningKeeps e w
      → Keeps w.relay
      → Keeps w'.relay
  unfolding event_result dispatch_for_account revoke_every poll_timer
  event-Keeps sha256 config (connects agent report now) w w' e k o h =
      connect_agent-Keeps sha256 agent report now w w' e o
  event-Keeps sha256 config (polls agent report hold now) w w' e k o h =
      poll_agent-Keeps sha256 agent report hold now w w' e h
  event-Keeps sha256 config (dispatches account device id payload limit now) w w' e k o h =
      dispatch_found-Keeps config account device id payload limit now
        (device_for_account account device w.db) w w' e k
  event-Keeps sha256 config (responds agent id response) w w' e k o h =
      respond_agent-Keeps sha256 agent id response w w' e h
  event-Keeps sha256 config (revokes account device now) w w' e k o h =
      revoke_one-Keeps account device now w w' e h
  event-Keeps sha256 config (revokes_all account now) w w' e k o h =
      subst (λ x. Keeps x.relay) (ok-injective e)
        (Sweeps.fence_each-Keeps P rewrites settles drops clears (revoke_all account now w.db).0
          w.relay h)
  event-Keeps sha256 config (deadline_passes id) w w' e k o h =
      subst (λ x. Keeps x.relay) (ok-injective e)
        (Sweeps.reject-Keeps P rewrites settles drops clears id request_deadline_exceeded w.relay h)
  event-Keeps sha256 config (poll_times_out device token) w w' e k o h =
      subst (λ x. Keeps x.relay) (ok-injective e)
        (timer-Keeps device token (lookup device w.relay.waiters) w.relay h)
  event-Keeps sha256 config closes w w' e k o h =
      subst (λ x. Keeps x.relay) (ok-injective e)
        (Sweeps.close-Keeps P rewrites settles drops clears w.relay h)

  or_same-Keeps :
      (w : World) (out : Result RelayError World)
      → ((w' : World) → out ≡ ok w' → Keeps w'.relay)
      → Keeps w.relay
      → Keeps (or_same w out).relay
  or_same-Keeps w (ok w') k h = k w' refl
  or_same-Keeps w (thrown why) k h = h

  pub step-Keeps :
      (sha256 : String → String) (config : Config) (e : Event) (w : World)
      → EntryKeeps config (entered_by e) w.relay
      → OpeningKeeps e w
      → Keeps w.relay
      → Keeps (step sha256 config w e).relay
  unfolding step
  step-Keeps sha256 config e w k o h =
      or_same-Keeps w (event_result sha256 config w e)
        (λ w' f. event-Keeps sha256 config e w w' f k o h) h
