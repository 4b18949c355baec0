-- ===== src/Relay/Fence.antt =====
-- A connection ends those before it, and a revocation ends all of them (src/relay/core.js).
use chatgpt_codex_orchestrat.Prelude.{
  ℕ, suc, ◌≤◌, ◌<◌, String, ◌≡◌, ◌≢◌, inl, inr, refl, sym, ap, ◌∙◌, some-injective, Bool, Option,
  none, some, List, [], ◌∷◌, ◌==◌, eq_iff, nat_eq, arith, ok, Bool-cases, bind_returned,
  guard_passed, guard-true,
}
use chatgpt_codex_orchestrat.Table.{lookup, store, lookup-store, lookup-remove}
use chatgpt_codex_orchestrat.Relay.{device_runtime_changed, stale_connection_epoch, Session}
use chatgpt_codex_orchestrat.Relay.Store.{Device, Db, authenticate_device, open_session}
use chatgpt_codex_orchestrat.Relay.Core.{Config, World, Agent, Report, Millis, Response}
use chatgpt_codex_orchestrat.Relay.Calls.{
  check_session, Event, connects, polls, dispatches, responds, revokes, revokes_all,
  deadline_passes, poll_times_out, closes, validate_agent, connect_agent, poll_agent, respond_agent,
  step, run,
}
use chatgpt_codex_orchestrat.Relay.Frame.{Predicate, Drops, Clears}
use chatgpt_codex_orchestrat.Relay.Events.{connect_agent-Keeps, OpeningKeeps, step-Keeps}
use chatgpt_codex_orchestrat.Relay.Rows.{Evolves, open-EvolvesIn}
use chatgpt_codex_orchestrat.Relay.Later.{step-EvolvesIn, connect-EvolvesIn}

-- The epoch in the row of the device is at least `n`.
abbrev pub ReachesRow : ℕ → Option Device → Type 0
ReachesRow n none = ⊥
ReachesRow n (some row) = n ≤ row.connection_epoch

-- A session, if there is one, is not older than `n`.
abbrev pub ReachesSession : ℕ → Option Session → Type 0
ReachesSession n none = Unit
ReachesSession n (some s) = n ≤ s.connection_epoch

later-ReachesRow : (n : ℕ) (o o' : Option Device) → Evolves o o' → ReachesRow n o → ReachesRow n o'
later-ReachesRow n none o' v h = absurd h
later-ReachesRow n (some row) o' (row', e, l) h = let k = l.epoch in rw e (omega arith)

module _ (device : String) (n : ℕ) where
  abbrev Reaches : Predicate
  Reaches q p s = ReachesSession (suc n) (lookup device q)

  dropped-Reaches : Drops Reaches
  dropped-Reaches q p s d h = elim (Bool-cases (d == device)) [
    | inl t ↦ rw (lookup-remove, t) tt
    | inr t ↦ rw (lookup-remove, t) h
  ]

  cleared-Reaches : Clears Reaches
  unfolding lookup
  cleared-Reaches q p s h = tt

  opened-Reaches :
      (id : String) (session : Session) (q : List (String × Session))
      → (id ≡ device → suc n ≤ session.connection_epoch)
      → ReachesSession (suc n) (lookup device q)
      → ReachesSession (suc n) (lookup device (store id session q))
  opened-Reaches id session q k h = elim (Bool-cases (id == device)) [
    | inl t ↦ rw (lookup-store, t) (k ((eq_iff id device).0 t))
    | inr t ↦ rw (lookup-store, t) h
  ]

  opened_epoch :
      (id runtime : String) (ready : Bool) (protocol : String) (agent : Option String) (now : ℕ)
      (db : Db) (out : Device × Db)
      → open_session id runtime ready protocol agent now db ≡ ok out
      → ReachesRow n (lookup device db.devices)
      → id ≡ device
      → suc n ≤ out.0.connection_epoch
  opened_epoch id runtime ready protocol agent now db out e h same =
      let (row, f, g, _) = open-EvolvesIn id runtime ready protocol agent now db out e in
      let h' : n ≤ row.connection_epoch = rw (← same, f) at h in omega arith

  opening-Reaches :
      (e : Event) (w : World)
      → ReachesRow n (lookup device w.db.devices)
      → ReachesSession (suc n) (lookup device w.relay.sessions)
      → OpeningKeeps Reaches
          (λ q p s id item item' f g h. h)
          (λ q p s id item out f h. h)
          dropped-Reaches
          cleared-Reaches
          e
          w
  opening-Reaches (connects agent report now) w r h = λ opened e.
      opened-Reaches agent.device_id _ w.relay.sessions
        (opened_epoch agent.device_id agent.runtime_id report.executor_ready report.protocol_version
          report.agent_version now w.db opened e r)
        h
  opening-Reaches (polls _ _ _ _) w r h = tt
  opening-Reaches (dispatches _ _ _ _ _ _) w r h = tt
  opening-Reaches (responds _ _ _) w r h = tt
  opening-Reaches (revokes _ _ _) w r h = tt
  opening-Reaches (revokes_all _ _) w r h = tt
  opening-Reaches (deadline_passes _) w r h = tt
  opening-Reaches (poll_times_out _ _) w r h = tt
  opening-Reaches closes w r h = tt

  run-Reaches :
      (sha256 : String → String) (config : Config) (es : List Event) (w : World)
      → ReachesRow n (lookup device w.db.devices)
      → ReachesSession (suc n) (lookup device w.relay.sessions)
      → ReachesSession (suc n) (lookup device (run sha256 config w es).relay.sessions)
  unfolding run
  run-Reaches sha256 config [] w r h = h
  run-Reaches sha256 config (e ∷ es) w r h =
      run-Reaches sha256 config es (step sha256 config w e)
        (later-ReachesRow n _ _ (step-EvolvesIn sha256 config e w device) r)
        (step-Keeps Reaches (λ q p s id item item' f g h. h) (λ q p s id item out f h. h)
          dropped-Reaches cleared-Reaches sha256 config e w (λ id item f a. h)
          (opening-Reaches e w r h) h)

refused_session :
    (agent : Agent) (n : ℕ) (o : Option Session)
    → agent.connection_epoch < n
    → ReachesSession n o
    → check_session agent o ≢ ok tt
refused_session agent n none l h = λ e. cc
refused_session agent n (some s) l h = λ e.
    let (_, e1) = guard_passed (s.runtime_id == agent.runtime_id) device_runtime_changed _ e in
    let k =
      guard-true (nat_eq s.connection_epoch agent.connection_epoch) stale_connection_epoch e1 in
    ground (arith, k)

refused_agent :
    (sha256 : String → String) (agent : Agent) (n : ℕ) (w : World)
    → agent.connection_epoch < n
    → ReachesSession n (lookup agent.device_id w.relay.sessions)
    → validate_agent sha256 agent w ≢ ok tt
unfolding validate_agent
refused_agent sha256 agent n w l h = λ e.
    let (row, e1, _) =
      bind_returned (authenticate_device sha256 agent.device_id agent.credential w.db) _ e in
    refused_session agent n (lookup agent.device_id w.relay.sessions) l h e1

refused_calls :
    (sha256 : String → String) (agent : Agent) (w : World)
    → validate_agent sha256 agent w ≢ ok tt
    → ((report : Report) (hold : Millis) (now : ℕ) (w' : World)
        → poll_agent sha256 agent report hold now w ≢ ok w')
      × ((id : String) (response : Response) (w' : World)
          → respond_agent sha256 agent id response w ≢ ok w')
unfolding poll_agent respond_agent
refused_calls sha256 agent w refused = (
  λ report hold now w' e.
      let (u, _, v) = bind_returned (validate_agent sha256 agent w) _ e in refused v,
  λ id response w' e.
      let (u, _, v) = bind_returned (validate_agent sha256 agent w) _ e in refused v,
)

own-Reaches :
    (n : ℕ) (id : String) (session : Session) (q : List (String × Session))
    → n ≤ session.connection_epoch
    → ReachesSession n (lookup id (store id session q))
own-Reaches n id session q l = rw (lookup-store, (eq_iff id id).1 refl) l

next_epoch :
    (id runtime : String) (ready : Bool) (protocol : String) (agent : Option String) (now : ℕ)
    (db : Db) (out : Device × Db) (row : Device)
    → open_session id runtime ready protocol agent now db ≡ ok out
    → lookup id db.devices ≡ some row
    → suc row.connection_epoch ≤ out.0.connection_epoch
next_epoch id runtime ready protocol agent now db out row e f =
    let (old, f', g, _) = open-EvolvesIn id runtime ready protocol agent now db out e in
    let same : old ≡ row = some-injective (sym f' ∙ f) in
    let same' = ap (λ (r : Device). r.connection_epoch) same in omega arith

connected-Reaches :
    (sha256 : String → String) (agent : Agent) (report : Report) (now : ℕ) (w w' : World)
    (row : Device)
    → connect_agent sha256 agent report now w ≡ ok w'
    → lookup agent.device_id w.db.devices ≡ some row
    → ReachesSession (suc row.connection_epoch) (lookup agent.device_id w'.relay.sessions)
connected-Reaches sha256 agent report now w w' row e f =
    connect_agent-Keeps (Reaches agent.device_id row.connection_epoch)
      (λ q p s id item item' f g h. h) (λ q p s id item out f h. h)
      (dropped-Reaches agent.device_id row.connection_epoch)
      (cleared-Reaches agent.device_id row.connection_epoch) sha256 agent report now w w' e
      (λ opened g. own-Reaches (suc row.connection_epoch) agent.device_id _ w.relay.sessions (
        next_epoch agent.device_id agent.runtime_id report.executor_ready report.protocol_version
          report.agent_version now w.db opened row g f))

grown_row :
    (sha256 : String → String) (agent : Agent) (report : Report) (now : ℕ) (w w' : World)
    (row : Device)
    → connect_agent sha256 agent report now w ≡ ok w'
    → lookup agent.device_id w.db.devices ≡ some row
    → ReachesRow row.connection_epoch (lookup agent.device_id w'.db.devices)
grown_row sha256 agent report now w w' row e f =
    later-ReachesRow row.connection_epoch (lookup agent.device_id w.db.devices) _
      (connect-EvolvesIn sha256 agent report now w w' e agent.device_id) (rw f (omega arith))

-- After an agent has connected, and after any further events, an agent of the same device whose epoch
-- is not newer than the device's before that connection can neither poll nor respond.
pub older_refused :
    (sha256 : String → String) (config : Config) (agent old : Agent) (report : Report) (now : ℕ)
    (w w' : World) (row : Device) (es : List Event)
    → connect_agent sha256 agent report now w ≡ ok w'
    → lookup agent.device_id w.db.devices ≡ some row
    → old.device_id ≡ agent.device_id
    → old.connection_epoch ≤ row.connection_epoch
    → let v = run sha256 config w' es in
      ((r : Report) (hold : Millis) (t : ℕ) (v' : World) → poll_agent sha256 old r hold t v ≢ ok v')
      × ((id : String) (response : Response) (v' : World)
          → respond_agent sha256 old id response v ≢ ok v')
older_refused sha256 config agent old report now w w' row es e f same l =
    let n = row.connection_epoch in
    let h =
      run-Reaches agent.device_id n sha256 config es w'
        (grown_row sha256 agent report now w w' row e f)
        (connected-Reaches sha256 agent report now w w' row e f) in
    refused_calls sha256 old (run sha256 config w' es)
      (refused_agent sha256 old (suc n) (run sha256 config w' es) (omega arith) (rw same h))
