-- ===== src/Relay/Revoked.antt =====
-- A revoked device is never served again (src/relay/core.js).
use mathlib.Core.Path.{subst}
use chatgpt_codex_orchestrat.Prelude.{
  ℕ, ◌<◌, String, ◌≡◌, ◌≢◌, inl, inr, refl, sym, ◌∙◌, true, Option, none, some, some-injective,
  List, [], ◌∷◌, eq_iff, arith, ok, thrown, bind_returned, ok-injective,
}
use chatgpt_codex_orchestrat.Table.{lookup, lookup-store}
use chatgpt_codex_orchestrat.Relay.{device_not_found, device_revoked, Relay}
use chatgpt_codex_orchestrat.Relay.Store.{
  Device, Db, is_time, or_fail, device_for_account, authenticate_device, put_device,
  revoke_credentials, revoked_row, revoke_device,
}
use chatgpt_codex_orchestrat.Relay.Core.{Config, World, Agent, Report, Millis, Response, summary}
use chatgpt_codex_orchestrat.Relay.Calls.{
  check_ready, dispatch_found, dispatch_for_account, revoke_one, Event, validate_agent,
  connect_agent, poll_agent, respond_agent, step, run,
}
use chatgpt_codex_orchestrat.Relay.Rows.{Evolves, found, for_account, kept_devices, returned_if}
use chatgpt_codex_orchestrat.Relay.Later.{step-EvolvesIn}

abbrev pub IsRevoked : Option Device → Type 0
IsRevoked o = (row : Device) × (o ≡ some row) × (is_time row.revoked_at ≡ true)

later-IsRevoked : (o o' : Option Device) → Evolves o o' → IsRevoked o → IsRevoked o'
later-IsRevoked none o' v (row, e, t) = absurd (cc)
later-IsRevoked (some old) o' (row', e', l) (row, e, t) =
    let same : old ≡ row = some-injective e in
    let t' : is_time old.revoked_at ≡ true = rw same t in (row', e', rw (l.revoked t') t')

run-IsRevoked :
    (sha256 : String → String) (config : Config) (device : String) (es : List Event) (w : World)
    → IsRevoked (lookup device w.db.devices)
    → IsRevoked (lookup device (run sha256 config w es).db.devices)
unfolding run
run-IsRevoked sha256 config device [] w h = h
run-IsRevoked sha256 config device (e ∷ es) w h =
    run-IsRevoked sha256 config device es (step sha256 config w e)
      (later-IsRevoked _ _ (step-EvolvesIn sha256 config e w device) h)

IsRevoked-now :
    (account device : String) (now : ℕ) (db db' : Db)
    → 0 < now
    → revoke_device account device now db ≡ ok db'
    → IsRevoked (lookup device db'.devices)
unfolding revoke_device
IsRevoked-now account device now db db' l e =
    let (row, e1, f) =
      bind_returned (or_fail (device_for_account account device db) device_not_found) _ e in
    let f' =
      for_account account device db row
        (found (device_for_account account device db) device_not_found f) in
    elim (returned_if (is_time row.revoked_at) db
      (revoke_credentials device now (put_device device (revoked_row now row) db)) db' e1) [
        | inl (t, k) ↦ subst (λ (x : Db). IsRevoked (lookup device x.devices)) k (row, f', t)
        | inr (t, k) ↦
            subst (λ (x : Db). IsRevoked (lookup device x.devices)) k
              (rw
                (
                  kept_devices device now (put_device device (revoked_row now row) db),
                  lookup-store,
                  (eq_iff device device).1 refl,
                )
                (revoked_row now row, refl, ground arith))
      ]

module _ (sha256 : String → String) (agent : Agent) (w : World)
    (h : IsRevoked (lookup agent.device_id w.db.devices)) where
  authenticate_revoked :
      authenticate_device sha256 agent.device_id agent.credential w.db ≡ thrown device_revoked
  unfolding authenticate_device
  authenticate_revoked = let (row, e, t) = h in rw (e, t) refl

  revoked_connect :
      (report : Report) (now : ℕ) → connect_agent sha256 agent report now w ≡ thrown device_revoked
  unfolding connect_agent
  revoked_connect report now = rw (authenticate_revoked) refl

  revoked_validate : validate_agent sha256 agent w ≡ thrown device_revoked
  unfolding validate_agent
  revoked_validate = rw (authenticate_revoked) refl

  revoked_poll :
      (report : Report) (hold : Millis) (now : ℕ)
      → poll_agent sha256 agent report hold now w ≡ thrown device_revoked
  unfolding poll_agent
  revoked_poll report hold now = rw (revoked_validate) refl

  revoked_respond :
      (id : String) (response : Response)
      → respond_agent sha256 agent id response w ≡ thrown device_revoked
  unfolding respond_agent
  revoked_respond id response = rw (revoked_validate) refl

revoked_summary :
    (config : Config) (now : ℕ) (id : String) (row : Device) (r : Relay)
    → is_time row.revoked_at ≡ true
    → check_ready (summary config now id row r) ≡ thrown device_revoked
unfolding summary
revoked_summary config now id row r t = rw t refl

revoked_found :
    (config : Config) (account device id payload : String) (limit : Millis) (now : ℕ)
    (o : Option Device) (w w' : World)
    → ((row : Device) → o ≡ some row → is_time row.revoked_at ≡ true)
    → dispatch_found config account device id payload limit now o w ≢ ok w'
unfolding dispatch_found
revoked_found config account device id payload limit now none w w' h = λ e. cc
revoked_found config account device id payload limit now (some row) w w' h =
    let s = revoked_summary config now device row w.relay (h row refl) in rw s (λ e. cc)

revoked_dispatch :
    (config : Config) (account device id payload : String) (limit : Millis) (now : ℕ) (w w' : World)
    → IsRevoked (lookup device w.db.devices)
    → dispatch_for_account config account device id payload limit now w ≢ ok w'
unfolding dispatch_for_account
revoked_dispatch config account device id payload limit now w w' (old, e, t) =
    revoked_found config account device id payload limit now
      (device_for_account account device w.db) w w'
      (λ row f.
        let same : old ≡ row = some-injective (sym e ∙ for_account account device w.db row f) in
        rw (← same) t)

-- After an account has revoked its device, at a time that is not 0, and after any further events, every
-- connection, poll and response of an agent of this device is refused as revoked, and no request can
-- be dispatched to it.
pub revoked_refused :
    (sha256 : String → String) (config : Config) (account device : String) (now : ℕ) (w w' : World)
    (es : List Event)
    → 0 < now
    → revoke_one account device now w ≡ ok w'
    → let v = run sha256 config w' es in
      ((agent : Agent) (r : Report) (hold : Millis) (id : String) (response : Response) (t : ℕ)
        → agent.device_id ≡ device
        → (connect_agent sha256 agent r t v ≡ thrown device_revoked)
          × (poll_agent sha256 agent r hold t v ≡ thrown device_revoked)
          × (respond_agent sha256 agent id response v ≡ thrown device_revoked))
      × ((other id payload : String) (limit : Millis) (t : ℕ) (v' : World)
          → dispatch_for_account config other device id payload limit t v ≢ ok v')
unfolding revoke_one
revoked_refused sha256 config account device now w w' es l e =
    let (db, e1, f) = bind_returned (revoke_device account device now w.db) _ e in
    let k : IsRevoked (lookup device w'.db.devices) =
      subst (λ (x : World). IsRevoked (lookup device x.db.devices)) (ok-injective e1)
        (IsRevoked-now account device now w.db db l f) in
    let h = run-IsRevoked sha256 config device es w' k in
    (
      λ agent r hold id response t same.
          let h' : IsRevoked (lookup agent.device_id (run sha256 config w' es).db.devices) =
            rw same h in
          (
            revoked_connect sha256 agent (run sha256 config w' es) h' r t,
            revoked_poll sha256 agent (run sha256 config w' es) h' r hold t,
            revoked_respond sha256 agent (run sha256 config w' es) h' id response,
          ),
      λ other id payload limit t v'.
          revoked_dispatch config other device id payload limit t (run sha256 config w' es) v' h,
    )
