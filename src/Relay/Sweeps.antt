-- ===== src/Relay/Sweeps.antt =====
-- What keeps the moves of Frame through the loops over the pending requests: a new connection, a
-- revocation, the closing of the relay, a poll and a response (src/relay/core.js).
use chatgpt_codex_orchestrat.Prelude.{
  ℕ, String, ◌≡◌, inl, inr, refl, Bool, true, false, not, Option, none, some, List, [], ◌∷◌, ◌==◌,
  nat_eq, if◌then◌else◌, ok, Bool-cases, guard_passed, ok-injective,
}
use mathlib.Core.Path.{subst}
use chatgpt_codex_orchestrat.Table.{lookup, store, remove}
use chatgpt_codex_orchestrat.Relay.{
  RelayError, request_fence_mismatch, device_revoked, device_runtime_changed, relay_restarted,
  stale_connection_epoch, Item, Session, Envelope, Relay, reject_pending, cancel_poll,
}
use chatgpt_codex_orchestrat.Relay.Core.{
  Agent, reconnect_found, reconnect_each, connect_session, keys, reject_of_device, fence_device,
  fence_each, cancel_each, reject_each, close, Response, outcome_of, is_fenced, respond_found,
  hold_poll, poll_answered,
}
use chatgpt_codex_orchestrat.Relay.Frame.{Predicate, Rewrites, Settles, Drops, Clears}
use chatgpt_codex_orchestrat.Relay.Frame

module _ (P : Predicate) (rewrites : Rewrites P) (settles : Settles P) (drops : Drops P)
    (clears : Clears P) where
  abbrev Keeps : Relay → Type 0
  Keeps r = P r.sessions r.pending r.settled

  pub reject-Keeps :
      (id : String) (why : RelayError) (r : Relay) → Keeps r → Keeps (reject_pending id why r)
  reject-Keeps = Frame.reject-Keeps P rewrites settles

  cancel-Keeps :
      (device : String) (why : RelayError) (r : Relay) → Keeps r → Keeps (cancel_poll device why r)
  cancel-Keeps = Frame.cancel-Keeps P rewrites settles

  reconnect_found-Keeps :
      (device : String) (session : Session) (now : ℕ) (id : String) (o : Option Item) (r : Relay)
      → lookup id r.pending ≡ o
      → Keeps r
      → Keeps (reconnect_found device session now id o r)
  unfolding reconnect_found
  reconnect_found-Keeps device session now id none r e h = h
  reconnect_found-Keeps device session now id (some item) r e h =
      elim (Bool-cases (not (item.device_id == device))) [
        | inl d ↦ rw d h
        | inr d ↦ elim (Bool-cases (not (item.runtime_id == session.runtime_id))) [
          | inl t ↦ rw (d, t) (reject-Keeps id device_runtime_changed r h)
          | inr t ↦
              rw (d, t)
                (Frame.queue-Keeps P rewrites settles id now _ (
                  Frame.with_item-Keeps P rewrites settles id item
                    (record item { connection_epoch = session.connection_epoch }) r e
                    (record { account = refl; device = refl; runtime = refl }) h))
        ]
      ]

  reconnect_each-Keeps :
      (device : String) (session : Session) (now : ℕ) (ids : List String) (r : Relay)
      → Keeps r
      → Keeps (reconnect_each device session now ids r)
  unfolding reconnect_each
  reconnect_each-Keeps device session now [] r h = h
  reconnect_each-Keeps device session now (id ∷ ids) r h =
      reconnect_each-Keeps device session now ids _
        (reconnect_found-Keeps device session now id (lookup id r.pending) r refl h)

  pub connect-Keeps :
      (device : String) (session : Session) (now : ℕ) (r : Relay)
      → Keeps (record r { sessions = store device session r.sessions })
      → Keeps (connect_session device session now r)
  unfolding connect_session
  connect-Keeps device session now r h =
      let r' : Relay =
        cancel_poll device stale_connection_epoch
          (record r { sessions = store device session r.sessions }) in
      reconnect_each-Keeps device session now (keys r'.pending) r' (
        cancel-Keeps device stale_connection_epoch
          (record r { sessions = store device session r.sessions }) h)

  rejected_if-Keeps :
      (b : Bool) (id : String) (why : RelayError) (r : Relay)
      → Keeps r
      → Keeps (if b then reject_pending id why r else r)
  rejected_if-Keeps true id why r h = reject-Keeps id why r h
  rejected_if-Keeps false id why r h = h

  reject_of_device-Keeps :
      (device : String) (why : RelayError) (items : List (String × Item)) (r : Relay)
      → Keeps r
      → Keeps (reject_of_device device why items r)
  unfolding reject_of_device
  reject_of_device-Keeps device why [] r h = h
  reject_of_device-Keeps device why ((id, item) ∷ items) r h =
      reject_of_device-Keeps device why items _
        (rejected_if-Keeps (item.device_id == device) id why r h)

  pub fence-Keeps :
      (device : String) (why : RelayError) (r : Relay) → Keeps r → Keeps (fence_device device why r)
  unfolding fence_device
  fence-Keeps device why r h =
      let r' : Relay = cancel_poll device why (record r { sessions = remove device r.sessions }) in
      reject_of_device-Keeps device why r'.pending (record r' { queues = remove device r'.queues })
        (cancel-Keeps device why (record r { sessions = remove device r.sessions })
          (drops r.sessions r.pending r.settled device h))

  pub fence_each-Keeps : (ids : List String) (r : Relay) → Keeps r → Keeps (fence_each ids r)
  unfolding fence_each
  fence_each-Keeps [] r h = h
  fence_each-Keeps (id ∷ ids) r h = fence_each-Keeps ids _ (fence-Keeps id device_revoked r h)

  cancel_each-Keeps : (ids : List String) (r : Relay) → Keeps r → Keeps (cancel_each ids r)
  unfolding cancel_each
  cancel_each-Keeps [] r h = h
  cancel_each-Keeps (id ∷ ids) r h = cancel_each-Keeps ids _ (cancel-Keeps id relay_restarted r h)

  reject_each-Keeps : (ids : List String) (r : Relay) → Keeps r → Keeps (reject_each ids r)
  unfolding reject_each
  reject_each-Keeps [] r h = h
  reject_each-Keeps (id ∷ ids) r h = reject_each-Keeps ids _ (reject-Keeps id relay_restarted r h)

  pub close-Keeps : (r : Relay) → Keeps r → Keeps (close r)
  unfolding close
  close-Keeps r h =
      let r' : Relay = cancel_each (keys r.waiters) r in
      let r'' : Relay = reject_each (keys r'.pending) r' in
      clears r''.sessions r''.pending r''.settled
        (reject_each-Keeps (keys r'.pending) r' (cancel_each-Keeps (keys r.waiters) r h))

  hold-Keeps : (agent : Agent) (hold : ℕ) (r : Relay) → Keeps r → Keeps (hold_poll agent hold r)
  hold-Keeps agent hold r h = elim (Bool-cases (nat_eq hold 0)) [
    | inl z ↦ rw z h
    | inr z ↦ rw z (cancel-Keeps agent.device_id _ r h)
  ]

  pub answered-Keeps :
      (agent : Agent) (hold : ℕ) (t : Option Envelope × Relay)
      → Keeps t.1
      → Keeps (poll_answered agent hold t)
  answered-Keeps agent hold (none, r) h = hold-Keeps agent hold r h
  answered-Keeps agent hold (some e, r) h = h

  pub respond_found-Keeps :
      (agent : Agent) (id : String) (response : Response) (o : Option Item) (r r' : Relay)
      → lookup id r.pending ≡ o
      → respond_found agent id response o r ≡ ok r'
      → Keeps r
      → Keeps r'
  unfolding respond_found
  respond_found-Keeps agent id response none r r' e k h = absurd (cc)
  respond_found-Keeps agent id response (some item) r r' e k h =
      let (_, k') = guard_passed (is_fenced agent item) request_fence_mismatch _ k in
      subst Keeps (ok-injective k')
        (Frame.settle-Keeps P rewrites settles id item (outcome_of response) r e h)
