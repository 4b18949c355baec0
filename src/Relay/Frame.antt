-- ===== src/Relay/Frame.antt =====
-- What the calls of the relay do to the pending requests and to the answers (src/relay/core.js), as
-- two moves: a pending request is changed but stays its account's, its device's and its runtime's, or
-- it is answered and no longer pending. A predicate that both moves keep is kept by everything but the
-- entry of a new request.
use chatgpt_codex_orchestrat.Prelude.{
  ℕ, String, ◌≡◌, inl, inr, refl, Bool, true, false, not, ◌||◌, Option, none, some, List, [], ◌∷◌,
  ◌++◌, ◌==◌, leb, nat_eq, if◌then◌else◌, Bool-cases,
}
use chatgpt_codex_orchestrat.Table.{lookup, store, remove}
use chatgpt_codex_orchestrat.Relay.{
  RelayError, request_deadline_exceeded, Item, Session, Waiter, Envelope, Outcome, rejected, Relay,
  splice_found, spliced, settle, reject_found, reject_pending, cancel_found, cancel_poll, with_item,
  take_item, take_found, take_head, dequeue, dequeue_envelope, queue_of, or_go_on, deliver, enqueue,
  serve_found, queue_found, queue_request,
}

-- The item as a move may leave it.
pub record IsSame (item item' : Item) : Type 0 where
  pub account : item'.account_id ≡ item.account_id
  pub device : item'.device_id ≡ item.device_id
  pub runtime : item'.runtime_id ≡ item.runtime_id

splice_pending :
    (id device : String) (o : Option (List String)) (r : Relay)
    → ((splice_found id device o r).pending ≡ r.pending)
      × ((splice_found id device o r).settled ≡ r.settled)
      × ((splice_found id device o r).sessions ≡ r.sessions)
splice_pending id device none r = (refl, refl, refl)
splice_pending id device (some ids) r = (refl, refl, refl)

pub maybe_spliced :
    (b : Bool) (id : String) (item : Item) (r : Relay)
    → ((if b then spliced id item r else r).pending ≡ r.pending)
      × ((if b then spliced id item r else r).settled ≡ r.settled)
      × ((if b then spliced id item r else r).sessions ≡ r.sessions)
maybe_spliced true id item r = splice_pending id item.device_id (lookup item.device_id r.queues) r
maybe_spliced false id item r = (refl, refl, refl)

abbrev pub Predicate : Type 1
Predicate = List (String × Session) → List (String × Item) → List (String × Outcome) → Type 0

-- The two moves, and the ends of sessions.
abbrev pub Rewrites : Predicate → Type 0
Rewrites P =
    (q : List (String × Session)) (p : List (String × Item)) (s : List (String × Outcome))
    (id : String) (item item' : Item)
    → lookup id p ≡ some item
    → IsSame item item'
    → P q p s
    → P q (store id item' p) s

abbrev pub Settles : Predicate → Type 0
Settles P =
    (q : List (String × Session)) (p : List (String × Item)) (s : List (String × Outcome))
    (id : String) (item : Item) (out : Outcome)
    → lookup id p ≡ some item
    → P q p s
    → P q (remove id p) (s ++ (id, out) ∷ [])

abbrev pub Drops : Predicate → Type 0
Drops P =
    (q : List (String × Session)) (p : List (String × Item)) (s : List (String × Outcome))
    (device : String)
    → P q p s
    → P (remove device q) p s

abbrev pub Clears : Predicate → Type 0
Clears P =
    (q : List (String × Session)) (p : List (String × Item)) (s : List (String × Outcome))
    → P q p s
    → P [] p s

module _ (P : Predicate) (rewrites : Rewrites P) (settles : Settles P) where
  abbrev pub Keeps : Relay → Type 0
  Keeps r = P r.sessions r.pending r.settled

  pub settle-Keeps :
      (id : String) (item : Item) (out : Outcome) (r : Relay)
      → lookup id r.pending ≡ some item
      → Keeps r
      → Keeps (settle id out r)
  settle-Keeps id item out r e h = settles r.sessions r.pending r.settled id item out e h

  reject_found-Keeps :
      (id : String) (why : RelayError) (o : Option Item) (r : Relay)
      → lookup id r.pending ≡ o
      → Keeps r
      → Keeps (reject_found id why o r)
  unfolding reject_found
  reject_found-Keeps id why none r e h = h
  reject_found-Keeps id why (some item) r e h =
      let m = maybe_spliced item.queued id item r in
      rw (m.0, m.1, m.2) (settles r.sessions r.pending r.settled id item (rejected why) e h)

  pub reject-Keeps :
      (id : String) (why : RelayError) (r : Relay) → Keeps r → Keeps (reject_pending id why r)
  unfolding reject_pending
  reject-Keeps id why r h = reject_found-Keeps id why (lookup id r.pending) r refl h

  cancel_found-Keeps :
      (device : String) (why : RelayError) (o : Option Waiter) (r : Relay)
      → Keeps r
      → Keeps (cancel_found device why o r)
  cancel_found-Keeps device why none r h = h
  cancel_found-Keeps device why (some w) r h = h

  pub cancel-Keeps :
      (device : String) (why : RelayError) (r : Relay) → Keeps r → Keeps (cancel_poll device why r)
  unfolding cancel_poll
  cancel-Keeps device why r h = cancel_found-Keeps device why (lookup device r.waiters) r h

  pub with_item-Keeps :
      (id : String) (item item' : Item) (r : Relay)
      → lookup id r.pending ≡ some item
      → IsSame item item'
      → Keeps r
      → Keeps (with_item id item' r)
  with_item-Keeps id item item' r e same h =
      rewrites r.sessions r.pending r.settled id item item' e same h

  take_item-Keeps :
      (epoch : ℕ) (runtime : String) (now : ℕ) (id : String) (item : Item) (r : Relay)
      → lookup id r.pending ≡ some item
      → Keeps r
      → Keeps (take_item epoch runtime now id item r).1
  unfolding take_item
  take_item-Keeps epoch runtime now id item r e h =
      let k =
        with_item-Keeps id item (record item { queued = false }) r e
          (record { account = refl; device = refl; runtime = refl }) h in
      elim (Bool-cases
        (not (item.runtime_id == runtime) || not (nat_eq item.connection_epoch epoch))) [
          | inl t ↦ rw t k
          | inr t ↦ elim (Bool-cases (leb item.deadline now)) [
            | inl l ↦ rw (t, l) (reject-Keeps id request_deadline_exceeded _ k)
            | inr l ↦ rw (t, l) k
          ]
        ]

  take_found-Keeps :
      (epoch : ℕ) (runtime : String) (now : ℕ) (id : String) (o : Option Item) (r : Relay)
      → lookup id r.pending ≡ o
      → Keeps r
      → Keeps (take_found epoch runtime now id o r).1
  unfolding take_found
  take_found-Keeps epoch runtime now id none r e h = h
  take_found-Keeps epoch runtime now id (some item) r e h =
      take_item-Keeps epoch runtime now id item r e h

  take_head-Keeps :
      (epoch : ℕ) (runtime : String) (now : ℕ) (id : String) (r : Relay)
      → Keeps r
      → Keeps (take_head epoch runtime now id r).1
  unfolding take_head
  take_head-Keeps epoch runtime now id r h =
      take_found-Keeps epoch runtime now id (lookup id r.pending) r refl h

  or_go_on-Keeps :
      (t : Option Envelope × Relay) (rest : Relay → Option Envelope × Relay)
      → Keeps t.1
      → ((r : Relay) → Keeps r → Keeps (rest r).1)
      → Keeps (or_go_on t rest).1
  or_go_on-Keeps (none, r) rest h k = k r h
  or_go_on-Keeps (some e, r) rest h k = h

  dequeue_on-Keeps :
      (device : String) (epoch : ℕ) (runtime : String) (now : ℕ) (ids : List String) (r : Relay)
      → Keeps r
      → Keeps (dequeue device epoch runtime now ids r).1
  unfolding dequeue
  dequeue_on-Keeps device epoch runtime now [] r h = h
  dequeue_on-Keeps device epoch runtime now (id ∷ ids) r h =
      or_go_on-Keeps (take_head epoch runtime now id _) _ (take_head-Keeps epoch runtime now id _ h)
        (λ r' h'. dequeue_on-Keeps device epoch runtime now ids r' h')

  pub dequeue-Keeps :
      (device : String) (epoch : ℕ) (runtime : String) (now : ℕ) (r : Relay)
      → Keeps r
      → Keeps (dequeue_envelope device epoch runtime now r).1
  unfolding dequeue_envelope
  dequeue-Keeps device epoch runtime now r h =
      dequeue_on-Keeps device epoch runtime now (queue_of device r) r h

  deliver-Keeps :
      (device : String) (w : Waiter) (t : Option Envelope × Relay)
      → Keeps t.1
      → Keeps (deliver device w t)
  deliver-Keeps device w (none, r) h = h
  deliver-Keeps device w (some e, r) h = h

  serve-Keeps :
      (device : String) (now : ℕ) (o : Option Waiter) (r : Relay)
      → Keeps r
      → Keeps (serve_found device now o r)
  unfolding serve_found
  serve-Keeps device now none r h = h
  serve-Keeps device now (some w) r h =
      deliver-Keeps device w (dequeue_envelope device w.epoch w.runtime_id now r)
        (dequeue-Keeps device w.epoch w.runtime_id now r h)

  queue_found-Keeps :
      (id : String) (now : ℕ) (o : Option Item) (r : Relay)
      → lookup id r.pending ≡ o
      → Keeps r
      → Keeps (queue_found id now o r)
  unfolding queue_found
  queue_found-Keeps id now none r e h = h
  queue_found-Keeps id now (some item) r e h = elim (Bool-cases item.queued) [
    | inl q ↦ rw q h
    | inr q ↦ rw q (
        serve-Keeps item.device_id now _ (enqueue id item r) (
          with_item-Keeps id item (record item { queued = true }) r e
            (record { account = refl; device = refl; runtime = refl }) h))
  ]

  pub queue-Keeps : (id : String) (now : ℕ) (r : Relay) → Keeps r → Keeps (queue_request id now r)
  unfolding queue_request
  queue-Keeps id now r h = queue_found-Keeps id now (lookup id r.pending) r refl h
