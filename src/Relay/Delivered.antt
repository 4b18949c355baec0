-- ===== src/Relay/Delivered.antt =====
-- What a poll is given of the queue of its device (src/relay/core.js).
use mathlib.Core.Path.{subst}
use chatgpt_codex_orchestrat.Prelude.{
  ℕ, ◌<◌, String, ◌≡◌, ◌≢◌, inl, inr, refl, ◌∙◌, true, false, not, ◌||◌, Option, none, some,
  some-injective, List, [], ◌∷◌, ◌==◌, eq_iff, leb, nat_eq, arith, Bool-cases, differ,
}
use chatgpt_codex_orchestrat.Table.{is_in, lookup, store, lookup-store, lookup-remove}
use chatgpt_codex_orchestrat.Relay.{
  RelayError, request_deadline_exceeded, Item, Envelope, Relay, reject_found, reject_pending,
  envelope_of, take_item, take_found, take_head, or_go_on, dequeue, dequeue_envelope, queue_of,
}
use chatgpt_codex_orchestrat.Relay.Frame.{maybe_spliced}

reject_found-lookup :
    (id k : String) (why : RelayError) (o : Option Item) (r : Relay)
    → id ≢ k
    → lookup k (reject_found id why o r).pending ≡ lookup k r.pending
unfolding reject_found
reject_found-lookup id k why none r n = refl
reject_found-lookup id k why (some item) r n =
    rw ((maybe_spliced item.queued id item r).0, lookup-remove, differ id k n) refl

reject-lookup :
    (id k : String) (why : RelayError) (r : Relay)
    → id ≢ k
    → lookup k (reject_pending id why r).pending ≡ lookup k r.pending
unfolding reject_pending
reject-lookup id k why r n = reject_found-lookup id k why (lookup id r.pending) r n

module _ (epoch : ℕ) (runtime : String) (now : ℕ) where
  -- The request is for this connection and its deadline has not passed.
  pub record IsDue (item : Item) : Type 0 where
    pub same_runtime : item.runtime_id ≡ runtime
    pub same_epoch : item.connection_epoch ≡ epoch
    pub in_time : now < item.deadline

  -- What a round may hand out.
  pub record IsGiven (e : Envelope) (r : Relay) : Type 0 where
    pub item : Item
    pub pending : lookup e.request_id r.pending ≡ some item
    pub due : IsDue item
    pub envelope : e ≡ envelope_of e.request_id item

  abbrev IsGiven? : Option Envelope × Relay → Type 0
  IsGiven? (none, r) = Unit
  IsGiven? (some e, r) = IsGiven e r

  -- The request that is due was handed out, or is still pending and due.
  abbrev IsServed : String → Option Envelope × Relay → Type 0
  IsServed id (none, r) = (item : Item) × (lookup id r.pending ≡ some item) × IsDue item
  IsServed id (some e, r) = Unit

  item_given :
      (id : String) (item : Item) (r : Relay) → IsGiven? (take_item epoch runtime now id item r)
  unfolding take_item
  item_given id item r =
      elim (Bool-cases
        (not (item.runtime_id == runtime) || not (nat_eq item.connection_epoch epoch))) [
          | inl t ↦ rw t tt
          | inr t ↦ elim (Bool-cases (leb item.deadline now)) [
            | inl l ↦ rw (t, l) tt
            | inr l ↦
                rw (t, l)
                  (record {
                    item = record item { queued = false };
                    pending = rw (lookup-store, (eq_iff id id).1 refl) refl;
                    due = record {
                      same_runtime = ground (arith, eq_iff item.runtime_id runtime);
                      same_epoch = ground arith;
                      in_time = ground arith;
                    };
                    envelope = refl;
                  })
          ]
        ]

  due_item :
      (item : Item)
      → IsDue item
      → ((not (item.runtime_id == runtime) || not (nat_eq item.connection_epoch epoch)) ≡ false)
        × (leb item.deadline now ≡ false)
  due_item item d =
      let a = d.same_runtime in
      let b = d.same_epoch in
      let c = d.in_time in (ground (arith, eq_iff item.runtime_id runtime), ground arith)

  other-IsServed :
      (id k : String) (item due : Item) (r : Relay)
      → id ≢ k
      → lookup k r.pending ≡ some due
      → IsDue due
      → IsServed k (take_item epoch runtime now id item r)
  unfolding take_item
  other-IsServed id k item due r n f d =
      let stays : lookup k (store id (record item { queued = false }) r.pending) ≡ some due =
        rw (lookup-store, differ id k n) f in
      elim (Bool-cases
        (not (item.runtime_id == runtime) || not (nat_eq item.connection_epoch epoch))) [
          | inl t ↦ rw t (due, stays, d)
          | inr t ↦ elim (Bool-cases (leb item.deadline now)) [
            | inl l ↦ rw (t, l) (due, reject-lookup id k request_deadline_exceeded _ n ∙ stays, d)
            | inr l ↦ rw (t, l) tt
          ]
        ]

  item-IsServed :
      (id k : String) (item due : Item) (r : Relay)
      → lookup id r.pending ≡ some item
      → lookup k r.pending ≡ some due
      → IsDue due
      → IsServed k (take_item epoch runtime now id item r)
  unfolding take_item
  item-IsServed id k item due r e f d = elim (Bool-cases (id == k)) [
    | inr n ↦ other-IsServed id k item due r (λ s. ground (arith, eq_iff id k)) f d
    | inl s ↦
        let same : item ≡ due = ground (arith, eq_iff id k) in
        let (t, l) = due_item due d in rw (same, t, l) tt
  ]

  head_given :
      (id : String) (o : Option Item) (r : Relay) → IsGiven? (take_found epoch runtime now id o r)
  unfolding take_found
  head_given id none r = tt
  head_given id (some item) r = item_given id item r

  head-IsServed :
      (id k : String) (due : Item) (o : Option Item) (r : Relay)
      → lookup id r.pending ≡ o
      → lookup k r.pending ≡ some due
      → IsDue due
      → IsServed k (take_found epoch runtime now id o r)
  unfolding take_found
  head-IsServed id k due none r e f d = (due, f, d)
  head-IsServed id k due (some item) r e f d = item-IsServed id k item due r e f d

  go_on_given :
      (t : Option Envelope × Relay) (rest : Relay → Option Envelope × Relay)
      → IsGiven? t
      → ((r : Relay) → IsGiven? (rest r))
      → IsGiven? (or_go_on t rest)
  go_on_given (none, r) rest h k = k r
  go_on_given (some e, r) rest h k = h

  queue_given :
      (device : String) (ids : List String) (r : Relay)
      → IsGiven? (dequeue device epoch runtime now ids r)
  unfolding dequeue take_head
  queue_given device [] r = tt
  queue_given device (id ∷ ids) r =
      go_on_given (take_head epoch runtime now id (record r { queues = store device ids r.queues }))
        _ (head_given id (lookup id r.pending) _) (λ r'. queue_given device ids r')

  abbrev HandsOut : Option Envelope × Relay → Type 0
  HandsOut (none, r) = ⊥
  HandsOut (some e, r) = Unit

  handed_out : (t : Option Envelope × Relay) → HandsOut t → t.0 ≢ none
  handed_out (none, r) h = absurd h
  handed_out (some e, r) h = λ n. cc

  own_handed :
      (id : String) (due : Item) (o : Option Item) (r : Relay)
      → o ≡ some due
      → IsDue due
      → HandsOut (take_found epoch runtime now id o r)
  unfolding take_found take_item
  own_handed id due none r e d = absurd (cc)
  own_handed id due (some item) r e d =
      let same : item ≡ due = some-injective e in let (t, l) = due_item due d in rw (same, t, l) tt

  go_on_handed :
      (t : Option Envelope × Relay) (rest : Relay → Option Envelope × Relay)
      → HandsOut t
      → HandsOut (or_go_on t rest)
  go_on_handed (none, r) rest h = absurd h
  go_on_handed (some e, r) rest h = tt

  go_on_handed_later :
      (k : String) (t : Option Envelope × Relay) (rest : Relay → Option Envelope × Relay)
      → IsServed k t
      → ((r : Relay) (due : Item) → lookup k r.pending ≡ some due → IsDue due → HandsOut (rest r))
      → HandsOut (or_go_on t rest)
  go_on_handed_later k (none, r) rest (due, f, d) h = h r due f d
  go_on_handed_later k (some e, r) rest s h = tt

  queue_handed :
      (device k : String) (ids : List String) (r : Relay) (due : Item)
      → is_in k ids ≡ true
      → lookup k r.pending ≡ some due
      → IsDue due
      → HandsOut (dequeue device epoch runtime now ids r)
  unfolding dequeue take_head is_in
  queue_handed device k [] r due i f d = absurd (cc)
  queue_handed device k (id ∷ ids) r due i f d =
      let r0 : Relay = record r { queues = store device ids r.queues } in
      elim (Bool-cases (id == k)) [
        | inl s ↦
            go_on_handed (take_head epoch runtime now id r0) _
              (own_handed id due (lookup id r.pending) r0 (ground (arith, eq_iff id k)) d)
        | inr n ↦
            go_on_handed_later k (take_head epoch runtime now id r0) _
              (head-IsServed id k due (lookup id r.pending) r0 refl f d)
              (λ r' due' f' d'. queue_handed device k ids r' due' (ground (arith, i)) f' d')
      ]

-- The loop over the queue of a device hands out a request if one in the queue is due: pending, for this
-- runtime and this connection, with its deadline ahead. And what it hands out is due, and still pending.
pub dequeue-IsDue :
    (device : String) (epoch : ℕ) (runtime : String) (now : ℕ) (r : Relay)
    → ((id : String) (item : Item)
        → is_in id (queue_of device r) ≡ true
        → lookup id r.pending ≡ some item
        → IsDue epoch runtime now item
        → (dequeue_envelope device epoch runtime now r).0 ≢ none)
      × ((e : Envelope) (r' : Relay)
          → dequeue_envelope device epoch runtime now r ≡ (some e, r')
          → IsGiven epoch runtime now e r')
unfolding dequeue_envelope
dequeue-IsDue device epoch runtime now r = (
  λ id item i f d.
      handed_out epoch runtime now _
        (queue_handed epoch runtime now device id (queue_of device r) r item i f d),
  λ e r' t.
      subst (IsGiven? epoch runtime now) t
        (queue_given epoch runtime now device (queue_of device r) r),
)
