-- ===== src/Coordinator/Accept.antt =====
-- What the coordinator makes of one control (src/protocol-integrity.js).
use text.Mathlib.TextPositions.{eq_refl}
use chatgpt_codex_orchestrat.Prelude.{
  ℕ, ◌<◌, ◌≤◌, ◌≢◌, sym, ◌∙◌, true, String, ◌≡◌, ◌⊎◌, inl, inr, refl, false, Option, none, some,
  truthy, leb, arith, Bool-cases,
}
use chatgpt_codex_orchestrat.Table.{is_in, lookup}
use chatgpt_codex_orchestrat.Coordinator.State.{
  Sequence, natural, negative, not_integer, Envelope, RunResult, Metrics, Run, Reply, accepted,
  Rejected, rejected, invalid_envelope, run_mismatch, stale_sequence, other_outstanding,
  already_processed, unknown_ack,
}
use chatgpt_codex_orchestrat.Coordinator.{
  is_valid_envelope, other_run, other_open, ack_found, take_acked, take_new, take_valid,
  take_control, acknowledge, same, accept_control,
}

-- The control was accepted, and is new in its sequence number and its id.
abbrev pub IsTaken : Option String → Sequence → Run → Reply × Run → Type 0
IsTaken cid s st r =
    (id : String) × (n : ℕ) × (r.0 ≡ accepted n)
    × (cid ≡ some id)
    × (s ≡ natural n)
    × (st.last_accepted_sequence < n)
    × (is_in id st.processed_controls ≡ false)
    × (r.1.outstanding ≡ some id)
    × (r.1.last_accepted_sequence ≡ n)

natural_same : (n k : ℕ) → natural n ≡ natural k → n ≡ k
natural_same n k e = cc

apart_sign : (n k : ℕ) → negative n ≢ natural k
apart_sign n k e = cc

-- The control is at fault in the way that the reason says.
abbrev pub Because : Envelope → Run → Rejected → Type 0
Because env st invalid_envelope = is_valid_envelope env ≡ false
Because env st run_mismatch = st.run_id ≢ env.run_id
Because env st stale_sequence = (n : ℕ) → env.sequence ≡ natural n → n ≤ st.last_accepted_sequence
Because env st other_outstanding = (st.outstanding ≢ none) × (st.outstanding ≢ env.control_id)
Because env st already_processed =
    (id : String) × (env.control_id ≡ some id) × (is_in id st.processed_controls ≡ true)
Because env st unknown_ack =
    (ack : String) × (env.ack_result_id ≡ some ack) × (lookup ack st.results ≡ none)
Because env st _ = ⊥

-- The control was rejected for a reason that holds, and nothing but the metrics has changed.
abbrev pub IsRefused : Envelope → Run → Reply × Run → Type 0
IsRefused env st r =
    ((why : Rejected) × (r.0 ≡ rejected why) × Because env st why)
    × ((m : Metrics) × (r.1 ≡ record st { metrics = m }))

abbrev Outcome : Envelope → Run → Reply × Run → Type 0
Outcome env st r = IsTaken env.control_id env.sequence st r ⊎ IsRefused env st r

same_self : (o : Option String) → same o o ≡ true
same_self none = refl
same_self (some s) = eq_refl s

other_run-apart : (mine theirs : Option String) → other_run mine theirs ≡ true → mine ≢ theirs
other_run-apart mine theirs h e = ground (arith, same_self mine)

other_open-apart :
    (current : Option String) (id : String)
    → other_open current id ≡ true
    → (current ≢ none) × (current ≢ some id)
other_open-apart none id h = absurd (cc)
other_open-apart (some s) id h = (λ e. cc, λ e. ground (arith, eq_refl id))

above : (n m : ℕ) → leb n m ≡ false → m < n
above n m e = ground arith

at_most : (n m k : ℕ) (s : Sequence) → leb n m ≡ true → s ≡ natural n → s ≡ natural k → k ≤ m
at_most n m k s h e f = ground (arith, natural_same n k (sym e ∙ f))

module _ (env : Envelope) (id : String) (n : ℕ) (st : Run) where
  -- the control is new, and has this id and this number
  record IsNew : Type 0 where
    pub control_id : env.control_id ≡ some id
    pub sequence : env.sequence ≡ natural n
    pub above : st.last_accepted_sequence < n
    pub fresh : is_in id st.processed_controls ≡ false

  taken-Outcome : (st' : Run) → IsNew → Outcome env st (take_control id n st')
  taken-Outcome st' h = inl (id, n, refl, h.control_id, h.sequence, h.above, h.fresh, refl, refl)

  ack_found-Outcome :
      (ack : String) (o : Option RunResult)
      → IsNew
      → env.ack_result_id ≡ some ack
      → lookup ack st.results ≡ o
      → Outcome env st (ack_found id n ack st o)
  ack_found-Outcome ack none h a l = inr ((unknown_ack, refl, (ack, a, l)), (_, refl))
  ack_found-Outcome ack (some r) h a l = taken-Outcome (acknowledge ack st) h

  take_acked-Outcome :
      (ack : Option String)
      → IsNew
      → env.ack_result_id ≡ ack
      → Outcome env st (take_acked id n ack st)
  unfolding take_acked
  take_acked-Outcome none h a = taken-Outcome st h
  take_acked-Outcome (some ack) h a = elim (Bool-cases (truthy ack)) [
    | inl t ↦ rw t (ack_found-Outcome ack (lookup ack st.results) h a refl)
    | inr t ↦ rw t (taken-Outcome st h)
  ]

  take_new-Outcome :
      env.control_id ≡ some id
      → env.sequence ≡ natural n
      → Outcome env st (take_new id n env.ack_result_id st)
  unfolding take_new
  take_new-Outcome c s = elim (Bool-cases (leb n st.last_accepted_sequence)) [
    | inl old ↦ rw old (
        inr (
          (stale_sequence, refl, λ k e. at_most n st.last_accepted_sequence k env.sequence old s e),
          (_, refl),
        ))
    | inr l ↦ elim (Bool-cases (other_open st.outstanding id)) [
      | inl busy ↦
          let a = other_open-apart st.outstanding id busy in
          rw (l, busy) (inr ((other_outstanding, refl, (a.0, λ e. a.1 (e ∙ c))), (_, refl)))
      | inr free ↦ elim (Bool-cases (is_in id st.processed_controls)) [
        | inl again ↦
            rw (l, free, again) (inr ((already_processed, refl, (id, c, again)), (_, refl)))
        | inr f ↦
            rw (l, free, f)
              (take_acked-Outcome env.ack_result_id
                (record {
                  control_id = c;
                  sequence = s;
                  above = above n st.last_accepted_sequence l;
                  fresh = f;
                })
                refl)
      ]
    ]
  ]

-- an envelope without an id or an integer is not valid
no_id : (env : Envelope) → is_valid_envelope env ≡ true → env.control_id ≢ none
unfolding is_valid_envelope
no_id env v e = ground arith

no_integer : (env : Envelope) → is_valid_envelope env ≡ true → env.sequence ≢ not_integer
unfolding is_valid_envelope
no_integer env v e = ground arith

take_valid-Outcome :
    (env : Envelope) (st : Run) (cid : Option String) (s : Sequence)
    → is_valid_envelope env ≡ true
    → env.control_id ≡ cid
    → env.sequence ≡ s
    → Outcome env st (take_valid cid s env.ack_result_id st)
unfolding take_valid
take_valid-Outcome env st none s v c q = absurd (no_id env v c)
take_valid-Outcome env st (some id) not_integer v c q = absurd (no_integer env v q)
take_valid-Outcome env st (some id) (negative n) v c q =
    inr ((stale_sequence, refl, λ k e. absurd (apart_sign n k (sym q ∙ e))), (_, refl))
take_valid-Outcome env st (some id) (natural n) v c q = take_new-Outcome env id n st c q

-- A control is accepted or rejected. One that is accepted has a sequence number above the last accepted
-- one, with which it is answered, and an id that was not processed before; it is outstanding now, and
-- its number is the last accepted one. One that is rejected changes the metrics at most, and has the
-- fault that the answer names: the envelope is not valid, or is of another run; its sequence number is
-- not above the last accepted one; another control is outstanding; its id was processed before; or it
-- acknowledges a result that is not known.
pub accept_control-IsTaken :
    (env : Envelope) (st : Run)
    → IsTaken env.control_id env.sequence st (accept_control env st)
      ⊎ IsRefused env st (accept_control env st)
unfolding accept_control
accept_control-IsTaken env st = elim (Bool-cases (is_valid_envelope env)) [
  | inr bad ↦ rw bad (inr ((invalid_envelope, refl, bad), (st.metrics, refl)))
  | inl good ↦ elim (Bool-cases (other_run st.run_id env.run_id)) [
    | inl other ↦
        rw (good, other)
          (inr
            ((run_mismatch, refl, other_run-apart st.run_id env.run_id other), (st.metrics, refl)))
    | inr ours ↦
        rw (good, ours) (take_valid-Outcome env st env.control_id env.sequence good refl refl)
  ]
]
