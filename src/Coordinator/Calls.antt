-- ===== src/Coordinator/Calls.antt =====
-- The invariant of the coordinator over its calls (src/protocol-integrity.js).
use chatgpt_codex_orchestrat.Prelude.{
  ℕ, String, ◌≡◌, inl, inr, refl, sym, false, not, ◌||◌, Option, none, some, List, [], ◌∷◌, truthy,
  leb, Bool-cases,
}
use chatgpt_codex_orchestrat.Governance.State.{given}
use chatgpt_codex_orchestrat.Table.{is_in, lookup}
use chatgpt_codex_orchestrat.Coordinator.State.{
  Sequence, natural, negative, not_integer, Envelope, RunResult, Run, new_run,
}
use chatgpt_codex_orchestrat.Coordinator.{
  is_valid_envelope, same, other_run, other_open, acknowledge, ack_found, take_acked, take_new,
  take_valid, accept_control, duplicate_of, reply_found, same_sequence, control_at, new_result,
  result_of, RunCall, control_of, reply_of, retransmit_of, retransmit, run_call,
}
use chatgpt_codex_orchestrat.Coordinator.Once.{
  IsOnce, counted-IsOnce, taken-IsOnce, acknowledged-IsOnce, kept-IsOnce, same_sequence-natural,
  same-some, same-same,
}

module _ (hash : RunResult → String) where
  ack_found-IsOnce :
      (id : String) (n : ℕ) (ack : String) (st : Run) (o : Option RunResult)
      → lookup ack st.results ≡ o
      → is_in id st.processed_controls ≡ false
      → leb n st.last_accepted_sequence ≡ false
      → IsOnce hash st
      → IsOnce hash (ack_found id n ack st o).1
  ack_found-IsOnce id n ack st none e f l h = counted-IsOnce hash _ st h
  ack_found-IsOnce id n ack st (some r) e f l h =
      taken-IsOnce hash id n (acknowledge ack st) f l (acknowledged-IsOnce hash ack r st e h)

  take_acked-IsOnce :
      (id : String) (n : ℕ) (ack : Option String) (st : Run)
      → is_in id st.processed_controls ≡ false
      → leb n st.last_accepted_sequence ≡ false
      → IsOnce hash st
      → IsOnce hash (take_acked id n ack st).1
  unfolding take_acked
  take_acked-IsOnce id n none st f l h = taken-IsOnce hash id n st f l h
  take_acked-IsOnce id n (some ack) st f l h = elim (Bool-cases (truthy ack)) [
    | inl t ↦ rw t (ack_found-IsOnce id n ack st (lookup ack st.results) refl f l h)
    | inr t ↦ rw t (taken-IsOnce hash id n st f l h)
  ]

  take_new-IsOnce :
      (id : String) (n : ℕ) (ack : Option String) (st : Run)
      → IsOnce hash st
      → IsOnce hash (take_new id n ack st).1
  unfolding take_new
  take_new-IsOnce id n ack st h = elim (Bool-cases (leb n st.last_accepted_sequence)) [
    | inl old ↦ rw old (counted-IsOnce hash _ st h)
    | inr l ↦ elim (Bool-cases (other_open st.outstanding id)) [
      | inl busy ↦ rw (l, busy) (counted-IsOnce hash _ st h)
      | inr free ↦ elim (Bool-cases (is_in id st.processed_controls)) [
        | inl again ↦ rw (l, free, again) (counted-IsOnce hash _ st h)
        | inr f ↦ rw (l, free, f) (take_acked-IsOnce id n ack st f l h)
      ]
    ]
  ]

  take_valid-IsOnce :
      (id : Option String) (s : Sequence) (ack : Option String) (st : Run)
      → IsOnce hash st
      → IsOnce hash (take_valid id s ack st).1
  unfolding take_valid
  take_valid-IsOnce none s ack st h = h
  take_valid-IsOnce (some id) not_integer ack st h = h
  take_valid-IsOnce (some id) (negative n) ack st h = counted-IsOnce hash _ st h
  take_valid-IsOnce (some id) (natural n) ack st h = take_new-IsOnce id n ack st h

  accept-IsOnce :
      (env : Envelope) (st : Run) → IsOnce hash st → IsOnce hash (accept_control env st).1
  unfolding accept_control
  accept-IsOnce env st h = elim (Bool-cases (is_valid_envelope env)) [
    | inr bad ↦ rw bad h
    | inl good ↦ elim (Bool-cases (other_run st.run_id env.run_id)) [
      | inl other ↦ rw (good, other) h
      | inr ours ↦
          rw (good, ours) (take_valid-IsOnce env.control_id env.sequence env.ack_result_id st h)
    ]
  ]

  duplicate-IsOnce :
      (r : RunResult) (st : Run) (o : Option RunResult)
      → IsOnce hash st
      → IsOnce hash (duplicate_of r st o).1
  duplicate-IsOnce r st none h = counted-IsOnce hash _ st h
  duplicate-IsOnce r st (some p) h =
      elim (Bool-cases
        (not (same p.payload_hash r.payload_hash) || not (same p.in_reply_to r.in_reply_to))) [
          | inl differs ↦ rw differs (counted-IsOnce hash _ st h)
          | inr agrees ↦ rw agrees (counted-IsOnce hash _ st h)
        ]

  reply-IsOnce :
      (id : String) (r : RunResult) (st : Run) (c : Option String)
      → is_in id st.processed_results ≡ false
      → r.in_reply_to ≡ c
      → st.outstanding ≡ c
      → r.payload_hash ≡ some (hash r)
      → IsOnce hash st
      → IsOnce hash (reply_found id r st (control_at c st.controls)).1
  reply-IsOnce id r st none f e o p h = counted-IsOnce hash _ st h
  reply-IsOnce id r st (some c) f e o p h = found (lookup c st.controls) refl
    where
      found : (m : Option ℕ) → lookup c st.controls ≡ m → IsOnce hash (reply_found id r st m).1
      found none k = counted-IsOnce hash _ st h
      found (some n) k = elim (Bool-cases (same_sequence n r.sequence)) [
        | inr differs ↦ rw differs (counted-IsOnce hash _ st h)
        | inl agrees ↦ rw agrees (
            kept-IsOnce hash id c n r st f o
              (c, n, e, k, same_sequence-natural n r.sequence agrees, p) e h)
      ]

  new_result-IsOnce :
      (id : String) (r : RunResult) (st : Run)
      → is_in id st.processed_results ≡ false
      → IsOnce hash st
      → IsOnce hash (new_result hash id r st).1
  unfolding new_result
  new_result-IsOnce id r st f h = elim (Bool-cases (given r.payload_hash)) [
    | inr no_hash ↦ rw no_hash h
    | inl g ↦ elim (Bool-cases (same (some (hash r)) r.payload_hash)) [
      | inr wrong ↦ rw (g, wrong) (counted-IsOnce hash _ st h)
      | inl right ↦ elim (Bool-cases (same r.in_reply_to st.outstanding)) [
        | inr late ↦ rw (g, right, late) (counted-IsOnce hash _ st h)
        | inl on_time ↦
            rw (g, right, on_time)
              (reply-IsOnce id r st r.in_reply_to f refl
                (sym (same-same r.in_reply_to st.outstanding on_time))
                (same-some (hash r) r.payload_hash right) h)
      ]
    ]
  ]

  result-IsOnce :
      (o : Option String) (r : RunResult) (st : Run)
      → IsOnce hash st
      → IsOnce hash (result_of hash o r st).1
  unfolding result_of
  result-IsOnce none r st h = elim (Bool-cases (other_run st.run_id r.run_id)) [
    | inl other ↦ rw other h
    | inr ours ↦ rw ours h
  ]
  result-IsOnce (some id) r st h = elim (Bool-cases (is_in id st.processed_results)) [
    | inl again ↦ rw again (duplicate-IsOnce r st (lookup id st.results) h)
    | inr f ↦ elim (Bool-cases (other_run st.run_id r.run_id)) [
      | inl other ↦ rw (f, other) h
      | inr ours ↦ elim (Bool-cases (truthy id)) [
        | inl t ↦ rw (f, ours, t) (new_result-IsOnce id r st f h)
        | inr t ↦ rw (f, ours, t) h
      ]
    ]
  ]

  -- The state of the run after a list of calls.
  abbrev pub after_calls : Run → List RunCall → Run
  after_calls st [] = st
  after_calls st (c ∷ cs) = after_calls (run_call hash st c).1 cs

  calls-IsOnce : (st : Run) (cs : List RunCall) → IsOnce hash st → IsOnce hash (after_calls st cs)
  unfolding run_call
  calls-IsOnce st [] h = h
  calls-IsOnce st (control_of env ∷ cs) h =
      calls-IsOnce (accept_control env st).1 cs (accept-IsOnce env st h)
  calls-IsOnce st (reply_of r ∷ cs) h =
      calls-IsOnce (result_of hash r.result_id r st).1 cs (result-IsOnce r.result_id r st h)
  calls-IsOnce st (retransmit_of r ∷ cs) h =
      calls-IsOnce (retransmit r st).1 cs (unfold retransmit in counted-IsOnce hash _ st h)

  new-IsOnce : (id : Option String) → IsOnce hash (new_run id)
  unfolding lookup is_in
  new-IsOnce id = record {
    controls_distinct = tt;
    results_distinct = tt;
    control_known = λ c e. refl;
    control_bounded = λ c n e. absurd (cc);
    open_last = λ c e. absurd (cc);
    open_unanswered = λ c i r e k. absurd (cc);
    result_known = λ i e. refl;
    result_answers = λ i r e. absurd (cc);
    one_answer = λ i j c r q e. absurd (cc);
    acked_known = λ i e. absurd (cc);
  }

  -- After any controls and results of a new run: no control is processed twice and no result is; no
  -- control has a sequence number above the last one accepted; the outstanding control is the last
  -- one accepted and has no result; every result that is kept answers a processed control, with its
  -- sequence number and its own hash; no control has two results; and whatever is acknowledged was
  -- kept.
  pub run_calls-IsOnce :
      (id : Option String) (cs : List RunCall) → IsOnce hash (after_calls (new_run id) cs)
  run_calls-IsOnce id cs = calls-IsOnce (new_run id) cs (new-IsOnce id)
