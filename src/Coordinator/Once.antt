-- ===== src/Coordinator/Once.antt =====
-- Every control is taken once and answered once (src/protocol-integrity.js).
use mathlib.Core.Path.{subst}
use chatgpt_codex_orchestrat.Prelude.{
  ℕ, ◌≤◌, String, ◌≡◌, ◌≢◌, ◌⊎◌, inl, inr, refl, sym, ap, ◌∙◌, Bool, true, false, Option, none,
  some, List, [], ◌∷◌, ◌++◌, if◌then◌else◌, ◌==◌, eq_iff, leb, arith,
}
use chatgpt_codex_orchestrat.Coordinator.State.{Sequence, natural, RunResult, Metrics, Run}
use chatgpt_codex_orchestrat.Coordinator.{
  same, take_control, acknowledge, keep_result, same_sequence,
}
use chatgpt_codex_orchestrat.Table.{
  is_in, lookup, store, lookup-store, lookup-store_other, is_in-append, Distinct, append-Distinct,
}

chosen {ℓ} :
    {A : Type ℓ} (b : Bool) (x y : String) (a c : A) (o : Option A)
    → (b ≡ true → x ≡ y)
    → (if b then some a else o) ≡ some c
    → ((x ≡ y) × (a ≡ c)) ⊎ (o ≡ some c)
chosen true x y a c o f e = inl (f refl, cc)
chosen false x y a c o f e = inr e

stored-found {ℓ} :
    {A : Type ℓ} (x y : String) (a c : A) (xs : List (String × A))
    → lookup y (store x a xs) ≡ some c
    → ((x ≡ y) × (a ≡ c)) ⊎ (lookup y xs ≡ some c)
stored-found x y a c xs e =
    chosen (x == y) x y a c (lookup y xs) (λ t. (eq_iff x y).0 t) (sym (lookup-store x y a xs) ∙ e)

pub same_sequence-natural : (n : ℕ) (s : Sequence) → same_sequence n s ≡ true → s ≡ natural n
same_sequence-natural n s e = ground arith

pub same-some : (x : String) (o : Option String) → same (some x) o ≡ true → o ≡ some x
same-some x none e = absurd (cc)
same-some x (some y) e = ground (arith, eq_iff x y)

pub same-same : (o p : Option String) → same o p ≡ true → o ≡ p
same-same none none e = refl
same-same none (some y) e = absurd (cc)
same-same (some x) none e = absurd (cc)
same-same (some x) (some y) e = ground (arith, eq_iff x y)

module _ (hash : RunResult → String) where
  -- The result answers a control that was taken, with its sequence number, and has its own hash.
  abbrev pub Answers : RunResult → List (String × ℕ) → Type 0
  Answers r controls =
      (c : String) × (n : ℕ) × (r.in_reply_to ≡ some c)
      × (lookup c controls ≡ some n)
      × (r.sequence ≡ natural n)
      × (r.payload_hash ≡ some (hash r))

  pub record IsOnce (st : Run) : Type 0 where
    pub controls_distinct : Distinct st.processed_controls
    pub results_distinct : Distinct st.processed_results
    pub control_known :
        (c : String) → is_in c st.processed_controls ≡ false → lookup c st.controls ≡ none
    pub control_bounded :
        (c : String) (n : ℕ) → lookup c st.controls ≡ some n → n ≤ st.last_accepted_sequence
    pub open_last :
        (c : String)
        → st.outstanding ≡ some c
        → lookup c st.controls ≡ some st.last_accepted_sequence
    pub open_unanswered :
        (c id : String) (r : RunResult)
        → st.outstanding ≡ some c
        → lookup id st.results ≡ some r
        → r.in_reply_to ≢ some c
    pub result_known :
        (id : String) → is_in id st.processed_results ≡ false → lookup id st.results ≡ none
    pub result_answers :
        (id : String) (r : RunResult) → lookup id st.results ≡ some r → Answers r st.controls
    pub one_answer :
        (i j c : String) (r q : RunResult)
        → lookup i st.results ≡ some r
        → lookup j st.results ≡ some q
        → r.in_reply_to ≡ some c
        → q.in_reply_to ≡ some c
        → i ≡ j
    pub acked_known :
        (id : String) → is_in id st.acknowledged_results ≡ true → lookup id st.results ≢ none

  pub counted-IsOnce : (m : Metrics) (st : Run) → IsOnce st → IsOnce (record st { metrics = m })
  counted-IsOnce m st h = record {
    controls_distinct = h.controls_distinct;
    results_distinct = h.results_distinct;
    control_known = h.control_known;
    control_bounded = h.control_bounded;
    open_last = h.open_last;
    open_unanswered = h.open_unanswered;
    result_known = h.result_known;
    result_answers = h.result_answers;
    one_answer = h.one_answer;
    acked_known = h.acked_known;
  }

  taken-known :
      (id c : String) (n : ℕ) (st : Run)
      → IsOnce st
      → is_in c (st.processed_controls ++ id ∷ []) ≡ false
      → lookup c (store id n st.controls) ≡ none
  taken-known id c n st h e = ground (
    arith,
    is_in-append c id st.processed_controls,
    lookup-store id c n st.controls,
    h.control_known c,
  )

  taken-bounded :
      (id c : String) (n m : ℕ) (st : Run)
      → IsOnce st
      → leb n st.last_accepted_sequence ≡ false
      → lookup c (store id n st.controls) ≡ some m
      → m ≤ n
  taken-bounded id c n m st h l e =
      ground (arith, lookup-store id c n st.controls, h.control_bounded c m)

  pub taken-IsOnce :
      (id : String) (n : ℕ) (st : Run)
      → is_in id st.processed_controls ≡ false
      → leb n st.last_accepted_sequence ≡ false
      → IsOnce st
      → IsOnce (take_control id n st).1
  taken-IsOnce id n st f l h =
      let new = h.control_known id f in
      record {
        controls_distinct = append-Distinct id st.processed_controls f h.controls_distinct;
        results_distinct = h.results_distinct;
        control_known = λ c e. taken-known id c n st h e;
        control_bounded = λ c m e. taken-bounded id c n m st h l e;
        open_last = λ c e. ground (arith, lookup-store id c n st.controls, eq_iff id c);
        open_unanswered = λ c i r e k a. let s = h.result_answers i r k in cc;
        result_known = h.result_known;
        result_answers = λ i r e.
            let s = h.result_answers i r e in
            (s.0, s.1, s.2, lookup-store_other id s.0 n s.1 st.controls new s.3, s.4, s.5);
        one_answer = h.one_answer;
        acked_known = h.acked_known;
      }

  pub acknowledged-IsOnce :
      (ack : String) (r : RunResult) (st : Run)
      → lookup ack st.results ≡ some r
      → IsOnce st
      → IsOnce (acknowledge ack st)
  acknowledged-IsOnce ack r st e h = record {
    controls_distinct = h.controls_distinct;
    results_distinct = h.results_distinct;
    control_known = h.control_known;
    control_bounded = h.control_bounded;
    open_last = h.open_last;
    open_unanswered = h.open_unanswered;
    result_known = h.result_known;
    result_answers = h.result_answers;
    one_answer = h.one_answer;
    acked_known = λ i k n.
        ground (arith, eq_iff ack i, is_in-append i ack st.acknowledged_results, h.acked_known i);
  }

  pub kept-IsOnce :
      (id c : String) (n : ℕ) (r : RunResult) (st : Run)
      → is_in id st.processed_results ≡ false
      → st.outstanding ≡ some c
      → Answers r st.controls
      → r.in_reply_to ≡ some c
      → IsOnce st
      → IsOnce (keep_result id r st).1
  kept-IsOnce id c n r st f o a s h = record {
    controls_distinct = h.controls_distinct;
    results_distinct = append-Distinct id st.processed_results f h.results_distinct;
    control_known = h.control_known;
    control_bounded = h.control_bounded;
    open_last = λ d e. absurd (cc);
    open_unanswered = λ d i q e k. absurd (cc);
    result_known = λ i e. ground (
      arith,
      is_in-append i id st.processed_results,
      lookup-store id i r st.results,
      h.result_known i,
    );
    result_answers = λ i q e. elim (stored-found id i r q st.results e) [
      | inl new ↦ subst (λ x. Answers x st.controls) new.1 a
      | inr old ↦ h.result_answers i q old
    ];
    one_answer = λ i j d p q e k u v. elim (stored-found id i r p st.results e) [
      | inl new ↦ elim (stored-found id j r q st.results k) [
        | inl new' ↦ sym new.0 ∙ new'.0
        | inr old ↦
            absurd
              (h.open_unanswered c j q o old (v ∙ sym u ∙ ap (λ x. x.in_reply_to) (sym new.1) ∙ s))
      ]
      | inr old ↦ elim (stored-found id j r q st.results k) [
        | inl new ↦
            absurd
              (h.open_unanswered c i p o old (u ∙ sym v ∙ ap (λ x. x.in_reply_to) (sym new.1) ∙ s))
        | inr old' ↦ h.one_answer i j d p q old old' u v
      ]
    ];
    acked_known = λ i k n. ground (arith, lookup-store id i r st.results, h.acked_known i);
  }
