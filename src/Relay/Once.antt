-- ===== src/Relay/Once.antt =====
-- Every request is answered once, and none is lost (src/relay/core.js).
use chatgpt_codex_orchestrat.Prelude.{
  String, ◌≡◌, ◌⊎◌, inl, inr, refl, sym, ap, ◌∙◌, true, false, Option, none, some, List, [], ◌∷◌,
  ◌++◌, ◌==◌, eq_iff, arith, Bool-cases,
}
use chatgpt_codex_orchestrat.Table.{
  is_in, lookup, store, remove, lookup-store, lookup-remove, is_in-append, Distinct,
  append-Distinct,
}
use chatgpt_codex_orchestrat.Relay.{Item, Outcome, Relay, no_requests}
use chatgpt_codex_orchestrat.Relay.Store.{Db}
use chatgpt_codex_orchestrat.Relay.Core.{Config, World, keys}
use chatgpt_codex_orchestrat.Relay.Calls.{Event, step, run}
use chatgpt_codex_orchestrat.Relay.Frame.{IsSame, Rewrites, Settles}
use chatgpt_codex_orchestrat.Relay.Events.{EntryKeeps, keeps_opening, entered_by, step-Keeps}

-- The ids that later events bring in.
abbrev pub cons_if : Option String → List String → List String
cons_if none ids = ids
cons_if (some id) ids = id ∷ ids

unfoldable pub entered : List Event → List String
entered [] = []
entered (e ∷ es) = cons_if (entered_by e) (entered es)

keys-append :
    (s : List (String × Outcome)) (id : String) (out : Outcome)
    → keys (s ++ (id, out) ∷ []) ≡ keys s ++ id ∷ []
keys-append [] id out = refl
keys-append ((k, o) ∷ s) id out = rw (keys-append s id out) refl

-- The answers are to distinct requests, none of which is pending, and an id that comes later is new.
pub record IsOnce (later : List String) (p : List (String × Item)) (s : List (String × Outcome))
    : Type 0 where
  pub distinct : Distinct (keys s)
  pub answered : (id : String) → is_in id (keys s) ≡ true → lookup id p ≡ none
  pub fresh :
      (id : String) → is_in id later ≡ true → (is_in id (keys s) ≡ false) × (lookup id p ≡ none)

stored_absent :
    (id k : String) (item item' : Item) (p : List (String × Item))
    → lookup id p ≡ some item
    → lookup k p ≡ none
    → lookup k (store id item' p) ≡ none
stored_absent id k item item' p e n = ground (arith, eq_iff id k, lookup-store id k item' p)

removed_absent :
    (id k : String) (p : List (String × Item)) → lookup k p ≡ none → lookup k (remove id p) ≡ none
removed_absent id k p n = ground (arith, lookup-remove id k p)

module _ (later : List String) where
  rewritten-IsOnce : Rewrites (λ q p s. IsOnce later p s)
  rewritten-IsOnce q p s id item item' e same h = record {
    distinct = h.distinct;
    answered = λ k i. stored_absent id k item item' p e (h.answered k i);
    fresh = λ k i. ((h.fresh k i).0, stored_absent id k item item' p e (h.fresh k i).1);
  }

  pending_unanswered :
      (p : List (String × Item)) (s : List (String × Outcome)) (id : String) (item : Item)
      → lookup id p ≡ some item
      → IsOnce later p s
      → is_in id (keys s) ≡ false
  pending_unanswered p s id item e h = elim (Bool-cases (is_in id (keys s))) [
    | inr f ↦ f
    | inl t ↦ let n = h.answered id t in absurd (cc)
  ]

  settled-IsOnce : Settles (λ q p s. IsOnce later p s)
  settled-IsOnce q p s id item out e h =
      let u = pending_unanswered p s id item e h in
      record {
        distinct = rw (keys-append s id out) (append-Distinct id (keys s) u h.distinct);
        answered = λ k i. ground (
          arith,
          eq_iff id k,
          keys-append s id out,
          is_in-append k id (keys s),
          h.answered k,
          lookup-remove id k p,
        );
        fresh = λ k i. (
          let f = h.fresh k i in
              ground (arith, eq_iff id k, keys-append s id out, is_in-append k id (keys s)),
          removed_absent id k p (h.fresh k i).1,
        );
      }

  fewer-IsOnce :
      (o : Option String) (p : List (String × Item)) (s : List (String × Outcome))
      → IsOnce (cons_if o later) p s
      → IsOnce later p s
  unfolding is_in
  fewer-IsOnce none p s h = h
  fewer-IsOnce (some id) p s h = record {
    distinct = h.distinct;
    answered = h.answered;
    fresh = λ k i. h.fresh k (ground (arith, i));
  }

  stored-IsOnce :
      (id : String) (item : Item) (p : List (String × Item)) (s : List (String × Outcome))
      → Distinct (id ∷ later)
      → IsOnce (id ∷ later) p s
      → IsOnce later (store id item p) s
  unfolding is_in
  stored-IsOnce id item p s d h =
      let f = h.fresh id (ground (arith, eq_iff id id)) in
      record {
        distinct = h.distinct;
        answered = λ k i. ground (arith, eq_iff id k, lookup-store id k item p, h.answered k);
        fresh = λ k i. (
          (h.fresh k (ground (arith, i))).0,
          ground (arith, eq_iff id k, lookup-store id k item p, h.fresh k, d.0),
        );
      }

  entered-IsOnce :
      (config : Config) (o : Option String) (r : Relay)
      → Distinct (cons_if o later)
      → IsOnce (cons_if o later) r.pending r.settled
      → EntryKeeps
          (λ q p s. IsOnce later p s)
          rewritten-IsOnce
          settled-IsOnce
          (λ q p s d k. k)
          (λ q p s k. k)
          config
          o
          r
  entered-IsOnce config none r d h id item e a = absurd (cc)
  entered-IsOnce config (some k) r d h id item e a =
      let e' : k ≡ id = cc in rw (← e') (stored-IsOnce k item r.pending r.settled d h)

less-Distinct : (o : Option String) (ids : List String) → Distinct (cons_if o ids) → Distinct ids
less-Distinct none ids d = d
less-Distinct (some id) ids d = d.1

run-IsOnce :
    (sha256 : String → String) (config : Config) (es : List Event) (w : World)
    → Distinct (entered es)
    → IsOnce (entered es) w.relay.pending w.relay.settled
    → IsOnce [] (run sha256 config w es).relay.pending (run sha256 config w es).relay.settled
unfolding run entered
run-IsOnce sha256 config [] w d h = h
run-IsOnce sha256 config (e ∷ es) w d h =
    let k = fewer-IsOnce (entered es) (entered_by e) w.relay.pending w.relay.settled h in
    run-IsOnce sha256 config es (step sha256 config w e)
      (less-Distinct (entered_by e) (entered es) d)
      (step-Keeps (λ q p s. IsOnce (entered es) p s) (rewritten-IsOnce (entered es))
        (settled-IsOnce (entered es)) (λ q p s d k. k) (λ q p s k. k) sha256 config e w
        (entered-IsOnce (entered es) config (entered_by e) w.relay d h)
        (keeps_opening (λ q p s. IsOnce (entered es) p s) (rewritten-IsOnce (entered es))
          (settled-IsOnce (entered es)) (λ q p s d k. k) (λ q p s k. k) e w (λ q. k))
        k)

-- If the ids of the dispatched requests are distinct and none is pending at first, then after any
-- sequence of events no request has been answered twice, and an answered one is no longer pending.
pub answered_once :
    (sha256 : String → String) (config : Config) (db : Db) (es : List Event)
    → Distinct (entered es)
    → let r = (run sha256 config (record { db = db; relay = no_requests }) es).relay in
      Distinct (keys r.settled)
      × ((id : String) → is_in id (keys r.settled) ≡ true → lookup id r.pending ≡ none)
unfolding is_in lookup
answered_once sha256 config db es d =
    let h =
      run-IsOnce sha256 config es (record { db = db; relay = no_requests }) d
        (record { distinct = tt; answered = λ id i. absurd (cc); fresh = λ id i. (refl, refl) }) in
    (h.distinct, h.answered)

-- The request is pending, for the same account, device and runtime, or it has been answered.
abbrev pub IsAccounted : String → Item → List (String × Item) → List (String × Outcome) → Type 0
IsAccounted id item p s =
    ((item' : Item) × (lookup id p ≡ some item') × IsSame item item') ⊎ (is_in id (keys s) ≡ true)

IsSame-IsSame :
    (item cur old new : Item) → cur ≡ old → IsSame item cur → IsSame old new → IsSame item new
IsSame-IsSame item cur old new e g same = record {
  account = same.account ∙ (sym (ap (λ x. x.account_id) e) ∙ g.account);
  device = same.device ∙ (sym (ap (λ x. x.device_id) e) ∙ g.device);
  runtime = same.runtime ∙ (sym (ap (λ x. x.runtime_id) e) ∙ g.runtime);
}

module _ (id : String) (item : Item) where
  rewritten-IsAccounted : Rewrites (λ q p s. IsAccounted id item p s)
  rewritten-IsAccounted q p s k old new e same (inr a) = inr a
  rewritten-IsAccounted q p s k old new e same (inl (cur, f, g)) = elim (Bool-cases (k == id)) [
    | inl t ↦ inl (
      new,
      ground (arith, lookup-store k id new p),
      IsSame-IsSame item cur old new (ground (arith, eq_iff k id)) g same,
    )
    | inr t ↦ inl (cur, ground (arith, lookup-store k id new p), g)
  ]

  settled-IsAccounted : Settles (λ q p s. IsAccounted id item p s)
  settled-IsAccounted q p s k old out e (inr a) =
      inr (ground (arith, keys-append s k out, is_in-append id k (keys s)))
  settled-IsAccounted q p s k old out e (inl (cur, f, g)) = elim (Bool-cases (k == id)) [
    | inl t ↦ inr (ground (arith, keys-append s k out, is_in-append id k (keys s)))
    | inr t ↦ inl (cur, ground (arith, lookup-remove k id p), g)
  ]

  entered-IsAccounted :
      (config : Config) (o : Option String) (r : Relay)
      → is_in id (cons_if o []) ≡ false
      → IsAccounted id item r.pending r.settled
      → EntryKeeps
          (λ q p s. IsAccounted id item p s)
          rewritten-IsAccounted
          settled-IsAccounted
          (λ q p s d k. k)
          (λ q p s k. k)
          config
          o
          r
  unfolding is_in
  entered-IsAccounted config none r n h k new e a = absurd (cc)
  entered-IsAccounted config (some j) r n (inr h) k new e a = inr h
  entered-IsAccounted config (some j) r n (inl (cur, f, g)) k new e a =
      inl (cur, ground (arith, eq_iff j k, lookup-store k id new r.pending), g)

  later-cons :
      (o : Option String) (ids : List String)
      → is_in id (cons_if o ids) ≡ false
      → (is_in id (cons_if o []) ≡ false) × (is_in id ids ≡ false)
  unfolding is_in
  later-cons none ids n = (refl, n)
  later-cons (some j) ids n = ground (arith, n)

-- A request that is pending is, after any sequence of events that does not dispatch under its id again,
-- still pending for the same account, device and runtime, or answered.
pub never_lost :
    (sha256 : String → String) (config : Config) (id : String) (item : Item) (es : List Event)
    (w : World)
    → is_in id (entered es) ≡ false
    → IsAccounted id item w.relay.pending w.relay.settled
    → let r = (run sha256 config w es).relay in IsAccounted id item r.pending r.settled
unfolding run entered
never_lost sha256 config id item [] w n h = h
never_lost sha256 config id item (e ∷ es) w n h =
    let k = later-cons id item (entered_by e) (entered es) n in
    never_lost sha256 config id item es (step sha256 config w e) k.1 (
      step-Keeps (λ q p s. IsAccounted id item p s) (rewritten-IsAccounted id item)
        (settled-IsAccounted id item) (λ q p s d k. k) (λ q p s k. k) sha256 config e w
        (entered-IsAccounted id item config (entered_by e) w.relay k.0 h)
        (keeps_opening (λ q p s. IsAccounted id item p s) (rewritten-IsAccounted id item)
          (settled-IsAccounted id item) (λ q p s d k. k) (λ q p s k. k) e w (λ q. h))
        h)
