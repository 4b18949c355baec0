-- ===== src/Relay/Codes.antt =====
-- The table of the pairing codes (src/relay/core.js).
use chatgpt_codex_orchestrat.Prelude.{
  String, ◌≡◌, ◌≢◌, ◌⊎◌, inl, inr, refl, sym, ap, ◌∙◌, Bool, true, false, Option, none, some, List,
  [], ◌∷◌, ◌++◌, if◌then◌else◌, ◌==◌, eq_iff, arith,
}
use chatgpt_codex_orchestrat.Table.{is_in, lookup, store, lookup-store, Distinct, append-Distinct}
use chatgpt_codex_orchestrat.Relay.Store.{Pairing, is_time, is_null}
use chatgpt_codex_orchestrat.Relay.Core.{keys}
use chatgpt_codex_orchestrat.Relay.Pairing.{by_device_code, by_user_code}

abbrev pub Rows : Type 0
Rows = List (String × Pairing)

-- The key of the table and the digest of the device code each name one row.
pub record IsKeyed (rows : Rows) : Type 0 where
  pub distinct : Distinct (keys rows)
  pub one_row :
      (i j : String) (p q : Pairing)
      → lookup i rows ≡ some p
      → lookup j rows ≡ some q
      → p.device_code_sha256 ≡ q.device_code_sha256
      → i ≡ j

absent : (k : String) (rows : Rows) → is_in k (keys rows) ≡ false → lookup k rows ≡ none
unfolding is_in lookup
absent k [] n = refl
absent k ((i, p) ∷ rows) n = ground (arith, n, absent k rows)

in_tail :
    (k id : String) (p q : Pairing) (rows : Rows)
    → is_in k (keys rows) ≡ false
    → lookup id rows ≡ some p
    → lookup id ((k, q) ∷ rows) ≡ some p
unfolding lookup
in_tail k id p q rows n e = ground (arith, absent k rows n, eq_iff k id)

pair_of :
    {a b : String} {p q : Pairing}
    → ◌≡◌ {A = Option (String × Pairing)} (some (a, p)) (some (b, q))
    → (a ≡ b) × (p ≡ q)
pair_of e = (cc, cc)

found_first :
    (b : Bool) (k id : String) (p q : Pairing) (o : Option (String × Pairing))
    → (if b then some (k, q) else o) ≡ some (id, p)
    → ((b ≡ true) × (k ≡ id) × (q ≡ p)) ⊎ (o ≡ some (id, p))
found_first true k id p q o e = let f = pair_of e in inl (refl, f.0, f.1)
found_first false k id p q o e = inr e

head_found :
    (k id : String) (p q : Pairing) (rows : Rows)
    → k ≡ id
    → q ≡ p
    → lookup id ((k, q) ∷ rows) ≡ some p
unfolding lookup
head_found k id p q rows e f = ground (arith, eq_iff k id)

pub found_device :
    (hash id : String) (p : Pairing) (rows : Rows)
    → Distinct (keys rows)
    → by_device_code hash rows ≡ some (id, p)
    → (lookup id rows ≡ some p) × (p.device_code_sha256 ≡ hash)
unfolding by_device_code
found_device hash id p [] d e = absurd (cc)
found_device hash id p ((k, q) ∷ rows) d e =
    elim (found_first (q.device_code_sha256 == hash) k id p q (by_device_code hash rows) e) [
      | inl (t, a, b) ↦ (
        head_found k id p q rows a b,
        ap (λ (x : Pairing). x.device_code_sha256) (sym b) ∙ (eq_iff q.device_code_sha256 hash).0 t,
      )
      | inr f ↦ let h = found_device hash id p rows d.1 f in (in_tail k id p q rows d.0 h.0, h.1)
    ]

pub found_user :
    (hash id : String) (p : Pairing) (rows : Rows)
    → Distinct (keys rows)
    → by_user_code hash rows ≡ some (id, p)
    → lookup id rows ≡ some p
unfolding by_user_code
found_user hash id p [] d e = absurd (cc)
found_user hash id p ((k, q) ∷ rows) d e =
    elim (found_first (q.user_code_sha256 == hash) k id p q (by_user_code hash rows) e) [
      | inl (t, a, b) ↦ head_found k id p q rows a b
      | inr f ↦ in_tail k id p q rows d.0 (found_user hash id p rows d.1 f)
    ]

no_row :
    (hash i : String) (p : Pairing) (rows : Rows)
    → by_device_code hash rows ≡ none
    → lookup i rows ≡ some p
    → p.device_code_sha256 ≢ hash
unfolding by_device_code lookup
no_row hash i p [] n e = λ f. cc
no_row hash i p ((k, q) ∷ rows) n e = λ f. ground (
  arith,
  n,
  e,
  eq_iff q.device_code_sha256 hash,
  eq_iff p.device_code_sha256 hash,
  no_row hash i p rows,
)

keys-store :
    (id : String) (p p' : Pairing) (rows : Rows)
    → lookup id rows ≡ some p
    → keys (store id p' rows) ≡ keys rows
unfolding lookup store
keys-store id p p' [] e = absurd (cc)
keys-store id p p' ((k, q) ∷ rows) e = ground (arith, e, keys-store id p p' rows)

keys-append :
    (rows : Rows) (id : String) (p : Pairing) → keys (rows ++ (id, p) ∷ []) ≡ keys rows ++ id ∷ []
keys-append [] id p = refl
keys-append ((k, q) ∷ rows) id p = rw (keys-append rows id p) refl

pub lookup-append :
    (k id : String) (p : Pairing) (rows : Rows)
    → lookup k (rows ++ (id, p) ∷ [])
      ≡ (if is_null (lookup k rows) then (if id == k then some p else none) else lookup k rows)
unfolding lookup
lookup-append k id p [] = ground arith
lookup-append k id p ((i, q) ∷ rows) = ground (arith, lookup-append k id p rows)

pub replaced-IsKeyed :
    (id : String) (p p' : Pairing) (rows : Rows)
    → lookup id rows ≡ some p
    → p'.device_code_sha256 ≡ p.device_code_sha256
    → IsKeyed rows
    → IsKeyed (store id p' rows)
replaced-IsKeyed id p p' rows e same h = record {
  distinct = rw (keys-store id p p' rows e) h.distinct;
  one_row = λ i j a b f g k. ground (
    arith,
    eq_iff id i,
    eq_iff id j,
    lookup-store id i p' rows,
    lookup-store id j p' rows,
    h.one_row id j p b,
    h.one_row i id a p,
    h.one_row i j a b,
  );
}

pub appended-IsKeyed :
    (id : String) (p : Pairing) (rows : Rows)
    → lookup id rows ≡ none
    → is_in id (keys rows) ≡ false
    → by_device_code p.device_code_sha256 rows ≡ none
    → IsKeyed rows
    → IsKeyed (rows ++ (id, p) ∷ [])
appended-IsKeyed id p rows e o n h = record {
  distinct = rw (keys-append rows id p) (append-Distinct id (keys rows) o h.distinct);
  one_row = λ i j a b f g k. ground (
    arith,
    eq_iff id i,
    eq_iff id j,
    lookup-append i id p rows,
    lookup-append j id p rows,
    h.one_row i j a b,
    no_row p.device_code_sha256 i a rows n,
    no_row p.device_code_sha256 j b rows n,
  );
}

pub unlisted : (k : String) (rows : Rows) → lookup k rows ≡ none → is_in k (keys rows) ≡ false
unfolding is_in lookup
unlisted k [] n = refl
unlisted k ((i, p) ∷ rows) n = ground (arith, n, unlisted k rows)

-- The code was used: the row with its digest is consumed.
abbrev pub IsUsed : String → Rows → Type 0
IsUsed hash rows =
    (id : String) × (p : Pairing) × (lookup id rows ≡ some p)
    × (p.device_code_sha256 ≡ hash)
    × (is_time p.consumed_at ≡ true)

pub replaced-IsUsed :
    (hash id : String) (p p' : Pairing) (rows : Rows)
    → lookup id rows ≡ some p
    → is_time p.consumed_at ≡ false
    → IsUsed hash rows
    → IsUsed hash (store id p' rows)
replaced-IsUsed hash id p p' rows e n (j, q, f, g, t) =
    (j, q, ground (arith, eq_iff id j, lookup-store id j p' rows), g, t)

pub appended-IsUsed :
    (hash id : String) (p : Pairing) (rows : Rows)
    → IsUsed hash rows
    → IsUsed hash (rows ++ (id, p) ∷ [])
appended-IsUsed hash id p rows (j, q, f, g, t) =
    (j, q, ground (arith, f, lookup-append j id p rows), g, t)
