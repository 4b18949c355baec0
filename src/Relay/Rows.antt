-- ===== src/Relay/Rows.antt =====
-- What the events of the relay do to the rows of the devices (src/relay/core.js).
use mathlib.Core.Path.{subst}
use chatgpt_codex_orchestrat.Prelude.{
  ℕ, ◌+◌, ◌≤◌, String, ◌≡◌, ◌⊎◌, inl, inr, refl, Bool, true, false, not, Option, none, some, List,
  [], ◌∷◌, if◌then◌else◌, ◌==◌, eq_iff, nat_eq, arith, Result, ok, Bool-cases, bind_returned,
  guard_passed, ok-injective,
}
use chatgpt_codex_orchestrat.Table.{lookup, store, lookup-store}
use chatgpt_codex_orchestrat.Relay.{
  RelayError, device_not_found, device_revoked, stale_connection_epoch, device_runtime_changed,
}
use chatgpt_codex_orchestrat.Relay.Store.{
  Device, Db, is_time, is_null, is_text, or_fail, put_device, update, device_for_account,
  open_session, touch_session, invalidate_device_affinities, revoke_credentials, revoked_row,
  revoke_device, is_open_of, revoke_each, revoke_all,
}

-- A row that stays its account's, whose epoch does not fall, and whose revocation is final.
pub record IsLater (row row' : Device) : Type 0 where
  pub account : row'.account_id ≡ row.account_id
  pub epoch : row.connection_epoch ≤ row'.connection_epoch
  pub revoked : is_time row.revoked_at ≡ true → row'.revoked_at ≡ row.revoked_at

abbrev pub Evolves : Option Device → Option Device → Type 0
Evolves none o = o ≡ none
Evolves (some row) o = (row' : Device) × (o ≡ some row') × IsLater row row'

abbrev pub EvolvesIn : List (String × Device) → List (String × Device) → Type 0
EvolvesIn rows rows' = (d : String) → Evolves (lookup d rows) (lookup d rows')

row-IsLater : (row : Device) → IsLater row row
row-IsLater row = record { account = refl; epoch = omega arith; revoked = λ h. refl }

pub same-Evolves : (o : Option Device) → Evolves o o
same-Evolves none = refl
same-Evolves (some row) = (row, refl, row-IsLater row)

found_if :
    (b : Bool) (row row' : Device) (o : Option Device)
    → (b ≡ true → o ≡ some row)
    → IsLater row row'
    → Evolves o (if b then some row' else o)
found_if true row row' o f l = rw (f refl) (row', refl, l)
found_if false row row' o f l = same-Evolves o

stored-EvolvesIn :
    (id : String) (row row' : Device) (rows : List (String × Device))
    → lookup id rows ≡ some row
    → IsLater row row'
    → EvolvesIn rows (store id row' rows)
stored-EvolvesIn id row row' rows e l d =
    rw (lookup-store id d row' rows)
      (found_if (id == d) row row' (lookup d rows) (λ t. ground (arith, eq_iff id d)) l)

pub found {ℓ} :
    {A : Type ℓ} (o : Option A) (why : RelayError) {a : A} → or_fail o why ≡ ok a → o ≡ some a
found none why e = cc
found (some b) why e = cc

null_time : (o : Option ℕ) → is_null o ≡ true → is_time o ≡ true → o ≡ none
null_time none n t = refl
null_time (some x) n t = cc

pub open-EvolvesIn :
    (id runtime : String) (ready : Bool) (protocol : String) (agent : Option String) (now : ℕ)
    (db : Db) (out : Device × Db)
    → open_session id runtime ready protocol agent now db ≡ ok out
    → (row : Device) × (lookup id db.devices ≡ some row)
      × (out.0.connection_epoch ≡ row.connection_epoch + 1)
      × EvolvesIn db.devices out.1.devices
unfolding open_session
open-EvolvesIn id runtime ready protocol agent now db out e =
    let (row, e1, f) = bind_returned (or_fail (lookup id db.devices) device_revoked) _ e in
    let (n, e2) = guard_passed (is_null row.revoked_at) device_revoked _ e1 in
    let f' = found (lookup id db.devices) device_revoked f in
    subst
      (λ (x : Device × Db).
        (row : Device) × (lookup id db.devices ≡ some row)
        × (x.0.connection_epoch ≡ row.connection_epoch + 1)
        × EvolvesIn db.devices x.1.devices)
      (ok-injective e2)
      (
        row,
        f',
        refl,
        stored-EvolvesIn id row _ db.devices f'
            (record { account = refl; epoch = omega arith; revoked = λ t. refl }),
      )

pub touch-EvolvesIn :
    (id runtime : String) (epoch : ℕ) (ready : Bool) (protocol : String) (agent : Option String)
    (now : ℕ) (db db' : Db)
    → touch_session id runtime epoch ready protocol agent now db ≡ ok db'
    → EvolvesIn db.devices db'.devices
unfolding touch_session
touch-EvolvesIn id runtime epoch ready protocol agent now db db' e =
    let (row, e1, f) = bind_returned (or_fail (lookup id db.devices) device_not_found) _ e in
    let (_, e2) = guard_passed (not (is_time row.revoked_at)) device_revoked _ e1 in
    let (_, e3) = guard_passed (nat_eq row.connection_epoch epoch) stale_connection_epoch _ e2 in
    let (_, e4) = guard_passed (is_text row.last_runtime_id runtime) device_runtime_changed _ e3 in
    subst (λ (x : Db). EvolvesIn db.devices x.devices) (ok-injective e4)
      (stored-EvolvesIn id row _ db.devices (found (lookup id db.devices) device_not_found f)
        (record { account = refl; epoch = omega arith; revoked = λ t. refl }))

pub kept_devices :
    (id : String) (now : ℕ) (db : Db) → (revoke_credentials id now db).devices ≡ db.devices
unfolding revoke_credentials invalidate_device_affinities
kept_devices id now db = refl

pub for_account :
    (account id : String) (db : Db) (row : Device)
    → device_for_account account id db ≡ some row
    → lookup id db.devices ≡ some row
unfolding device_for_account
for_account account id db row e = ground (arith, e)

revoked-IsLater :
    (now : ℕ) (row : Device) → is_time row.revoked_at ≡ false → IsLater row (revoked_row now row)
revoked-IsLater now row n = record {
  account = refl;
  epoch = omega arith;
  revoked = λ t. absurd (cc);
}

pub returned_if :
    (b : Bool) (x y z : Db)
    → ◌≡◌ {A = Result RelayError Db} (if b then ok x else ok y) (ok z)
    → ((b ≡ true) × (x ≡ z)) ⊎ ((b ≡ false) × (y ≡ z))
returned_if true x y z e = inl (refl, ok-injective e)
returned_if false x y z e = inr (refl, ok-injective e)

pub revoke-EvolvesIn :
    (account id : String) (now : ℕ) (db db' : Db)
    → revoke_device account id now db ≡ ok db'
    → EvolvesIn db.devices db'.devices
unfolding revoke_device
revoke-EvolvesIn account id now db db' e =
    let (row, e1, f) =
      bind_returned (or_fail (device_for_account account id db) device_not_found) _ e in
    let f' =
      for_account account id db row (found (device_for_account account id db) device_not_found f) in
    elim (returned_if (is_time row.revoked_at) db
      (revoke_credentials id now (put_device id (revoked_row now row) db)) db' e1) [
        | inl (t, k) ↦ subst (λ (x : Db). EvolvesIn db.devices x.devices) k (λ d. same-Evolves _)
        | inr (t, k) ↦
            subst (λ (x : Db). EvolvesIn db.devices x.devices) k
              (rw (kept_devices id now (put_device id (revoked_row now row) db))
                (stored-EvolvesIn id row _ db.devices f' (revoked-IsLater now row t)))
      ]

all_mapped :
    (f : Device → Device) (rows : List (String × Device))
    → ((row : Device) → IsLater row (f row))
    → EvolvesIn rows (update f rows)
unfolding update lookup
all_mapped f [] l d = refl
all_mapped f ((id, row) ∷ rows) l d = elim (Bool-cases (id == d)) [
  | inl t ↦ rw t (f row, refl, l row)
  | inr t ↦ rw t (all_mapped f rows l d)
]

each_devices :
    (now : ℕ) (ids : List String) (db : Db) → (revoke_each now ids db).devices ≡ db.devices
unfolding revoke_each
each_devices now [] db = refl
each_devices now (id ∷ ids) db =
    rw (each_devices now ids (revoke_credentials id now db)) (kept_devices id now db)

null_not_time : (o : Option ℕ) → is_null o ≡ true → is_time o ≡ false
null_not_time none n = refl
null_not_time (some x) n = cc

maybe_revoked :
    (account : String) (now : ℕ) (row : Device)
    → IsLater row (if is_open_of account row then revoked_row now row else row)
maybe_revoked account now row = elim (Bool-cases (is_open_of account row)) [
  | inr t ↦ rw t (row-IsLater row)
  | inl t ↦ rw t (revoked-IsLater now row (null_not_time row.revoked_at (ground (arith, t))))
]

pub revoke_all-EvolvesIn :
    (account : String) (now : ℕ) (db : Db)
    → EvolvesIn db.devices (revoke_all account now db).1.devices
unfolding revoke_all
revoke_all-EvolvesIn account now db =
    rw (each_devices) (all_mapped _ db.devices (maybe_revoked account now))
