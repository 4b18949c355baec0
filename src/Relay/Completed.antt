-- ===== src/Relay/Completed.antt =====
-- What an approval and a completion of a pairing find and write (src/relay/core.js).
use chatgpt_codex_orchestrat.Prelude.{
  ℕ, String, ◌≡◌, refl, sym, ap, true, false, not, Option, none, some, leb, arith, ok,
  bind_returned, guard_passed, guard-true, ok-injective,
}
use chatgpt_codex_orchestrat.Table.{lookup, store}
use chatgpt_codex_orchestrat.Relay.{
  pairing_already_consumed, pairing_expired, pairing_already_approved, constraint_failed,
  authorization_pending,
}
use chatgpt_codex_orchestrat.Relay.Store.{Pairing, Account, Db, is_time, is_null, is_set}
use chatgpt_codex_orchestrat.Relay.Pairing.{
  check_row, is_approvable, is_used_token, Fresh, paired, is_fresh_in, approve_row, pair_owned,
  pair_row, complete_row,
}

check_passed :
    (now : ℕ) (p : Pairing)
    → check_row now p ≡ ok tt
    → (is_time p.consumed_at ≡ false) × (leb p.expires_at now ≡ false)
check_passed now p e =
    let (a, f) = guard_passed (not (is_time p.consumed_at)) pairing_already_consumed _ e in
    let b = guard-true (not (leb p.expires_at now)) pairing_expired f in ground (arith, a, b)

-- What an approval that succeeds has found and written.
pub approved_found :
    (sha256 : String → String) (account : String) (now : ℕ) (o : Option (String × Pairing))
    (db db' : Db)
    → approve_row sha256 account now o db ≡ ok db'
    → (id : String) × (p : Pairing) × (o ≡ some (id, p))
      × (is_time p.consumed_at ≡ false)
      × (db'.pairings
          ≡ store id
              (record p { approved_account_id = some account; approved_at = some now })
              db.pairings)
unfolding approve_row
approved_found sha256 account now none db db' e = absurd (cc)
approved_found sha256 account now (some (id, p)) db db' e =
    let (_, e1, c) = bind_returned (check_row now p) _ e in
    let (_, e2) = guard_passed (is_approvable account p) pairing_already_approved _ e1 in
    let (_, e3) =
      guard_passed (not (is_null (lookup account db.accounts))) constraint_failed _ e2 in
    (id, p, refl, (check_passed now p c).0, sym (ap (λ (x : Db). x.pairings) (ok-injective e3)))

-- What a completion that succeeds has found, and the tables it leaves.
pub record Completed (sha256 : String → String) (fresh : Fresh) (token : String) (now : ℕ)
    (db db' : Db) (id : String) (p : Pairing) : Type 0 where
  pub account : String
  pub owner : Account
  pub approved : p.approved_account_id ≡ some account
  pub known : lookup account db.accounts ≡ some owner
  pub unused : is_time p.consumed_at ≡ false
  pub in_time : leb p.expires_at now ≡ false
  pub new_ids : is_fresh_in fresh db ≡ true
  pub tables : db' ≡ paired sha256 fresh account owner.issuer now (id, p) token db

owned_found :
    (sha256 : String → String) (fresh : Fresh) (token : String) (now : ℕ) (id : String)
    (p : Pairing) (account : String) (o : Option Account) (db db' : Db)
    → pair_owned sha256 fresh token now (id, p) account o db ≡ ok db'
    → (owner : Account) × (o ≡ some owner)
      × (is_fresh_in fresh db ≡ true)
      × (db' ≡ paired sha256 fresh account owner.issuer now (id, p) token db)
unfolding pair_owned
owned_found sha256 fresh token now id p account none db db' e = absurd (cc)
owned_found sha256 fresh token now id p account (some a) db db' e =
    let (f, e1) = guard_passed (is_fresh_in fresh db) constraint_failed _ e in
    let (_, e2) = guard_passed (is_null p.consumed_at) pairing_already_consumed _ e1 in
    let (_, e3) =
      guard_passed (not (is_used_token a.issuer token db.consumed_tokens)) constraint_failed _ e2 in
    (a, refl, f, sym (ok-injective e3))

pair_found :
    (sha256 : String → String) (fresh : Fresh) (token : String) (now : ℕ) (id : String)
    (p : Pairing) (o : Option String) (db db' : Db)
    → pair_row sha256 fresh token now (id, p) o db ≡ ok db'
    → (account : String) × (o ≡ some account)
      × (pair_owned sha256 fresh token now (id, p) account (lookup account db.accounts) db ≡ ok db')
unfolding pair_row
pair_found sha256 fresh token now id p none db db' e = absurd (cc)
pair_found sha256 fresh token now id p (some account) db db' e = (account, refl, e)

pub complete_found :
    (sha256 : String → String) (fresh : Fresh) (token : String) (now : ℕ)
    (o : Option (String × Pairing)) (db db' : Db)
    → complete_row sha256 fresh token now o db ≡ ok db'
    → (id : String) × (p : Pairing) × (o ≡ some (id, p))
      × Completed sha256 fresh token now db db' id p
unfolding complete_row
complete_found sha256 fresh token now none db db' e = absurd (cc)
complete_found sha256 fresh token now (some (id, p)) db db' e =
    let (_, e1, c) = bind_returned (check_row now p) _ e in
    let (_, e2) = guard_passed (is_set p.approved_account_id) authorization_pending _ e1 in
    let (account, a, e3) = pair_found sha256 fresh token now id p p.approved_account_id db db' e2 in
    let (owner, k, f, t) =
      owned_found sha256 fresh token now id p account (lookup account db.accounts) db db' e3 in
    let ch = check_passed now p c in
    (
      id,
      p,
      refl,
      record {
        account = account;
        owner = owner;
        approved = a;
        known = k;
        unused = ch.0;
        in_time = ch.1;
        new_ids = f;
        tables = t;
      },
    )
