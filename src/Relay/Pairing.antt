-- ===== src/Relay/Pairing.antt =====
-- Pairing a device with an account: `createPairing`, `approvePairing` and `completePairing` of
-- src/relay/core.js. A code is a fresh secret that comes in as an argument, and a user's code is what
-- is left of the text after trim and toUpperCase.
use chatgpt_codex_orchestrat.Prelude.{
  ℕ, String, Bool, false, not, ◌&&◌, ◌||◌, Option, none, some, List, [], ◌∷◌, ◌++◌, if◌then◌else◌,
  ◌==◌, leb, Result, ok, thrown, ◌>>◌, guard,
}
use chatgpt_codex_orchestrat.Table.{lookup, store}
use chatgpt_codex_orchestrat.Relay.{
  RelayError, pairing_code_invalid, pairing_already_consumed, pairing_expired,
  pairing_already_approved, authorization_pending, constraint_failed,
}
use chatgpt_codex_orchestrat.Relay.Store.{
  Device, Pairing, Account, Db, is_time, is_null, is_text, is_set,
}

-- The row with the digest of a device code, which is unique.
unfoldable pub by_device_code : String → List (String × Pairing) → Option (String × Pairing)
by_device_code hash [] = none
by_device_code hash ((id, p) ∷ rows) =
    if p.device_code_sha256 == hash then some (id, p) else by_device_code hash rows

unfoldable pub by_user_code : String → List (String × Pairing) → Option (String × Pairing)
by_user_code hash [] = none
by_user_code hash ((id, p) ∷ rows) =
    if p.user_code_sha256 == hash then some (id, p) else by_user_code hash rows

abbrev pub put_pairing : String → Pairing → Db → Db
put_pairing id p db = record db { pairings = store id p db.pairings }

unfoldable pub is_used_token : String → String → List (String × String) → Bool
is_used_token issuer token [] = false
is_used_token issuer token ((i, t) ∷ rows) =
    (i == issuer && t == token) || is_used_token issuer token rows

-- The fresh ids and the secret that `completePairing` draws.
pub record Fresh : Type 0 where
  pub device_id : String
  pub credential_id : String
  pub secret : String

abbrev pub new_device : String → Device
new_device account = record {
  account_id = account;
  revoked_at = none;
  last_seen_at = none;
  connection_epoch = 0;
  last_runtime_id = none;
  executor_ready = false;
  protocol_version = none;
  agent_version = none;
}

-- A row of `consumed_pair_tokens` is kept without the time and the device.
abbrev pub paired :
    (sha256 : String → String) → Fresh → String → String → ℕ → String × Pairing → String → Db → Db
paired sha256 fresh account issuer now (id, p) token db = record db {
  devices = db.devices ++ (fresh.device_id, new_device account) ∷ [];
  credentials =
      db.credentials
      ++ (
        fresh.credential_id,
        record {
          device_id = fresh.device_id;
          secret_sha256 = sha256 fresh.secret;
          revoked_at = none;
        },
      )
        ∷ [];
  pairings =
      store id (record p { consumed_at = some now; consumed_device_id = some fresh.device_id })
        db.pairings;
  consumed_tokens = db.consumed_tokens ++ (issuer, token) ∷ [];
}

abbrev pub is_fresh_in : Fresh → Db → Bool
is_fresh_in fresh db =
    is_null (lookup fresh.device_id db.devices)
    && is_null (lookup fresh.credential_id db.credentials)

-- `row.expires_at <= now`, and the row not consumed before.
abbrev pub check_row : ℕ → Pairing → Result RelayError (Unit {0})
check_row now p =
    guard (not (is_time p.consumed_at)) pairing_already_consumed
    >> guard (not (leb p.expires_at now)) pairing_expired

-- Approved by nobody else.
abbrev pub is_approvable : String → Pairing → Bool
is_approvable account p =
    not (is_set p.approved_account_id) || is_text p.approved_account_id account

pub data PairingCall : Type 0 where
  creates : (id device_code user_code : String) (expires : ℕ) → PairingCall
  approves : (user_code account : String) (now : ℕ) → PairingCall
  completes : Fresh → (device_code : String) (now : ℕ) → PairingCall

module _ (sha256 : String → String) where
  unfoldable pub create_pairing :
      (id device_code user_code : String) (expires : ℕ) → Db → Result RelayError Db
  unfolding by_device_code by_user_code
  create_pairing id device_code user_code expires db =
      guard
        (is_null (lookup id db.pairings)
          && (is_null (by_device_code (sha256 device_code) db.pairings)
              && is_null (by_user_code (sha256 user_code) db.pairings)))
        constraint_failed
      >> ok (record db {
        pairings =
            db.pairings
            ++ (
              id,
              record {
                device_code_sha256 = sha256 device_code;
                user_code_sha256 = sha256 user_code;
                expires_at = expires;
                approved_account_id = none;
                approved_at = none;
                consumed_at = none;
                consumed_device_id = none;
              },
            )
              ∷ [];
      })

  unfoldable pub approve_row :
      (account : String) (now : ℕ) → Option (String × Pairing) → Db → Result RelayError Db
  approve_row account now none db = thrown pairing_code_invalid
  approve_row account now (some (id, p)) db =
      check_row now p
      >> (guard (is_approvable account p) pairing_already_approved
          >> (guard (not (is_null (lookup account db.accounts))) constraint_failed
              >> ok (
                  put_pairing id
                    (record p { approved_account_id = some account; approved_at = some now }) db)))

  unfoldable pub approve_pairing :
      (user_code account : String) (now : ℕ) → Db → Result RelayError Db
  unfolding by_user_code approve_row
  approve_pairing user_code account now db =
      approve_row account now (by_user_code (sha256 user_code) db.pairings) db

  -- The approved row's part of the transaction: the account must be there, the rows that it inserts must
  -- be new, and the row must not have been consumed.
  unfoldable pub pair_owned :
      Fresh
      → (token : String) (now : ℕ) → String × Pairing
      → (account : String) → Option Account
      → Db
      → Result RelayError Db
  unfolding is_used_token
  pair_owned fresh token now row account none db = thrown constraint_failed
  pair_owned fresh token now (id, p) account (some a) db =
      guard (is_fresh_in fresh db) constraint_failed
      >> (guard (is_null p.consumed_at) pairing_already_consumed
          >> (guard (not (is_used_token a.issuer token db.consumed_tokens)) constraint_failed
              >> ok (paired sha256 fresh account a.issuer now (id, p) token db)))

  unfoldable pub pair_row :
      Fresh
      → (token : String) (now : ℕ) → String × Pairing
      → Option String
      → Db
      → Result RelayError Db
  unfolding pair_owned
  pair_row fresh token now row none db = thrown authorization_pending
  pair_row fresh token now row (some account) db =
      pair_owned fresh token now row account (lookup account db.accounts) db

  unfoldable pub complete_row :
      Fresh → (token : String) (now : ℕ) → Option (String × Pairing) → Db → Result RelayError Db
  unfolding pair_row
  complete_row fresh token now none db = thrown pairing_code_invalid
  complete_row fresh token now (some row) db =
      check_row now row.1
      >> (guard (is_set row.1.approved_account_id) authorization_pending
          >> pair_row fresh token now row row.1.approved_account_id db)

  unfoldable pub complete_pairing :
      Fresh → (device_code : String) (now : ℕ) → Db → Result RelayError Db
  unfolding by_device_code complete_row
  complete_pairing fresh device_code now db =
      complete_row fresh (sha256 device_code) now (by_device_code (sha256 device_code) db.pairings)
        db

  unfoldable pub pairing_result : Db → PairingCall → Result RelayError Db
  unfolding create_pairing approve_pairing complete_pairing
  pairing_result db (creates id device_code user_code expires) =
      create_pairing id device_code user_code expires db
  pairing_result db (approves user_code account now) = approve_pairing user_code account now db
  pairing_result db (completes fresh device_code now) = complete_pairing fresh device_code now db

  -- A call that throws leaves the tables as they were.
  unfoldable pub after_pairing : Db → Result RelayError Db → Db
  after_pairing db (ok db') = db'
  after_pairing db (thrown e) = db

  unfoldable pub run_pairing : Db → List PairingCall → Db
  unfolding pairing_result after_pairing
  run_pairing db [] = db
  run_pairing db (c ∷ cs) = run_pairing (after_pairing db (pairing_result db c)) cs
