-- ===== src/Relay/Store.antt =====
-- The database of the relay: the tables of `RelayStore` of src/relay/core.js, by their primary keys,
-- and the operations on them. A transaction that throws is rolled back, so an operation returns the new
-- tables or the error. Fresh ids and secrets come in as arguments, `sha256` is node:crypto's, and an
-- account's identity is what normalizeAccountIdentity returned. Names to display, which nothing decides
-- on, are left out.
use Prim.Native.Char.{code}
use chatgpt_codex_orchestrat.Prelude.{
  ℕ, ◌+◌, String, Bool, true, false, not, ◌&&◌, ◌||◌, Option, none, some, List, [], ◌∷◌, ◌++◌,
  if◌then◌else◌, truthy, ◌==◌, nat_eq, Result, ok, thrown, ◌>>=◌, ◌>>◌, guard,
}
use chatgpt_codex_orchestrat.Table.{lookup, store}
use chatgpt_codex_orchestrat.Relay.{
  RelayError, device_not_found, device_revoked, invalid_device_credential, stale_connection_epoch,
  device_runtime_changed, constraint_failed,
}

pub record Device : Type 0 where
  pub account_id : String
  pub revoked_at : Option ℕ
  pub last_seen_at : Option ℕ
  pub connection_epoch : ℕ
  pub last_runtime_id : Option String
  pub executor_ready : Bool
  pub protocol_version : Option String
  pub agent_version : Option String

pub record Credential : Type 0 where
  pub device_id : String
  pub secret_sha256 : String
  pub revoked_at : Option ℕ

pub record Pairing : Type 0 where
  pub device_code_sha256 : String
  pub user_code_sha256 : String
  pub expires_at : ℕ
  pub approved_account_id : Option String
  pub approved_at : Option ℕ
  pub consumed_at : Option ℕ
  pub consumed_device_id : Option String

pub record Affinity : Type 0 where
  pub account_id : String
  pub device_id : String
  pub runtime_id : String
  pub local_id : String
  pub last_used_at : ℕ
  pub invalidated_at : Option ℕ

pub record Account : Type 0 where
  pub issuer : String
  pub subject : String

pub record Db : Type 0 where
  pub accounts : List (String × Account)
  pub devices : List (String × Device)
  pub credentials : List (String × Credential)
  pub pairings : List (String × Pairing)
  pub consumed_tokens : List (String × String)
  pub workspaces : List (String × Affinity)
  pub processes : List (String × Affinity)

abbrev pub empty_db : Db
empty_db = record {
  accounts = [];
  devices = [];
  credentials = [];
  pairings = [];
  consumed_tokens = [];
  workspaces = [];
  processes = [];
}

-- A time in a column is truthy if it is there and is not 0.
abbrev pub is_time : Option ℕ → Bool
is_time none = false
is_time (some n) = not (nat_eq n 0)

abbrev pub is_null {ℓ} : {A : Type ℓ} → Option A → Bool
is_null none = true
is_null (some a) = false

abbrev pub is_text : Option String → String → Bool
is_text none t = false
is_text (some s) t = s == t

abbrev pub is_set : Option String → Bool
is_set none = false
is_set (some s) = truthy s

-- `a || b`, where `b` is null or a text
abbrev pub or_text : Option String → Option String → Option String
or_text none b = b
or_text (some s) b = if truthy s then some s else (if is_set b then b else none)

abbrev pub or_fail {ℓ} : {A : Type ℓ} → Option A → RelayError → Result RelayError A
or_fail none why = thrown why
or_fail (some a) why = ok a

-- The rows of a table, each changed.
unfoldable pub update {ℓ} : {A : Type ℓ} → (A → A) → List (String × A) → List (String × A)
update f [] = []
update f ((id, a) ∷ rows) = (id, f a) ∷ update f rows

abbrev pub put_device : String → Device → Db → Db
put_device id row db = record db { devices = store id row db.devices }

unfoldable pub account_of : Account → List (String × Account) → Option String
account_of who [] = none
account_of who ((id, a) ∷ rows) =
    if a.issuer == who.issuer && a.subject == who.subject then some id else account_of who rows

-- `getOrCreateAccount`, where `fresh` is the id of a new account.
unfoldable pub get_or_create_account :
    (fresh : String) → Account → Db → Result RelayError (String × Db)
unfolding account_of
get_or_create_account fresh who db = elim (account_of who db.accounts) [
  | some id ↦ ok (id, db)
  | none ↦
      if is_null (lookup fresh db.accounts)
      then ok (fresh, record db { accounts = db.accounts ++ (fresh, who) ∷ [] })
      else thrown constraint_failed
]

-- `deviceForAccount`
unfoldable pub device_for_account : String → String → Db → Option Device
device_for_account account id db = elim (lookup id db.devices) [
  | none ↦ none
  | some row ↦ if row.account_id == account then some row else none
]

abbrev pub cons_fst : Prim.Native.Char.Char → Option (String × String) → Option (String × String)
cons_fst c none = none
cons_fst c (some (s, t)) = some (String.◌∷◌ c s, t)

-- The text before the first dot, and the text after it.
unfoldable pub split_dot : String → Option (String × String)
split_dot String.[] = none
split_dot (String.◌∷◌ c s) =
    if nat_eq (code c) b'.' then some (String.[], s) else cons_fst c (split_dot s)

abbrev pub filled_parts : Option (String × String) → Result RelayError (String × String)
filled_parts none = thrown invalid_device_credential
filled_parts (some (id, secret)) =
    if id == "" || secret == "" then thrown invalid_device_credential else ok (id, secret)

-- `parseCredential`
unfoldable pub parse_credential : String → Result RelayError (String × String)
unfolding split_dot
parse_credential text = filled_parts (split_dot text)

module _ (sha256 : String → String) where
  -- A row of the credential, not revoked, of this device and with the digest of the secret; two digests
  -- are compared in constant time.
  abbrev pub is_credential : String → String → Option Credential → Bool
  is_credential device secret none = false
  is_credential device secret (some c) =
      c.device_id == device && (is_null c.revoked_at && c.secret_sha256 == sha256 secret)

  -- `authenticateDevice`
  unfoldable pub authenticate_device : String → String → Db → Result RelayError Device
  unfolding parse_credential
  authenticate_device id credential db = or_fail (lookup id db.devices) device_not_found >>= λ row.
      guard (not (is_time row.revoked_at)) device_revoked
      >> (parse_credential credential >>= λ parts.
          guard (is_credential id parts.1 (lookup parts.0 db.credentials)) invalid_device_credential
          >> ok row)

-- `openSession`
unfoldable pub open_session :
    String
    → (runtime : String) (ready : Bool) (protocol : String) (agent : Option String) (now : ℕ) → Db
    → Result RelayError (Device × Db)
open_session id runtime ready protocol agent now db =
    or_fail (lookup id db.devices) device_revoked >>= λ row.
    guard (is_null row.revoked_at) device_revoked
    >> (let row' = record row {
      connection_epoch = row.connection_epoch + 1;
      last_runtime_id = some runtime;
      last_seen_at = some now;
      executor_ready = ready;
      protocol_version = some protocol;
      agent_version = or_text agent none;
    } in
        ok (row', put_device id row' db))

-- `touchSession`
unfoldable pub touch_session :
    String
    → (runtime : String) (epoch : ℕ) (ready : Bool) (protocol : String) (agent : Option String)
      (now : ℕ)
    → Db
    → Result RelayError Db
touch_session id runtime epoch ready protocol agent now db =
    or_fail (lookup id db.devices) device_not_found >>= λ row.
    guard (not (is_time row.revoked_at)) device_revoked
    >> (guard (nat_eq row.connection_epoch epoch) stale_connection_epoch
        >> (guard (is_text row.last_runtime_id runtime) device_runtime_changed
            >> ok (
                put_device id
                  (record row {
                    last_seen_at = some now;
                    executor_ready = ready;
                    protocol_version = some protocol;
                    agent_version = or_text agent (or_text row.agent_version none);
                  })
                  db)))

-- `COALESCE(invalidated_at, now)`
abbrev pub coalesce : Option ℕ → ℕ → Option ℕ
coalesce none now = some now
coalesce (some t) now = some t

abbrev pub invalidated : String → ℕ → Affinity → Affinity
invalidated device now a =
    if a.device_id == device then record a { invalidated_at = coalesce a.invalidated_at now } else a

-- `invalidateDeviceAffinities`
unfoldable pub invalidate_device_affinities : String → ℕ → Db → Db
unfolding update
invalidate_device_affinities device now db = record db {
  workspaces = update (invalidated device now) db.workspaces;
  processes = update (invalidated device now) db.processes;
}

abbrev pub revoked_credential : String → ℕ → Credential → Credential
revoked_credential device now c =
    if c.device_id == device then record c { revoked_at = coalesce c.revoked_at now } else c

-- What revoking a device does to the tables of its credentials and its affinities.
unfoldable pub revoke_credentials : String → ℕ → Db → Db
unfolding invalidate_device_affinities update
revoke_credentials device now db =
    invalidate_device_affinities device now
      (record db { credentials = update (revoked_credential device now) db.credentials })

abbrev pub revoked_row : ℕ → Device → Device
revoked_row now row = record row {
  revoked_at = some now;
  executor_ready = false;
  connection_epoch = row.connection_epoch + 1;
}

-- `revokeDevice`
unfoldable pub revoke_device : String → String → ℕ → Db → Result RelayError Db
unfolding device_for_account revoke_credentials
revoke_device account id now db =
    or_fail (device_for_account account id db) device_not_found >>= λ row.
    if is_time row.revoked_at
    then ok db
    else ok (revoke_credentials id now (put_device id (revoked_row now row) db))

abbrev pub is_open_of : String → Device → Bool
is_open_of account row = row.account_id == account && is_null row.revoked_at

unfoldable pub open_devices : String → List (String × Device) → List String
open_devices account [] = []
open_devices account ((id, row) ∷ rows) =
    let rest = open_devices account rows in if is_open_of account row then id ∷ rest else rest

unfoldable pub revoke_each : ℕ → List String → Db → Db
unfolding revoke_credentials
revoke_each now [] db = db
revoke_each now (id ∷ ids) db = revoke_each now ids (revoke_credentials id now db)

-- `revokeAll`, with the ids of the devices that it revoked.
unfoldable pub revoke_all : String → ℕ → Db → List String × Db
unfolding open_devices revoke_each update
revoke_all account now db =
    let ids = open_devices account db.devices in
    (
      ids,
      revoke_each now ids (record db {
        devices =
            update (λ row. if is_open_of account row then revoked_row now row else row) db.devices;
      }),
    )
