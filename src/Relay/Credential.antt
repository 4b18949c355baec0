-- ===== src/Relay/Credential.antt =====
-- The credential that a pairing issues authenticates the device (src/relay/core.js).
use Prim.Native.Char.{Char, char, code}
use Prim.Native.String
use Prim.Native.String.append as Append
use chatgpt_codex_orchestrat.Prelude.{
  ℕ, ◌<◌, String, ◌≡◌, ◌≢◌, refl, Bool, true, false, ◌||◌, none, some, eq_iff, nat_eq, ok, arith,
  differ,
}
use chatgpt_codex_orchestrat.Table.{lookup, lookup-append_new}
use chatgpt_codex_orchestrat.Relay.Store.{
  Device, Credential, Pairing, Db, split_dot, parse_credential, is_credential, authenticate_device,
}
use chatgpt_codex_orchestrat.Relay.Pairing.{
  by_device_code, Fresh, new_device, is_fresh_in, complete_pairing,
}
use chatgpt_codex_orchestrat.Relay.Completed.{complete_found}

-- `credentialId + '.' + secret`
pub issued : Fresh → String
issued fresh = String.◌++◌ fresh.credential_id (String.◌++◌ "." fresh.secret)

unfoldable pub has_dot : String → Bool
has_dot String.[] = false
has_dot (String.◌∷◌ c s) = nat_eq (code c) b'.' || has_dot s

dot_first : (secret : String) → split_dot (String.◌++◌ "." secret) ≡ some ("", secret)
unfolding split_dot
dot_first secret =
    let dot : Char = char b'.' tt in
    let e : String.◌++◌ "." secret ≡ String.◌∷◌ dot (String.◌++◌ "" secret) =
      Append.cons dot "" secret in
    rw (e, Append.nil) refl

split-join :
    (id secret : String)
    → has_dot id ≡ false
    → split_dot (String.◌++◌ id (String.◌++◌ "." secret)) ≡ some (id, secret)
unfolding has_dot split_dot
split-join String.[] secret n = rw (Append.nil, dot_first secret) refl
split-join (String.◌∷◌ c s) secret n =
    let n' : has_dot s ≡ false = ground (arith, n) in
    let d : nat_eq (code c) b'.' ≡ false = ground (arith, n) in
    rw (Append.cons, d, split-join s secret n') refl

parse-issued :
    (fresh : Fresh)
    → has_dot fresh.credential_id ≡ false
    → fresh.credential_id ≢ ""
    → fresh.secret ≢ ""
    → parse_credential (issued fresh) ≡ ok (fresh.credential_id, fresh.secret)
unfolding parse_credential issued
parse-issued fresh n a b =
    rw
      (
        split-join fresh.credential_id fresh.secret n,
        differ fresh.credential_id "" a,
        differ fresh.secret "" b,
      )
      refl

fresh-lookup :
    (fresh : Fresh) (db : Db)
    → is_fresh_in fresh db ≡ true
    → (lookup fresh.device_id db.devices ≡ none)
      × (lookup fresh.credential_id db.credentials ≡ none)
fresh-lookup fresh db e = ground (arith, e)

authenticated :
    (sha256 : String → String) (id credential : String) (db : Db) (row : Device)
    (parts : String × String) (c : Credential)
    → lookup id db.devices ≡ some row
    → row.revoked_at ≡ none
    → parse_credential credential ≡ ok parts
    → lookup parts.0 db.credentials ≡ some c
    → is_credential sha256 id parts.1 (some c) ≡ true
    → authenticate_device sha256 id credential db ≡ ok row
unfolding authenticate_device
authenticated sha256 id credential db row parts c e r f g h = rw (e, r, f, g, h) refl

-- A completed pairing was approved, in time, by an account that exists, and the credential that it
-- issues authenticates its new device, which is that account's.
pub complete-authenticate :
    (sha256 : String → String) (fresh : Fresh) (device_code : String) (now : ℕ) (db db' : Db)
    → has_dot fresh.credential_id ≡ false
    → fresh.credential_id ≢ ""
    → fresh.secret ≢ ""
    → complete_pairing sha256 fresh device_code now db ≡ ok db'
    → (id : String) × (p : Pairing) × (account : String) × (by_device_code
          (sha256 device_code)
          db.pairings
        ≡ some (id, p))
      × (p.approved_account_id ≡ some account)
      × (lookup account db.accounts ≢ none)
      × (now < p.expires_at)
      × (authenticate_device sha256 fresh.device_id (issued fresh) db' ≡ ok (new_device account))
unfolding complete_pairing authenticate_device
complete-authenticate sha256 fresh device_code now db db' n a b e =
    let (id, p, f, c) =
      complete_found sha256 fresh (sha256 device_code) now
        (by_device_code (sha256 device_code) db.pairings) db db' e in
    let (d, k) = fresh-lookup fresh db c.new_ids in
    let known = c.known in
    let early = c.in_time in
    (
      id,
      p,
      c.account,
      f,
      c.approved,
      λ z. cc,
      ground arith,
      authenticated sha256 fresh.device_id (issued fresh) db' (new_device c.account)
          (fresh.credential_id, fresh.secret)
          (record {
            device_id = fresh.device_id;
            secret_sha256 = sha256 fresh.secret;
            revoked_at = none;
          })
          (rw c.tables (lookup-append_new fresh.device_id (new_device c.account) db.devices d)) refl
          (parse-issued fresh n a b)
          (rw c.tables (lookup-append_new fresh.credential_id _ db.credentials k))
          (ground (
            arith,
            eq_iff fresh.device_id fresh.device_id,
            eq_iff (sha256 fresh.secret) (sha256 fresh.secret),
          )),
    )
