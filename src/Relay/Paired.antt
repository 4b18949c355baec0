-- ===== src/Relay/Paired.antt =====
-- A pairing code makes one device (src/relay/core.js).
use mathlib.Core.Path.{subst}
use chatgpt_codex_orchestrat.Prelude.{
  ℕ, ◌<◌, String, ◌≡◌, ◌≢◌, refl, sym, ap, ◌∙◌, ◌&&◌, none, some, some-injective, List, [], ◌∷◌,
  eq_iff, arith, Result, ok, thrown, guard_passed, ok-injective,
}
use chatgpt_codex_orchestrat.Table.{lookup, lookup-store}
use chatgpt_codex_orchestrat.Relay.{RelayError, constraint_failed}
use chatgpt_codex_orchestrat.Relay.Store.{Pairing, Db, is_time, is_null}
use chatgpt_codex_orchestrat.Relay.Pairing.{
  by_device_code, by_user_code, Fresh, create_pairing, approve_pairing, complete_pairing,
  PairingCall, creates, approves, completes, pairing_result, after_pairing, run_pairing,
}
use chatgpt_codex_orchestrat.Relay.Codes.{
  Rows, IsKeyed, IsUsed, found_device, found_user, replaced-IsKeyed, appended-IsKeyed,
  replaced-IsUsed, appended-IsUsed, unlisted,
}
use chatgpt_codex_orchestrat.Relay.Completed.{approved_found, complete_found}

-- A code that is in use stays in use, and the table stays keyed.
abbrev Kept : String → Rows → Rows → Type 0
Kept hash rows rows' =
    (IsKeyed rows → IsKeyed rows') × (IsKeyed rows → IsUsed hash rows → IsUsed hash rows')

create-Kept :
    (sha256 : String → String) (hash id device_code user_code : String) (expires : ℕ) (db db' : Db)
    → create_pairing sha256 id device_code user_code expires db ≡ ok db'
    → Kept hash db.pairings db'.pairings
unfolding create_pairing
create-Kept sha256 hash id device_code user_code expires db db' e =
    let (g, e1) =
      guard_passed
        (is_null (lookup id db.pairings)
          && (is_null (by_device_code (sha256 device_code) db.pairings)
              && is_null (by_user_code (sha256 user_code) db.pairings)))
        constraint_failed _ e in
    let n : lookup id db.pairings ≡ none = ground (arith, g) in
    let n' : by_device_code (sha256 device_code) db.pairings ≡ none = ground (arith, g) in
    subst (λ (x : Db). Kept hash db.pairings x.pairings) (ok-injective e1)
      (
        λ h. appended-IsKeyed id _ db.pairings n (unlisted id db.pairings n) n' h,
        λ h u. appended-IsUsed hash id _ db.pairings u,
      )

approve-Kept :
    (sha256 : String → String) (hash user_code account : String) (now : ℕ) (db db' : Db)
    → approve_pairing sha256 user_code account now db ≡ ok db'
    → Kept hash db.pairings db'.pairings
unfolding approve_pairing
approve-Kept sha256 hash user_code account now db db' e =
    let (id, p, f, n, t) =
      approved_found sha256 account now (by_user_code (sha256 user_code) db.pairings) db db' e in
    rw t (
      λ h.
          replaced-IsKeyed id p _ db.pairings
            (found_user (sha256 user_code) id p db.pairings h.distinct f) refl h,
      λ h u.
          replaced-IsUsed hash id p _ db.pairings
            (found_user (sha256 user_code) id p db.pairings h.distinct f) n u,
    )

complete-Kept :
    (sha256 : String → String) (hash : String) (fresh : Fresh) (device_code : String) (now : ℕ)
    (db db' : Db)
    → complete_pairing sha256 fresh device_code now db ≡ ok db'
    → Kept hash db.pairings db'.pairings
unfolding complete_pairing
complete-Kept sha256 hash fresh device_code now db db' e =
    let (id, p, f, c) =
      complete_found sha256 fresh (sha256 device_code) now
        (by_device_code (sha256 device_code) db.pairings) db db' e in
    subst (λ (x : Db). Kept hash db.pairings x.pairings) (sym c.tables)
      (
        λ h.
            replaced-IsKeyed id p _ db.pairings
              (found_device (sha256 device_code) id p db.pairings h.distinct f).0 refl h,
        λ h u.
            replaced-IsUsed hash id p _ db.pairings
              (found_device (sha256 device_code) id p db.pairings h.distinct f).0 c.unused u,
      )

call-Kept :
    (sha256 : String → String) (hash : String) (c : PairingCall) (db db' : Db)
    → pairing_result sha256 db c ≡ ok db'
    → Kept hash db.pairings db'.pairings
unfolding pairing_result
call-Kept sha256 hash (creates id device_code user_code expires) db db' e =
    create-Kept sha256 hash id device_code user_code expires db db' e
call-Kept sha256 hash (approves user_code account now) db db' e =
    approve-Kept sha256 hash user_code account now db db' e
call-Kept sha256 hash (completes fresh device_code now) db db' e =
    complete-Kept sha256 hash fresh device_code now db db' e

after-Kept :
    (sha256 : String → String) (hash : String) (db : Db) (out : Result RelayError Db)
    → ((db' : Db) → out ≡ ok db' → Kept hash db.pairings db'.pairings)
    → Kept hash db.pairings (after_pairing sha256 db out).pairings
unfolding after_pairing
after-Kept sha256 hash db (ok db') k = k db' refl
after-Kept sha256 hash db (thrown e) k = (λ h. h, λ h u. u)

run-Kept :
    (sha256 : String → String) (hash : String) (cs : List PairingCall) (db : Db)
    → Kept hash db.pairings (run_pairing sha256 db cs).pairings
unfolding run_pairing
run-Kept sha256 hash [] db = (λ h. h, λ h u. u)
run-Kept sha256 hash (c ∷ cs) db =
    let a =
      after-Kept sha256 hash db (pairing_result sha256 db c)
        (λ db' e. call-Kept sha256 hash c db db' e) in
    let b = run-Kept sha256 hash cs (after_pairing sha256 db (pairing_result sha256 db c)) in
    (λ h. b.0 (a.0 h), λ h u. b.1 (a.0 h) (a.1 h u))

-- The row of a completed code is consumed.
complete-IsUsed :
    (sha256 : String → String) (fresh : Fresh) (device_code : String) (now : ℕ) (db db' : Db)
    → 0 < now
    → complete_pairing sha256 fresh device_code now db ≡ ok db'
    → IsKeyed db.pairings
    → IsUsed (sha256 device_code) db'.pairings
unfolding complete_pairing
complete-IsUsed sha256 fresh device_code now db db' l e h =
    let (id, p, f, c) =
      complete_found sha256 fresh (sha256 device_code) now
        (by_device_code (sha256 device_code) db.pairings) db db' e in
    let k = found_device (sha256 device_code) id p db.pairings h.distinct f in
    subst (λ (x : Db). IsUsed (sha256 device_code) x.pairings) (sym c.tables)
      (
        id,
        record p { consumed_at = some now; consumed_device_id = some fresh.device_id },
        rw (lookup-store, (eq_iff id id).1 refl) refl,
        k.1,
        ground arith,
      )

used_refused :
    (sha256 : String → String) (fresh : Fresh) (device_code : String) (now : ℕ) (db db' : Db)
    → IsKeyed db.pairings
    → IsUsed (sha256 device_code) db.pairings
    → complete_pairing sha256 fresh device_code now db ≢ ok db'
unfolding complete_pairing
used_refused sha256 fresh device_code now db db' h (j, q, f, g, t) = λ e.
    let (id, p, f', c) =
      complete_found sha256 fresh (sha256 device_code) now
        (by_device_code (sha256 device_code) db.pairings) db db' e in
    let k = found_device (sha256 device_code) id p db.pairings h.distinct f' in
    let same = h.one_row j id q p f k.0 (g ∙ sym k.1) in
    let n = c.unused in
    let qp : some q ≡ some p = sym f ∙ (rw same k.0) in
    let r = ap (λ (x : Pairing). is_time x.consumed_at) (some-injective qp) in cc

-- From tables without pairings, any calls, a completion of a device code at a time that is not 0, and
-- any further calls: the code is not completed again, whatever ids are drawn.
pub pairs_once :
    (sha256 : String → String) (db db' v : Db) (before later : List PairingCall)
    (fresh again : Fresh) (device_code : String) (now next : ℕ)
    → db.pairings ≡ []
    → 0 < now
    → complete_pairing sha256 fresh device_code now (run_pairing sha256 db before) ≡ ok db'
    → complete_pairing sha256 again device_code next (run_pairing sha256 db' later) ≢ ok v
unfolding lookup
pairs_once sha256 db db' v before later fresh again device_code now next z l e =
    let hash = sha256 device_code in
    let start : IsKeyed db.pairings =
      rw z (record { distinct = tt; one_row = λ i j p q f g k. absurd (cc) }) in
    let h = (run-Kept sha256 hash before db).0 start in
    let h' =
      (complete-Kept sha256 hash fresh device_code now (run_pairing sha256 db before) db' e).0 h in
    let u = complete-IsUsed sha256 fresh device_code now (run_pairing sha256 db before) db' l e h in
    let k = run-Kept sha256 hash later db' in
    used_refused sha256 again device_code next (run_pairing sha256 db' later) v (k.0 h') (k.1 h' u)
