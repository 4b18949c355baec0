-- ===== src/Registry/Distinct.antt =====
-- Registries without an id twice and ledgers without an entry twice (src/protocol.js).
use chatgpt_codex_orchestrat.Prelude.{
  String, ◌≡◌, ◌↔◌, inl, inr, refl, ap, Bool, true, false, ◌||◌, Option, none, some, some-injective,
  List, [], ◌∷◌, ◌++◌, ◌==◌, eq_iff, arith, Bool-cases,
}
use chatgpt_codex_orchestrat.Evidence.{Status, pass, fail, unknown, Evidence}
use chatgpt_codex_orchestrat.Registry.{
  Registered, Entry, same_id, same_status, is_registered, same_entry, has_entry, report,
  report_each,
}

-- No id is registered twice, and no entry is in the ledger twice.
abbrev pub DistinctIds : List Registered → Type 0
DistinctIds [] = Unit
DistinctIds (x ∷ xs) = (is_registered x.id xs ≡ false) × DistinctIds xs

abbrev pub DistinctEntries : List Entry → Type 0
DistinctEntries [] = Unit
DistinctEntries (x ∷ xs) = (has_entry x xs ≡ false) × DistinctEntries xs

pub same_id_iff : (a b : Option String) → (same_id a b ≡ true) ↔ (a ≡ b)
unfolding same_id
same_id_iff none none = (λ h. refl, λ h. refl)
same_id_iff none (some b) = (λ h. absurd (cc), λ h. absurd (cc))
same_id_iff (some a) none = (λ h. absurd (cc), λ h. absurd (cc))
same_id_iff (some a) (some b) =
    (λ h. ap some ((eq_iff a b).0 h), λ h. (eq_iff a b).1 (some-injective h))

pub same_id-swap : (a b : Option String) → same_id a b ≡ same_id b a
unfolding same_id
same_id-swap none none = refl
same_id-swap none (some b) = refl
same_id-swap (some a) none = refl
same_id-swap (some a) (some b) = ground (arith, eq_iff a b, eq_iff b a)

same_status-swap : (a b : Status) → same_status a b ≡ same_status b a
unfolding same_status
same_status-swap pass pass = refl
same_status-swap pass fail = refl
same_status-swap pass unknown = refl
same_status-swap fail pass = refl
same_status-swap fail fail = refl
same_status-swap fail unknown = refl
same_status-swap unknown pass = refl
same_status-swap unknown fail = refl
same_status-swap unknown unknown = refl

text_swap : (a b : String) → (a == b) ≡ (b == a)
text_swap a b = ground (arith, eq_iff a b, eq_iff b a)

same_entry-swap : (x y : Entry) → same_entry x y ≡ same_entry y x
unfolding same_entry
same_entry-swap x y =
    rw
      (
        same_id-swap x.step_id y.step_id,
        text_swap x.acceptance_id y.acceptance_id,
        same_status-swap x.status y.status,
        text_swap x.kind y.kind,
      )
      refl

registered-append :
    (id : Option String) (x : Registered) (xs : List Registered)
    → is_registered id (xs ++ x ∷ []) ≡ (is_registered id xs || same_id x.id id)
unfolding is_registered
registered-append id x [] = ground arith
registered-append id x (y ∷ xs) = ground (arith, registered-append id x xs)

pub append-DistinctIds :
    (x : Registered) (xs : List Registered)
    → is_registered x.id xs ≡ false
    → DistinctIds xs
    → DistinctIds (xs ++ x ∷ [])
unfolding is_registered
append-DistinctIds x [] n d = (refl, tt)
append-DistinctIds x (y ∷ xs) n d = (
  ground (arith, n, d.0, registered-append y.id x xs, same_id-swap x.id y.id),
  append-DistinctIds x xs (ground (arith, n)) d.1,
)

entry-append :
    (e x : Entry) (xs : List Entry)
    → has_entry e (xs ++ x ∷ []) ≡ (has_entry e xs || same_entry x e)
unfolding has_entry
entry-append e x [] = ground arith
entry-append e x (y ∷ xs) = ground (arith, entry-append e x xs)

pub append-DistinctEntries :
    (x : Entry) (xs : List Entry)
    → has_entry x xs ≡ false
    → DistinctEntries xs
    → DistinctEntries (xs ++ x ∷ [])
unfolding has_entry
append-DistinctEntries x [] n d = (refl, tt)
append-DistinctEntries x (y ∷ xs) n d = (
  ground (arith, n, d.0, entry-append y x xs, same_entry-swap x y),
  append-DistinctEntries x xs (ground (arith, n)) d.1,
)

same_head :
    (a b id : Option String) (rest : Bool)
    → a ≡ b
    → (same_id a id || rest) ≡ ((same_id a id || rest) || same_id b id)
same_head a b id rest e = rw e (ground arith)

reported_ids :
    (e : Evidence) (id : Option String) (xs : List Registered)
    → is_registered id (report e xs) ≡ (is_registered id xs || same_id (some e.acceptance_id) id)
unfolding is_registered report
reported_ids e id [] = ground arith
reported_ids e id (x ∷ xs) = elim (Bool-cases (same_id x.id (some e.acceptance_id))) [
  | inl t ↦ rw t (
      same_head x.id (some e.acceptance_id) id (is_registered id xs)
        ((same_id_iff x.id (some e.acceptance_id)).0 t))
  | inr t ↦ rw t (ground (arith, reported_ids e id xs))
]

report-DistinctIds :
    (e : Evidence) (xs : List Registered) → DistinctIds xs → DistinctIds (report e xs)
unfolding report is_registered
report-DistinctIds e [] d = (refl, tt)
report-DistinctIds e (x ∷ xs) d = elim (Bool-cases (same_id x.id (some e.acceptance_id))) [
  | inl t ↦ rw t d
  | inr t ↦ rw t (
    ground (arith, d.0, reported_ids e x.id xs, same_id-swap x.id (some e.acceptance_id)),
    report-DistinctIds e xs d.1,
  )
]

pub report_each-DistinctIds :
    (es : List Evidence) (xs : List Registered) → DistinctIds xs → DistinctIds (report_each es xs)
unfolding report_each
report_each-DistinctIds [] xs d = d
report_each-DistinctIds (e ∷ es) xs d =
    report_each-DistinctIds es (report e xs) (report-DistinctIds e xs d)
