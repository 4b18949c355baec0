-- ===== src/Governance/Freshness.antt =====
-- When a proof of the ledger is reused (src/direct-governance.js).
use mathlib.Core.Path.{subst}
use text.Mathlib.TextPositions.{eq_refl}
use chatgpt_codex_orchestrat.Prelude.{
  String, ◌≡◌, ◌≢◌, ◌↔◌, ◌⊎◌, inl, inr, refl, Bool, true, false, not, ◌&&◌, ◌||◌, Option, none,
  some, some-injective, List, [], ◌∷◌, arith, map, if◌then◌else◌, ◌==◌, Bool-cases, differ, eq_iff,
}
use chatgpt_codex_orchestrat.Governance.Ledger.{
  Ledger, Proof, ProofStatus, proof_pass, proof_stale, put_proof, get_proof, some_changed,
  invalidate_on_change, record_proof, normal_files, is_fresh, unchanged, fresh_proof,
  same_fingerprint, same_text, is_nil, is_proof_pass,
}
use chatgpt_codex_orchestrat.Governance.Changed.{Touches, some_changed-Touches}

-- The proof after files have changed.
abbrev pub after_change : List String → Proof → Proof
after_change changed p =
    if some_changed changed p.relevant_files then record p { status = proof_stale } else p

abbrev pub mapped {ℓ κ} : {A : Type ℓ} → {B : Type κ} → (A → B) → Option A → Option B
mapped f none = none
mapped f (some a) = some (f a)

found_or :
    (b : Bool) (changed : List String) (p : Proof) (o : Option Proof)
    → mapped (after_change changed) (if b then some p else o)
      ≡ (if b then some (after_change changed p) else mapped (after_change changed) o)
found_or true changed p o = refl
found_or false changed p o = refl

get-invalidate :
    (changed : List String) (id : String) (ledger : Ledger)
    → get_proof id (invalidate_on_change changed ledger).0
      ≡ mapped (after_change changed) (get_proof id ledger)
unfolding get_proof invalidate_on_change
get-invalidate changed id [] = refl
get-invalidate changed id (p ∷ ledger) = elim (Bool-cases (some_changed changed p.relevant_files)) [
  | inl t ↦ rw (t, found_or) (rw (get-invalidate changed id ledger, t) refl)
  | inr t ↦ rw (t, found_or) (rw (get-invalidate changed id ledger, t) refl)
]

-- What `after` holds for an acceptance, by what the ledger held for it before the change.
abbrev pub IsAfter : List String → Option Proof → Option Proof → Type 0
IsAfter changed before after =
    (before ≡ none → after ≡ none)
    × ((p : Proof)
        → before ≡ some p
        → (Touches changed p → after ≡ some (record p { status = proof_stale }))
          × (¬ Touches changed p → after ≡ some p))

not_both_values : {b : Bool} → b ≡ false → b ≡ true → ⊥
not_both_values f t = cc

untouched :
    (changed : List String) (p : Proof)
    → ¬ Touches changed p
    → some_changed changed p.relevant_files ≡ false
untouched changed p n = elim (Bool-cases (some_changed changed p.relevant_files)) [
  | inl t ↦ absurd (n ((some_changed-Touches changed p).0 t))
  | inr f ↦ f
]

mapped-IsAfter :
    (changed : List String) (o : Option Proof) → IsAfter changed o (mapped (after_change changed) o)
mapped-IsAfter changed none = (λ e. refl, λ p e. absurd (cc))
mapped-IsAfter changed (some q) = (
  λ e. absurd (cc),
  λ p e.
      subst
        (λ x.
          (Touches changed x
            → some (after_change changed q) ≡ some (record x { status = proof_stale }))
          × (¬ Touches changed x → some (after_change changed q) ≡ some x))
        (some-injective e)
        (λ t. rw ((some_changed-Touches changed q).1 t) refl, λ n. rw (untouched changed q n) refl),
)

fresh-Touches :
    (compute : String → Option String) (v : Option String) (changed : List String)
    (o : Option Proof)
    → (fresh_proof compute v (mapped (after_change changed) o) ≡ true)
      ↔ ((fresh_proof compute v o ≡ true) × ((p : Proof) → o ≡ some p → ¬ Touches changed p))
fresh-Touches compute v changed none = (λ h. absurd (cc), λ h. absurd (cc (h.0)))
fresh-Touches compute v changed (some q) =
    elim (Bool-cases (some_changed changed q.relevant_files)) [
      | inl t ↦
          rw t (λ h. absurd (cc), λ h. absurd (h.1 q refl ((some_changed-Touches changed q).0 t)))
      | inr f ↦ rw f (
        λ h. (
          h,
          λ p e k. absurd (
              not_both_values
                (subst (λ x. some_changed changed x.relevant_files ≡ false) (some-injective e) f)
                ((some_changed-Touches changed p).1 k)),
        ),
        λ h. h.0,
      )
    ]

-- After files have changed, a proof is stale if one of its files is the path of a changed file,
-- normalised (without a backslash, and without two slashes in a row), and is as it was otherwise; an
-- acceptance without a proof has none. A proof is reused exactly if it was before and none of its files
-- is such a path.
pub invalidate-is_fresh :
    (compute : String → Option String) (v : Option String) (changed : List String) (id : String)
    (ledger : Ledger)
    → let after = (invalidate_on_change changed ledger).0 in
      IsAfter changed (get_proof id ledger) (get_proof id after)
      × ((is_fresh compute id v after ≡ true) ↔ (
          (is_fresh compute id v ledger ≡ true)
          × ((p : Proof) → get_proof id ledger ≡ some p → ¬ Touches changed p)))
unfolding is_fresh
invalidate-is_fresh compute v changed id ledger = rw (get-invalidate changed id ledger) (
  mapped-IsAfter changed (get_proof id ledger),
  fresh-Touches compute v changed (get_proof id ledger),
)

and_false : (a : Bool) → (a && false) ≡ false
and_false a = ground arith

get-put_proof :
    (id : String) (p : Proof) (ledger : Ledger)
    → get_proof id (put_proof p ledger)
      ≡ (if p.acceptance_id == id then some p else get_proof id ledger)
unfolding get_proof put_proof
get-put_proof id p [] = refl
get-put_proof id p (q ∷ ledger) = ground (
  arith,
  eq_iff p.acceptance_id id,
  eq_iff q.acceptance_id p.acceptance_id,
  eq_iff q.acceptance_id id,
  get-put_proof id p ledger,
)

-- Every file has the fingerprint that it had, and had one.
abbrev pub SamePrints : (String → Option String) → (String → Option String) → List String → Type 0
SamePrints now before [] = Unit
SamePrints now before (f ∷ fs) =
    ((x : String) × (now f ≡ some x) × (before f ≡ some x)) × SamePrints now before fs

same_print :
    (now before : Option String)
    → (same_fingerprint now before ≡ true) ↔ ((x : String) × (now ≡ some x) × (before ≡ some x))
same_print none before = (λ h. cc, λ h. cc h.1)
same_print (some a) none = (λ h. cc, λ h. cc h.2)
same_print (some a) (some b) =
    (λ h. (a, refl, ground (arith, eq_iff a b)), λ h. (eq_iff a b).1 (cc))

both : {P Q : Type 0} {a b : Bool} → (a ≡ true) ↔ P → (b ≡ true) ↔ Q → ((a && b) ≡ true) ↔ (P × Q)
both {a = true} {b = true} p q = (λ h. (p.0 refl, q.0 refl), λ h. refl)
both {a = true} {b = false} p q = (λ h. cc, λ h. q.1 h.1)
both {a = false} {b = b} p q = (λ h. cc, λ h. p.1 h.0)

unchanged-SamePrints :
    (now before : String → Option String) (files : List String)
    → (unchanged now files (map before files) ≡ true) ↔ SamePrints now before files
unfolding unchanged
unchanged-SamePrints now before [] = (λ h. tt, λ h. refl)
unchanged-SamePrints now before (f ∷ fs) =
    both (same_print (now f) (before f)) (unchanged-SamePrints now before fs)

same_text_self : (t : Option String) → same_text t t ≡ true
same_text_self none = refl
same_text_self (some s) = eq_refl s

passed : (st : ProofStatus) → (is_proof_pass st ≡ true) ↔ (st ≡ proof_pass)
passed proof_pass = (λ h. refl, λ h. refl)
passed proof_stale = (λ h. cc, λ h. cc)

named_files :
    {P : Type 0} (dep u : Bool) (files : List String)
    → (u ≡ true) ↔ P
    → ((not (not dep && is_nil files) && (dep || u)) ≡ true) ↔ ((dep ≡ true) ⊎ ((files ≢ []) × P))
named_files true u files p = (λ h. inl refl, λ h. refl)
named_files false u [] p = (λ h. cc, λ h. ground arith)
named_files false u (f ∷ fs) p = (λ h. inr (λ e. cc, p.0 h), λ h. ground (arith, p.1))

recorded :
    (now before : String → Option String) (p : Proof) (files : List String)
    → (fresh_proof now p.verification_id
          (some (record p { relevant_files = files; fingerprints = map before files }))
        ≡ true)
      ↔ ((p.status ≡ proof_pass)
          × ((p.dependency_free ≡ true) ⊎ ((files ≢ []) × SamePrints now before files)))
recorded now before p files =
    rw (same_text_self p.verification_id, and_false)
      (both (passed p.status)
        (named_files p.dependency_free _ files (unchanged-SamePrints now before files)))

-- A proof that was recorded is reused, under the verification it was recorded with, exactly if it
-- passed, and either depends on no file or names some, each of which has a fingerprint, the one that
-- it had when the proof was recorded. Recording it changes the proof of no other acceptance.
pub record-is_fresh :
    (now before : String → Option String) (p : Proof) (id : String) (ledger : Ledger)
    → let after = record_proof before p ledger in
      let files = normal_files p.relevant_files in
      ((is_fresh now p.acceptance_id p.verification_id after ≡ true) ↔ (
        (p.status ≡ proof_pass)
        × ((p.dependency_free ≡ true) ⊎ ((files ≢ []) × SamePrints now before files))))
      × (p.acceptance_id ≢ id → get_proof id after ≡ get_proof id ledger)
unfolding is_fresh record_proof
record-is_fresh now before p id ledger =
    let files = normal_files p.relevant_files in
    let q = record p { relevant_files = files; fingerprints = map before files } in
    (
      rw (get-put_proof p.acceptance_id q ledger, eq_refl p.acceptance_id)
          (recorded now before p files),
      λ n. rw (get-put_proof id q ledger, differ p.acceptance_id id n) refl,
    )
