-- ===== src/Governance/Ledger.antt =====
-- The proof ledger: `normalizeRelevantPath` and `createProofLedger` of src/direct-governance.js.
-- `compute` gives a file's fingerprint, or nothing where reading it throws; it stands for the file
-- system at the time of the call.
use Prim.Native.Char.{Char, code}
use chatgpt_codex_orchestrat.Prelude.{
  ℕ, suc, String, Bool, true, false, not, ◌&&◌, ◌||◌, Option, none, some, List, [], ◌∷◌, map,
  if◌then◌else◌, truthy, ◌==◌, nat_eq,
}

abbrev pub is_char : ℕ → Char → Bool
is_char n c = nat_eq (code c) n

-- `replace(/\\/g, '/')`
unfoldable pub forward_slashes : String → String
forward_slashes String.[] = ""
forward_slashes (String.◌∷◌ c s) =
    String.◌∷◌ (if is_char 0x5c c then "/" else c) (forward_slashes s)

-- `replace(/^\.\//, '')`
unfoldable pub drop_dot_slash : String → String
drop_dot_slash (String.◌∷◌ c (String.◌∷◌ d s)) =
    if is_char b'.' c && is_char b'/' d then s else String.◌∷◌ c (String.◌∷◌ d s)
drop_dot_slash s = s

abbrev pub cons_slash : Char → String → String
cons_slash c String.[] = String.◌∷◌ c ""
cons_slash c (String.◌∷◌ d s) =
    if is_char b'/' c && is_char b'/' d then String.◌∷◌ d s else String.◌∷◌ c (String.◌∷◌ d s)

-- `replace(/\/{2,}/g, '/')`
unfoldable pub single_slashes : String → String
single_slashes String.[] = ""
single_slashes (String.◌∷◌ c s) = cons_slash c (single_slashes s)

unfoldable pub normalize_path : String → String
unfolding forward_slashes drop_dot_slash single_slashes
normalize_path p = single_slashes (drop_dot_slash (forward_slashes p))

-- The statuses that the service records.
pub data ProofStatus : Type 0 where
  proof_pass proof_stale : ProofStatus

pub record Proof : Type 0 where
  pub acceptance_id : String
  pub status : ProofStatus
  pub kind : String
  pub summary : String
  pub verification_id : Option String
  pub relevant_files : List String
  pub fingerprints : List (Option String)
  pub dependency_free : Bool
  pub step_id : Option String

abbrev pub Ledger : Type 0
Ledger = List Proof

abbrev pub is_proof_pass : ProofStatus → Bool
is_proof_pass proof_pass = true
is_proof_pass proof_stale = false

-- `.map(norm).filter(Boolean)`
pub normal_files : List String → List String
unfolding normalize_path
normal_files [] = []
normal_files (f ∷ fs) =
    let rest = normal_files fs in let p = normalize_path f in if truthy p then p ∷ rest else rest

-- The proof of the same acceptance is replaced in place; a new one goes to the end.
unfoldable pub put_proof : Proof → Ledger → Ledger
put_proof p [] = p ∷ []
put_proof p (q ∷ ledger) =
    if q.acceptance_id == p.acceptance_id then p ∷ ledger else q ∷ put_proof p ledger

unfoldable pub get_proof : String → Ledger → Option Proof
get_proof id [] = none
get_proof id (q ∷ ledger) = if q.acceptance_id == id then some q else get_proof id ledger

abbrev pub same_text : Option String → Option String → Bool
same_text none none = true
same_text (some a) (some b) = a == b
same_text _ _ = false

abbrev pub said : Option String → Bool
said none = false
said (some s) = truthy s

unfoldable pub has_changed : List String → String → Bool
unfolding normalize_path
has_changed [] f = false
has_changed (c ∷ changed) f = normalize_path c == f || has_changed changed f

unfoldable pub some_changed : List String → List String → Bool
unfolding has_changed
some_changed changed [] = false
some_changed changed (f ∷ fs) = has_changed changed f || some_changed changed fs

-- The ledger after `invalidateOnChange`, and how many proofs it made stale.
unfoldable pub invalidate_on_change : List String → Ledger → Ledger × ℕ
unfolding some_changed
invalidate_on_change changed [] = ([], 0)
invalidate_on_change changed (p ∷ ledger) =
    let (rest, n) = invalidate_on_change changed ledger in
    if some_changed changed p.relevant_files
    then (record p { status = proof_stale } ∷ rest, suc n)
    else (p ∷ rest, n)

abbrev pub same_fingerprint : Option String → Option String → Bool
same_fingerprint (some now) (some recorded) = now == recorded
same_fingerprint _ _ = false

abbrev pub is_nil : List String → Bool
is_nil [] = true
is_nil _ = false

module _ (compute : String → Option String) where
  unfoldable pub record_proof : Proof → Ledger → Ledger
  unfolding normal_files put_proof
  record_proof p ledger =
      let files = normal_files p.relevant_files in
      put_proof (record p { relevant_files = files; fingerprints = map compute files }) ledger

  unfoldable pub unchanged : List String → List (Option String) → Bool
  unchanged [] prints = true
  unchanged (f ∷ fs) [] = false
  unchanged (f ∷ fs) (print ∷ prints) = same_fingerprint (compute f) print && unchanged fs prints

  abbrev pub fresh_proof : Option String → Option Proof → Bool
  fresh_proof verification none = false
  fresh_proof verification (some p) =
      is_proof_pass p.status
      && (not (not p.dependency_free && is_nil p.relevant_files)
          && (not (
                (said p.verification_id || said verification)
                && not (same_text p.verification_id verification))
              && (p.dependency_free || unchanged p.relevant_files p.fingerprints)))

  unfoldable pub is_fresh : String → Option String → Ledger → Bool
  unfolding get_proof unchanged
  is_fresh id verification ledger = fresh_proof verification (get_proof id ledger)
