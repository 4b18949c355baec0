-- ===== src/Governance/Paths.antt =====
-- What `normalizeRelevantPath` of src/direct-governance.js makes of a path.
use Prim.Native.Char.{Char}
use chatgpt_codex_orchestrat.Prelude.{
  String, ◌≡◌, inl, inr, refl, Bool, false, ◌&&◌, arith, Bool-cases,
}
use chatgpt_codex_orchestrat.Governance.Ledger.{
  is_char, forward_slashes, drop_dot_slash, cons_slash, single_slashes, normalize_path,
}

abbrev pub starts_slash : String → Bool
starts_slash String.[] = false
starts_slash (String.◌∷◌ c s) = is_char b'/' c

-- The path has no backslash, and no two slashes in a row.
abbrev pub IsTidyPath : String → Type 0
IsTidyPath String.[] = Unit
IsTidyPath (String.◌∷◌ c s) =
    (is_char 0x5c c ≡ false) × ((is_char b'/' c && starts_slash s) ≡ false) × IsTidyPath s

-- no character of the path is a backslash
abbrev NoBackslash : String → Type 0
NoBackslash String.[] = Unit
NoBackslash (String.◌∷◌ c s) = (is_char 0x5c c ≡ false) × NoBackslash s

forward-NoBackslash : (s : String) → NoBackslash (forward_slashes s)
unfolding forward_slashes
forward-NoBackslash String.[] = tt
forward-NoBackslash (String.◌∷◌ c s) = elim (Bool-cases (is_char 0x5c c)) [
  | inl t ↦ rw t (refl, forward-NoBackslash s)
  | inr f ↦ rw f (f, forward-NoBackslash s)
]

drop-NoBackslash : (s : String) → NoBackslash s → NoBackslash (drop_dot_slash s)
unfolding drop_dot_slash
drop-NoBackslash String.[] h = h
drop-NoBackslash (String.◌∷◌ c String.[]) h = h
drop-NoBackslash (String.◌∷◌ c (String.◌∷◌ d s)) h =
    elim (Bool-cases (is_char b'.' c && is_char b'/' d)) [ inl t ↦ rw t h.1.1 | inr f ↦ rw f h ]

cons-IsTidyPath :
    (c : Char) (s : String) → is_char 0x5c c ≡ false → IsTidyPath s → IsTidyPath (cons_slash c s)
cons-IsTidyPath c String.[] n h = (n, ground arith, tt)
cons-IsTidyPath c (String.◌∷◌ d s) n h = elim (Bool-cases (is_char b'/' c && is_char b'/' d)) [
  | inl t ↦ rw t h
  | inr f ↦ rw f (n, f, h)
]

single-IsTidyPath : (s : String) → NoBackslash s → IsTidyPath (single_slashes s)
unfolding single_slashes
single-IsTidyPath String.[] h = tt
single-IsTidyPath (String.◌∷◌ c s) h =
    cons-IsTidyPath c (single_slashes s) h.0 (single-IsTidyPath s h.1)

pub normalize-IsTidyPath : (p : String) → IsTidyPath (normalize_path p)
unfolding normalize_path
normalize-IsTidyPath p =
    single-IsTidyPath (drop_dot_slash (forward_slashes p))
      (drop-NoBackslash (forward_slashes p) (forward-NoBackslash p))
