-- ===== src/Evidence.antt =====
-- Evidence and its levels: `normalizeEvidence` of src/protocol.js and `evaluateEvidenceLevel` of
-- src/protocol-integrity.js. A text that is missing or null is `none`.
pub mod Normal
use Prim.Native.Char.{code}
use Prim.Native.String
use chatgpt_codex_orchestrat.Prelude.{
  ℕ, ◌+◌, String, Bool, true, false, not, ◌&&◌, ◌||◌, Option, none, some, List, [], ◌∷◌,
  if◌then◌else◌, truthy, ◌==◌, leb, nat_eq,
}

pub data Status : Type 0 where
  pass fail unknown : Status

pub data Level : Type 0 where
  observed inferred user_verified unobservable : Level

-- One character in lower case. Of the characters outside of ASCII only the Kelvin sign has an ASCII
-- letter for its lower case, and the words compared with are ASCII.
unfoldable pub lower_code : ℕ → ℕ
lower_code c = if leb b'A' c && leb c b'Z' then c + 32 else (if nat_eq c 0x212a then b'k' else c)

-- `s.toLowerCase() === word`, for a word in lower case.
unfoldable pub lower_is : String → String → Bool
unfolding lower_code
lower_is String.[] String.[] = true
lower_is String.[] _ = false
lower_is _ String.[] = false
lower_is (String.◌∷◌ c s) (String.◌∷◌ d word) =
    nat_eq (lower_code (code c)) (code d) && lower_is s word

-- `ALIAS[status.toLowerCase()] || …`
unfoldable pub read_status : String → Status
unfolding lower_is
read_status s =
    if lower_is s "passed" || (lower_is s "pass" || (lower_is s "success" || lower_is s "ok"))
    then pass
    else (if lower_is s "failed" || lower_is s "fail" then fail else unknown)

unfoldable pub read_level : String → Option Level
read_level s =
    if s == "observed"
    then some observed
    else (if s == "inferred"
        then some inferred
        else (if s == "user_verified"
            then some user_verified
            else (if s == "unobservable" then some unobservable else none)))

abbrev pub or_else : Option String → String → String
or_else none d = d
or_else (some s) d = if truthy s then s else d

abbrev pub read_level? : Option String → Option Level
read_level? none = none
read_level? (some s) = read_level s

-- What the executor hands over: a bare text, or an object.
pub data RawEvidence : Type 0 where
  bare : String → RawEvidence
  object : (acceptance_id id status kind summary text evidence_level : Option String) → RawEvidence

pub record Evidence : Type 0 where
  pub acceptance_id : String
  pub status : Status
  pub kind : String
  pub summary : String
  pub level : Option Level

unfoldable pub normalize_evidence : RawEvidence → Evidence
unfolding read_status read_level
normalize_evidence (bare s) = record {
  acceptance_id = s;
  status = unknown;
  kind = "verify";
  summary = s;
  level = none;
}
normalize_evidence (object acc id status kind summary text level) = record {
  acceptance_id = or_else acc (or_else id "");
  status = read_status (or_else status "");
  kind = or_else kind "verify";
  summary = or_else summary (or_else text "");
  level = read_level? level;
}

-- Whether evidence of a level satisfies a required level.
unfoldable pub level_ok : Option Level → Option Level → Bool
level_ok (some unobservable) required = false
level_ok lvl none = true
level_ok none (some required) = false
level_ok (some observed) (some observed) = true
level_ok (some _) (some observed) = false
level_ok (some observed) (some user_verified) = true
level_ok (some user_verified) (some user_verified) = true
level_ok (some _) (some user_verified) = false
level_ok (some _) (some required) = true
