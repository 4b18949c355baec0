-- ===== src/Evidence/Normal.antt =====
-- Normalised evidence is normalised: the gate reads it once more (src/direct-governance.js).
use chatgpt_codex_orchestrat.Prelude.{String, ◌≡◌, refl, Option, none, some, arith, eq_iff}
use chatgpt_codex_orchestrat.Evidence.{
  Status, pass, fail, unknown, Level, observed, inferred, user_verified, unobservable, RawEvidence,
  object, Evidence, read_status, read_level, normalize_evidence, or_else, read_level?,
}

abbrev pub status_text : Status → String
status_text pass = "pass"
status_text fail = "fail"
status_text unknown = "unknown"

abbrev pub level_text : Option Level → Option String
level_text none = none
level_text (some observed) = some "observed"
level_text (some inferred) = some "inferred"
level_text (some user_verified) = some "user_verified"
level_text (some unobservable) = some "unobservable"

-- The object that GovernanceService hands to the gate.
abbrev pub gate_view : Evidence → RawEvidence
gate_view e =
    object (some e.acceptance_id) none (some (status_text e.status)) none none none
      (level_text e.level)

pub same_id : (s : String) → or_else (some s) (or_else none "") ≡ s
same_id s = ground (arith, eq_iff s "")

pub status_again : (st : Status) → read_status (or_else (some (status_text st)) "") ≡ st
unfolding read_status
status_again pass = refl
status_again fail = refl
status_again unknown = refl

pub level_again : (lvl : Option Level) → read_level? (level_text lvl) ≡ lvl
unfolding read_level
level_again none = refl
level_again (some observed) = refl
level_again (some inferred) = refl
level_again (some user_verified) = refl
level_again (some unobservable) = refl

-- Normalising the acceptance id, the status and the level of normalised evidence again gives the
-- same three: the gate decides on what was recorded.
pub normalize_again :
    (raw : RawEvidence)
    → let e = normalize_evidence raw in
      let n = normalize_evidence (gate_view e) in
      (n.acceptance_id ≡ e.acceptance_id) × (n.status ≡ e.status) × (n.level ≡ e.level)
unfolding normalize_evidence
normalize_again raw =
    let e = normalize_evidence raw in
    (same_id e.acceptance_id, status_again e.status, level_again e.level)
