-- ===== src/Gate.antt =====
-- The acceptance gate: `normalizeAcceptanceItem` and `evaluateDirectAcceptanceGate` of
-- src/direct-governance.js. The evidence that the gate is given is normalised already.
pub mod Exact
mod Examples
use chatgpt_codex_orchestrat.Prelude.{
  String, Bool, true, false, ◌&&◌, ◌||◌, Option, none, some, List, [], ◌∷◌, if◌then◌else◌, truthy,
  ◌==◌,
}
use chatgpt_codex_orchestrat.Evidence.{
  Status, pass, Level, Evidence, or_else, read_level?, level_ok,
}

-- The proof contract of an acceptance item, and what `a.proof` of the caller's object is.
pub record ProofContract : Type 0 where
  pub relevant_files : Option (List String)
  pub dependency_free : Option Bool
  pub verification_id : Option String

pub record Acceptance : Type 0 where
  pub id : String
  pub required : Bool
  pub text : String
  pub proof : Option ProofContract
  pub required_level : Option Level

pub data RawAcceptance : Type 0 where
  named : String → RawAcceptance
  item :
      (id text : Option String) (required : Option Bool) (proof : Option ProofContract)
      (required_level : Option String)
      → RawAcceptance

abbrev is_given {ℓ} : {A : Type ℓ} → Option A → Bool
is_given none = false
is_given (some a) = true

abbrev is_true : Option Bool → Bool
is_true (some b) = b
is_true none = false

abbrev given_text : Option String → Bool
given_text none = false
given_text (some s) = truthy s

-- A contract that says nothing is dropped; an empty list of files says something.
pub keep_proof : Option ProofContract → Option ProofContract
keep_proof none = none
keep_proof (some p) =
    if is_given p.relevant_files || (is_true p.dependency_free || given_text p.verification_id)
    then some p
    else none

-- `a.required !== false`
abbrev not_false : Option Bool → Bool
not_false none = true
not_false (some b) = b

unfoldable pub normalize_acceptance : RawAcceptance → Option Acceptance
unfolding keep_proof
normalize_acceptance (named s) =
    some (record { id = s; required = true; text = s; proof = none; required_level = none })
normalize_acceptance (item id text required proof lvl) =
    let key = or_else id (or_else text "") in
    if truthy key
    then some (record {
      id = key;
      required = not_false required;
      text = or_else text (or_else id "");
      proof = keep_proof proof;
      required_level = read_level? lvl;
    })
    else none

-- `evById[e.acceptanceId] = e`, for each piece of evidence in turn: the last one stays.
pub index_from : (String → Option Evidence) → List Evidence → String → Option Evidence
index_from m [] = m
index_from m (e ∷ es) = index_from (λ id. if e.acceptance_id == id then some e else m id) es

pub by_id : List Evidence → String → Option Evidence
unfolding index_from
by_id es = index_from (λ id. none) es

abbrev pub is_pass : Status → Bool
is_pass pass = true
is_pass _ = false

pub record GateResult : Type 0 where
  pub ok : Bool
  pub missing : List String
  pub failed : List String
  pub level_failed : List String
  pub passed : List String
  pub required : List String

pub data Verdict : Type 0 where
  absent not_pass wrong_level satisfied : Verdict

-- How the loop of the gate classifies a required item.
pub verdict_of : Option Evidence → Option Level → Verdict
verdict_of none lvl = absent
verdict_of (some e) lvl =
    if is_pass e.status then (if level_ok e.level lvl then satisfied else wrong_level) else not_pass

abbrev add : Verdict → String → GateResult → GateResult
add absent id g = record g { missing = id ∷ g.missing }
add not_pass id g = record g { failed = id ∷ g.failed }
add wrong_level id g = record g { level_failed = id ∷ g.level_failed }
add satisfied id g = record g { passed = id ∷ g.passed }

-- `req.find((x) => x.id === id)`
pub find_item : String → List Acceptance → Option Acceptance
find_item id [] = none
find_item id (a ∷ items) = if a.id == id then some a else find_item id items

abbrev level_of : Option Acceptance → Option Level
level_of none = none
level_of (some a) = a.required_level

abbrev is_satisfied : Verdict → Bool
is_satisfied satisfied = true
is_satisfied _ = false

-- The test of `required.every`: the level is that of the first item with this id.
pub id_ok : (String → Option Evidence) → List Acceptance → String → Bool
unfolding verdict_of find_item
id_ok m items id = is_satisfied (verdict_of (m id) (level_of (find_item id items)))

pub all_ok : (String → Option Evidence) → List Acceptance → List String → Bool
unfolding id_ok
all_ok m items [] = true
all_ok m items (id ∷ ids) = id_ok m items id && all_ok m items ids

pub required_ids : List Acceptance → List String
required_ids [] = []
required_ids (a ∷ items) = let rest = required_ids items in if a.required then a.id ∷ rest else rest

-- The lists of the loop, before `ok` is known.
pub collect : (String → Option Evidence) → List Acceptance → GateResult
unfolding verdict_of
collect m [] = record {
  ok = true;
  missing = [];
  failed = [];
  level_failed = [];
  passed = [];
  required = [];
}
collect m (a ∷ items) =
    let rest = collect m items in
    if a.required
    then add (verdict_of (m a.id) a.required_level) a.id
        (record rest { required = a.id ∷ rest.required })
    else rest

unfoldable pub evaluate_gate : List Acceptance → List Evidence → GateResult
unfolding by_id collect all_ok required_ids
evaluate_gate items es = record (collect (by_id es) items) {
  ok = all_ok (by_id es) items (required_ids items);
}
