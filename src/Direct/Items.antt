-- ===== src/Direct/Items.antt =====
-- The acceptance registry of a Direct run, which createDirectGovernance of src/direct-governance.js keeps.
use chatgpt_codex_orchestrat.Prelude.{
  String, false, Option, none, some, List, [], ◌∷◌, map, if◌then◌else◌, ◌==◌,
}
use chatgpt_codex_orchestrat.Evidence.{Status, Level, Evidence, normalize_evidence}
use chatgpt_codex_orchestrat.Evidence.Normal.{gate_view}
use chatgpt_codex_orchestrat.Gate.{
  Acceptance, RawAcceptance, normalize_acceptance, GateResult, evaluate_gate,
}
use chatgpt_codex_orchestrat.Registry.{Progress, missing, reported}

-- An item of the registry: the acceptance, and what the last evidence said.
pub record Item : Type 0 where
  pub acceptance : Acceptance
  pub status : Progress
  pub level : Option Level

-- An item that is registered again keeps its status and its required level.
unfoldable pub register_item : Acceptance → List Item → List Item
register_item a [] = record { acceptance = a; status = missing; level = none } ∷ []
register_item a (x ∷ xs) =
    let rest = register_item a xs in
    if x.acceptance.id == a.id
    then record x {
      acceptance = record x.acceptance { required = a.required; text = a.text; proof = a.proof };
    }
      ∷ xs
    else x ∷ rest

abbrev pub register_if : Option Acceptance → List Item → List Item
register_if none xs = xs
register_if (some a) xs = register_item a xs

-- `registerAcceptance`
unfoldable pub register_acceptance : List RawAcceptance → List Item → List Item
unfolding register_item normalize_acceptance
register_acceptance [] xs = xs
register_acceptance (a ∷ items) xs =
    register_acceptance items (register_if (normalize_acceptance a) xs)

-- The item that evidence without one adds, which is not required.
abbrev pub added_by : Evidence → Item
added_by e = record {
  acceptance = record {
    id = e.acceptance_id;
    required = false;
    text = e.acceptance_id;
    proof = none;
    required_level = none;
  };
  status = reported e.status;
  level = e.level;
}

unfoldable pub assign_evidence : Evidence → List Item → List Item
assign_evidence e [] = added_by e ∷ []
assign_evidence e (x ∷ xs) =
    let rest = assign_evidence e xs in
    if x.acceptance.id == e.acceptance_id
    then record x { status = reported e.status; level = e.level } ∷ xs
    else x ∷ rest

-- `applyResultEvidence`, for the normalised evidence.
unfoldable pub apply_result_evidence : List Evidence → List Item → List Item
unfolding assign_evidence
apply_result_evidence [] xs = xs
apply_result_evidence (e ∷ es) xs = apply_result_evidence es (assign_evidence e xs)

-- What the gate is told of an item that evidence has named, and what it reads of that.
abbrev pub told : Item → Status → Evidence
told x st = normalize_evidence (
    gate_view (record {
      acceptance_id = x.acceptance.id;
      status = st;
      kind = "";
      summary = "";
      level = x.level;
    }))

abbrev pub tell : Item → Progress → List Evidence → List Evidence
tell x missing es = es
tell x (reported st) es = told x st ∷ es

unfoldable pub told_evidence : List Item → List Evidence
told_evidence [] = []
told_evidence (x ∷ xs) = tell x x.status (told_evidence xs)

abbrev pub acceptances : List Item → List Acceptance
acceptances xs = map (λ (x : Item). x.acceptance) xs

-- `gate`
unfoldable pub direct_gate : List Item → GateResult
unfolding told_evidence
direct_gate xs = evaluate_gate (acceptances xs) (told_evidence xs)

unfoldable pub find_direct : String → List Item → Option Item
find_direct id [] = none
find_direct id (x ∷ xs) = if x.acceptance.id == id then some x else find_direct id xs
