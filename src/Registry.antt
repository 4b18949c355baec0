-- ===== src/Registry.antt =====
-- The acceptance registry and the evidence ledger of a task: registerAcceptances, checkAcceptanceGate,
-- appendLedgerEvidence and applyEvidence of src/protocol.js. The id and the time of an entry of the
-- ledger are left out.
pub mod Distinct
pub mod Runs
pub mod Verdict
mod Examples
use chatgpt_codex_orchestrat.Prelude.{
  String, Bool, true, false, not, ◌&&◌, ◌||◌, Option, none, some, List, [], ◌∷◌, ◌++◌, map,
  if◌then◌else◌, truthy, ◌==◌,
}
use chatgpt_codex_orchestrat.Evidence.{
  Status, pass, fail, unknown, RawEvidence, object, Evidence, normalize_evidence, or_else,
}
use chatgpt_codex_orchestrat.Evidence.Normal.{status_text, level_text}

-- The status of an item: `missing` until evidence names it.
pub data Progress : Type 0 where
  missing : Progress
  reported : Status → Progress

pub record Registered : Type 0 where
  pub id : Option String
  pub required : Bool
  pub text : String
  pub status : Progress

pub record Entry : Type 0 where
  pub step_id : Option String
  pub acceptance_id : String
  pub status : Status
  pub kind : String
  pub summary : String

pub record Task : Type 0 where
  pub registry : List Registered
  pub ledger : List Entry

-- What `normalizeResult` reads of a result.
pub record ResultObject : Type 0 where
  pub step_id : Option String
  pub evidence : List RawEvidence

-- An item of a repaired control.
pub record ControlItem : Type 0 where
  pub id : Option String
  pub required : Bool
  pub text : String

unfoldable pub same_id : Option String → Option String → Bool
same_id none none = true
same_id (some a) (some b) = a == b
same_id _ _ = false

unfoldable pub same_status : Status → Status → Bool
same_status pass pass = true
same_status fail fail = true
same_status unknown unknown = true
same_status _ _ = false

unfoldable pub is_registered : Option String → List Registered → Bool
is_registered id [] = false
is_registered id (x ∷ xs) = same_id x.id id || is_registered id xs

-- `registerAcceptances`
unfoldable pub register_acceptances : List ControlItem → Task → Task
unfolding is_registered
register_acceptances [] s = s
register_acceptances (a ∷ items) s = register_acceptances items (
    if is_registered a.id s.registry then s else record s {
      registry =
          s.registry
          ++ record { id = a.id; required = a.required; text = a.text; status = missing } ∷ [];
    })

-- The same step, acceptance, status and kind.
unfoldable pub same_entry : Entry → Entry → Bool
unfolding same_id same_status
same_entry x y =
    same_id x.step_id y.step_id
    && (x.acceptance_id == y.acceptance_id && (same_status x.status y.status && x.kind == y.kind))

unfoldable pub has_entry : Entry → List Entry → Bool
has_entry e [] = false
has_entry e (x ∷ xs) = same_entry x e || has_entry e xs

-- `res.stepId || null`
abbrev pub text_or_null : Option String → Option String
text_or_null none = none
text_or_null (some s) = if truthy s then some s else none

abbrev pub entry_of : Option String → Evidence → Entry
entry_of step e = record {
  step_id = text_or_null step;
  acceptance_id = e.acceptance_id;
  status = e.status;
  kind = if truthy e.kind then e.kind else "verify";
  summary =
      if truthy e.summary
      then e.summary
      else (if truthy e.acceptance_id then e.acceptance_id else "");
}

abbrev pub add_entry : Entry → Task → Task
add_entry e s = if has_entry e s.ledger then s else record s { ledger = s.ledger ++ e ∷ [] }

unfoldable pub append_each : Option String → List Evidence → Task → Task
unfolding has_entry
append_each step [] s = s
append_each step (e ∷ es) s = append_each step es (add_entry (entry_of step e) s)

-- A normalised piece of evidence, as it is read again.
abbrev pub view : Evidence → RawEvidence
view e =
    object (some e.acceptance_id) none (some (status_text e.status)) (some e.kind) (some e.summary)
      none (level_text e.level)

-- The evidence and the step of `normalizeResult`.
unfoldable pub normalize_result : ResultObject → Option String × List Evidence
normalize_result r = (text_or_null r.step_id, map normalize_evidence r.evidence)

abbrev pub result_view : Option String × List Evidence → ResultObject
result_view (step, es) = record { step_id = step; evidence = map view es }

-- `appendLedgerEvidence`
unfoldable pub append_ledger_evidence : ResultObject → Task → Task
unfolding normalize_result append_each
append_ledger_evidence r s = let norm = normalize_result r in append_each norm.0 norm.1 s

-- The first item of the id gets the status; where there is none, one is added.
unfoldable pub report : Evidence → List Registered → List Registered
report e [] =
    record {
      id = some e.acceptance_id;
      required = true;
      text = e.acceptance_id;
      status = reported e.status;
    }
    ∷ []
report e (x ∷ xs) =
    let rest = report e xs in
    if same_id x.id (some e.acceptance_id)
    then record x { status = reported e.status } ∷ xs
    else x ∷ rest

unfoldable pub report_each : List Evidence → List Registered → List Registered
unfolding report
report_each [] xs = xs
report_each (e ∷ es) xs = report_each es (report e xs)

-- `applyEvidence`, which hands its normalised result to the ledger.
unfoldable pub apply_evidence : ResultObject → Task → Task
unfolding append_ledger_evidence report_each normalize_result
apply_evidence r s =
    let norm = normalize_result r in
    let s' = append_ledger_evidence (result_view norm) s in
    record s' { registry = report_each norm.1 s'.registry }

abbrev pub is_pass_status : Progress → Bool
is_pass_status (reported pass) = true
is_pass_status _ = false

unfoldable pub failures : List Registered → List Registered
failures [] = []
failures (x ∷ xs) =
    let rest = failures xs in if x.required && not (is_pass_status x.status) then x ∷ rest else rest

abbrev pub is_nil {ℓ} : {A : Type ℓ} → List A → Bool
is_nil [] = true
is_nil (x ∷ xs) = false

-- `checkAcceptanceGate(registry).allPass`
unfoldable pub check_acceptance_gate : List Registered → Bool
unfolding failures
check_acceptance_gate xs = is_nil (failures xs)

pub data RegistryCall : Type 0 where
  registers : List ControlItem → RegistryCall
  applies : ResultObject → RegistryCall

unfoldable pub registry_call : Task → RegistryCall → Task
unfolding register_acceptances apply_evidence
registry_call s (registers items) = register_acceptances items s
registry_call s (applies r) = apply_evidence r s

unfoldable pub registry_run : Task → List RegistryCall → Task
unfolding registry_call
registry_run s [] = s
registry_run s (c ∷ cs) = registry_run (registry_call s c) cs
