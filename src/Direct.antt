-- ===== src/Direct.antt =====
-- The state of a Direct run: createDirectGovernance of src/direct-governance.js with its registry, its
-- proof ledger and three of its metrics. `compute` is that of the ledger. The marks that the Brain sets
-- on steps, which the other calls do not read, are left out.
pub mod Items
pub mod Reviewed
pub mod Record
pub mod Runs
mod Examples
use chatgpt_codex_orchestrat.Prelude.{
  ℕ, suc, ◌+◌, String, Bool, true, false, not, ◌&&◌, ◌||◌, Option, none, some, List, [], ◌∷◌, ◌++◌,
  map, if◌then◌else◌, truthy, ◌==◌,
}
use chatgpt_codex_orchestrat.Table.{is_in}
use chatgpt_codex_orchestrat.Evidence.{Status, Level, Evidence, RawEvidence, normalize_evidence}
use chatgpt_codex_orchestrat.Evidence.Normal.{gate_view}
use chatgpt_codex_orchestrat.Gate.{
  ProofContract, Acceptance, RawAcceptance, normalize_acceptance, GateResult, evaluate_gate,
  is_pass,
}
use chatgpt_codex_orchestrat.Governance.Ledger.{
  Ledger, Proof, proof_pass, normalize_path, get_proof, invalidate_on_change, record_proof,
  is_fresh,
}
use chatgpt_codex_orchestrat.Registry.{Progress, missing, reported}
use chatgpt_codex_orchestrat.Direct.Items.{
  Item, acceptances, added_by, apply_result_evidence, assign_evidence, direct_gate, find_direct,
  register_acceptance, register_if, register_item, tell, told, told_evidence,
}

pub record Direct : Type 0 where
  pub registry : List Item
  pub ledger : Ledger
  pub stale_proofs : ℕ
  pub reused_proofs : ℕ
  pub verification_runs : ℕ
  pub current_step : Option String
  pub completed_steps : List String

abbrev pub new_direct : Direct
new_direct = record {
  registry = [];
  ledger = [];
  stale_proofs = 0;
  reused_proofs = 0;
  verification_runs = 0;
  current_step = none;
  completed_steps = [];
}

abbrev pub contract_of : Option Item → Option ProofContract
contract_of none = none
contract_of (some x) = x.acceptance.proof

-- `a || null`
abbrev pub text_or_null : Option String → Option String
text_or_null none = none
text_or_null (some s) = if truthy s then some s else none

abbrev pub is_true : Option Bool → Bool
is_true none = false
is_true (some b) = b

abbrev pub files_of : Option (List String) → List String
files_of none = []
files_of (some fs) = fs

abbrev or_text : String → String → String
or_text a b = if truthy a then a else b

-- The proof of an evidence that passes, by the contract of its item.
abbrev pub passing_proof : Evidence → Option String → ProofContract → Proof
passing_proof e step c = record {
  acceptance_id = e.acceptance_id;
  status = proof_pass;
  kind = or_text e.kind "verify";
  summary = or_text e.summary e.acceptance_id;
  verification_id = text_or_null c.verification_id;
  relevant_files = files_of c.relevant_files;
  fingerprints = [];
  dependency_free = is_true c.dependency_free;
  step_id = step;
}

abbrev pub is_there {ℓ} : {A : Type ℓ} → Option A → Bool
is_there none = false
is_there (some a) = true

-- `currentVerificationId`
abbrev pub verification_of : Option ProofContract → Option String
verification_of none = none
verification_of (some c) = text_or_null c.verification_id

-- What `markStepReviewed` answers.
pub data Review : Type 0 where
  blocked : List String → List String → Option String → Review
  reviewed : Option String → Review

abbrev pub or_current : Option String → Option String → Option String
or_current step current = if is_there (text_or_null step) then step else current

abbrev pub complete : Option String → List String → List String
complete none done = done
complete (some s) done = if not (truthy s) || is_in s done then done else done ++ s ∷ []

unfoldable pub mark_step_reviewed : Option String → Direct → Review × Direct
unfolding direct_gate is_in
mark_step_reviewed step d =
    let g = direct_gate d.registry in
    let s = or_current step d.current_step in
    if g.ok
    then (
      reviewed s,
      record d { completed_steps = complete s d.completed_steps; current_step = none },
    )
    else (blocked g.missing g.failed step, d)

-- The arguments of `transition`.
pub record Turn : Type 0 where
  pub step_id : Option String
  pub acceptance : List RawAcceptance
  pub changed : List String
  pub evidence : List RawEvidence

-- What `transition` returns.
pub record TurnResult : Type 0 where
  pub gate : GateResult
  pub recorded : List String
  pub step_id : Option String

pub data DirectCall : Type 0 where
  transitions : Turn → DirectCall
  reviews : Option String → DirectCall
  plans : List String → DirectCall

abbrev pub count : List String → ℕ
count [] = 0
count (_ ∷ xs) = suc (count xs)

module _ (compute : String → Option String) where
  abbrev stale_by : Evidence → ProofContract → Ledger → ℕ
  stale_by e c ledger =
      if is_there (get_proof e.acceptance_id ledger)
        && not (is_fresh compute e.acceptance_id (text_or_null c.verification_id) ledger)
      then 1
      else 0

  abbrev pub record_by_contract : Evidence → Option ProofContract → Direct → List String × Direct
  record_by_contract e none d = ([], d)
  record_by_contract e (some c) d = (
    e.acceptance_id ∷ [],
    record d {
      stale_proofs = d.stale_proofs + stale_by e c d.ledger;
      ledger = record_proof compute (passing_proof e d.current_step c) d.ledger;
    },
  )

  -- `recordPassingProof`, and the loop of `transition` that calls it.
  unfoldable pub record_passing_proof : Evidence → Direct → List String × Direct
  unfolding find_direct
  record_passing_proof e d =
      if is_pass e.status
      then record_by_contract e (contract_of (find_direct e.acceptance_id d.registry)) d
      else ([], d)

  unfoldable pub record_passing : List Evidence → Direct → List String × Direct
  unfolding record_passing_proof
  record_passing [] d = ([], d)
  record_passing (e ∷ es) d =
      let first = record_passing_proof e d in
      let rest = record_passing es first.1 in (first.0 ++ rest.0, rest.1)

  abbrev pub prepared : Turn → Direct → Direct
  prepared t d =
      let (ledger, n) = invalidate_on_change (map normalize_path t.changed) d.ledger in
      record d {
        current_step = or_current t.step_id d.current_step;
        registry =
            apply_result_evidence (map normalize_evidence t.evidence)
              (register_acceptance t.acceptance d.registry);
        ledger = ledger;
        stale_proofs = d.stale_proofs + n;
      }

  -- `transition`
  unfoldable pub direct_transition : Turn → Direct → TurnResult × Direct
  unfolding register_acceptance apply_result_evidence record_passing direct_gate
  direct_transition t d =
      let out = record_passing (map normalize_evidence t.evidence) (prepared t d) in
      (
        record {
          gate = direct_gate out.1.registry;
          recorded = out.0;
          step_id = out.1.current_step;
        },
        out.1,
      )

  -- The ids whose proof is reused, and those that must be verified.
  unfoldable pub plan_verification : List String → Direct → List String × List String
  unfolding find_direct
  plan_verification [] d = ([], [])
  plan_verification (id ∷ ids) d =
      let rest = plan_verification ids d in
      if is_fresh compute id (verification_of (contract_of (find_direct id d.registry))) d.ledger
      then (id ∷ rest.0, rest.1)
      else (rest.0, id ∷ rest.1)

  -- `planVerification`, which counts both.
  unfoldable pub plan_direct : List String → Direct → (List String × List String) × Direct
  unfolding plan_verification
  plan_direct ids d =
      let plan = plan_verification ids d in
      (
        plan,
        record d {
          reused_proofs = d.reused_proofs + count plan.0;
          verification_runs = d.verification_runs + count plan.1;
        },
      )

  unfoldable pub after_call : Direct → DirectCall → Direct
  unfolding direct_transition mark_step_reviewed plan_direct
  after_call d (transitions t) = (direct_transition t d).1
  after_call d (reviews step) = (mark_step_reviewed step d).1
  after_call d (plans ids) = (plan_direct ids d).1

  unfoldable pub after_calls : Direct → List DirectCall → Direct
  unfolding after_call
  after_calls d [] = d
  after_calls d (c ∷ cs) = after_calls (after_call d c) cs
