-- ===== src/Governance/Results.antt =====
-- Executor results: `GovernanceService.recordResult` of src/governance/index.js.
use chatgpt_codex_orchestrat.Prelude.{
  ℕ, suc, String, Bool, true, false, not, ◌||◌, Option, none, some, List, [], ◌∷◌, ◌++◌,
  if◌then◌else◌, truthy, Result, ok, thrown, ◌==◌,
}
use chatgpt_codex_orchestrat.Evidence.{Evidence, RawEvidence, normalize_evidence}
use chatgpt_codex_orchestrat.Gate.{ProofContract, is_pass}
use chatgpt_codex_orchestrat.Governance.Ledger.{
  Ledger, Proof, proof_pass, record_proof, invalidate_on_change, is_fresh,
}
use chatgpt_codex_orchestrat.Governance.State.{
  MachineGate, BrainAcceptance, pending, Item, Step, Publication, HistoryEntry, proofs_invalidated,
  proof_recorded, publication_entry, result_entry, State, find_step, put_step, given,
  compute_machine_gate, sync_acceptance_status,
}
use chatgpt_codex_orchestrat.Governance.Handoff.{Handoff, result_handoff, drop_empty}
use chatgpt_codex_orchestrat.Governance.Controls.{
  Governance, GovernanceError, task_required, result_after_done, result_needs_step,
  result_not_active, step_missing, is_terminal_done, bind_task,
}

-- A single changed path is the list of it.
pub record ResultArgs : Type 0 where
  pub task_id : Option String
  pub step_id : Option String
  pub executor_status : String
  pub evidence : Option (List RawEvidence)
  pub changed : Option (List String)
  pub publication : Option Publication

pub record ResultOutcome : Type 0 where
  pub task_id : Option String
  pub step_id : String
  pub executor_status : String
  pub machine_gate : MachineGate
  pub brain_acceptance : BrainAcceptance
  pub recorded_proofs : ℕ
  pub reusable : List (String × Bool)
  pub changed : List String
  pub publication_required : Bool
  pub publish_result : Option Publication
  pub published : Bool
  pub handoff : Handoff

-- `.map(normalizeEvidence).filter((e) => e && e.acceptanceId)`
unfoldable pub evidence_of : List RawEvidence → List Evidence
evidence_of [] = []
evidence_of (raw ∷ raws) =
    let rest = evidence_of raws in
    let e = normalize_evidence raw in if truthy e.acceptance_id then e ∷ rest else rest

abbrev pub set_evidence : Option (List RawEvidence) → Step → Step
set_evidence none st = st
set_evidence (some raws) st = record st { evidence = evidence_of raws }

abbrev pub set_changed : Option (List String) → Step → Step
set_changed none st = st
set_changed (some files) st = record st { changed = files }

-- The step after the result: evidence, item statuses, changed files, gate, no Brain acceptance.
unfoldable pub result_step : ResultArgs → Step → Step
result_step args st =
    let ran = record st { executor_status = args.executor_status } in
    let seen = set_changed args.changed (sync_acceptance_status (set_evidence args.evidence ran)) in
    record seen { machine_gate = compute_machine_gate seen; brain_acceptance = pending }

abbrev is_cons {ℓ} : {A : Type ℓ} → Option (List A) → Bool
is_cons (some (_ ∷ _)) = true
is_cons _ = false

abbrev is_set : Option Bool → Bool
is_set (some b) = b
is_set none = false

abbrev files_or_none : Option (List String) → List String
files_or_none none = []
files_or_none (some files) = files

-- The proof contract of the first item with an id, if it makes a proof reusable.
unfoldable pub reusable_contract : String → List Item → Option ProofContract
reusable_contract id [] = none
reusable_contract id (i ∷ items) =
    if i.contract.id == id
    then elim i.contract.proof [
      | none ↦ none
      | some c ↦
          if is_cons c.relevant_files || (is_set c.dependency_free || given c.verification_id)
          then some c
          else none
    ]
    else reusable_contract id items

abbrev proof_from : String → Evidence → ProofContract → Proof
proof_from step e c = record {
  acceptance_id = e.acceptance_id;
  status = proof_pass;
  kind = e.kind;
  summary = e.summary;
  verification_id = drop_empty c.verification_id;
  relevant_files = files_or_none c.relevant_files;
  fingerprints = [];
  dependency_free = is_set c.dependency_free;
  step_id = some step;
}

abbrev contract_for : Evidence → List Item → Option ProofContract
contract_for e items = if is_pass e.status then reusable_contract e.acceptance_id items else none

abbrev invalidated : Option (List String) → Ledger → Ledger × ℕ
invalidated none ledger = (ledger, 0)
invalidated (some files) ledger = invalidate_on_change files ledger

abbrev change_entries : Option (List String) → ℕ → List HistoryEntry
change_entries none n = []
change_entries (some files) n = proofs_invalidated n files ∷ []

abbrev publication_entries : Option Publication → List HistoryEntry
publication_entries none = []
publication_entries (some p) = publication_entry p.ok ∷ []

abbrev pub set_publication : Option Publication → State → State
set_publication none s = s
set_publication (some p) s = record s { publish_result = some p; published = p.ok }

abbrev count {ℓ} : {A : Type ℓ} → List A → ℕ
count [] = 0
count (_ ∷ xs) = suc (count xs)

abbrev pub ResultAnswer : Type 0
ResultAnswer = Result GovernanceError ResultOutcome × Governance

abbrev pub answer_result : ResultOutcome × Governance → ResultAnswer
answer_result (o, g) = (ok o, g)

abbrev pub at_step : Option String → String → Bool
at_step none id = false
at_step (some cur) id = cur == id

abbrev pub bind_given : Option String → State → Result GovernanceError (Unit {0}) × State
bind_given none s = (ok tt, s)
bind_given (some t) s = bind_task t s

module _ (compute : String → Option String) where
  -- The loop that records proofs: the ledger, the entries of the history.
  unfoldable pub record_proofs :
      String → List Item → List Evidence → Ledger → Ledger × List HistoryEntry
  record_proofs step items [] ledger = (ledger, [])
  record_proofs step items (e ∷ es) ledger = elim (contract_for e items) [
    | none ↦ record_proofs step items es ledger
    | some c ↦
        let (ledger', log) =
          record_proofs step items es (record_proof compute (proof_from step e c) ledger) in
        (ledger', proof_recorded e.acceptance_id step ∷ log)
  ]

  unfoldable pub reusable_by_acceptance : List Evidence → Ledger → List (String × Bool)
  reusable_by_acceptance [] ledger = []
  reusable_by_acceptance (e ∷ es) ledger =
      let rest = reusable_by_acceptance es ledger in
      if is_pass e.status
      then (e.acceptance_id, is_fresh compute e.acceptance_id none ledger) ∷ rest
      else rest

  -- The result on the step that it is for.
  unfoldable pub apply_result : String → ResultArgs → Step → Governance → ResultOutcome × Governance
  unfolding result_step record_proofs
  apply_result id args old g =
      let st = result_step args old in
      let (stale, n) = invalidated args.changed g.ledger in
      let (ledger, log) = record_proofs id st.acceptance st.evidence stale in
      let s = set_publication args.publication (record g.state {
        steps = put_step id st g.steps;
        history =
            g.history
            ++ (change_entries args.changed n
                ++ (log
                    ++ (publication_entries args.publication
                        ++ result_entry id args.executor_status st.machine_gate st.changed ∷ [])));
      }) in
      (
        record {
          task_id = s.task_id;
          step_id = id;
          executor_status = args.executor_status;
          machine_gate = st.machine_gate;
          brain_acceptance = st.brain_acceptance;
          recorded_proofs = count log;
          reusable = reusable_by_acceptance st.evidence ledger;
          changed = st.changed;
          publication_required = s.publication_required;
          publish_result = s.publish_result;
          published = s.published;
          handoff = result_handoff s st;
        },
        record g { state = s; ledger = ledger },
      )

  unfoldable pub result_found : String → ResultArgs → Governance → Option Step → ResultAnswer
  unfolding apply_result
  result_found id args g none = (thrown step_missing, g)
  result_found id args g (some st) = answer_result (apply_result id args st g)

  -- The step must be given, be the current one, and be there.
  unfoldable pub result_for : Option String → ResultArgs → Governance → ResultAnswer
  unfolding result_found
  result_for none args g = (thrown result_needs_step, g)
  result_for (some id) args g =
      if not (truthy id)
      then (thrown result_needs_step, g)
      else (if not (at_step g.current_step_id id)
          then (thrown result_not_active, g)
          else result_found id args g (find_step id g.steps))

  unfoldable pub result_on_step : ResultArgs → Governance → ResultAnswer
  unfolding result_for
  result_on_step args g =
      if not (given g.task_id) then (thrown task_required, g) else result_for args.step_id args g

  abbrev pub bound :
      ResultArgs → Governance → Result GovernanceError (Unit {0}) × State → ResultAnswer
  bound args g (thrown e, s) = (thrown e, record g { state = s })
  bound args g (ok _, s) = result_on_step args (record g { state = s })

  unfoldable pub record_result : ResultArgs → Governance → ResultAnswer
  record_result args g =
      if is_terminal_done g.control
      then (thrown result_after_done, g)
      else bound args g (bind_given args.task_id g.state)
