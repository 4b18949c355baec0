-- ===== src/Gate/Examples.antt =====
-- The gate and its theorems on a concrete step.
use chatgpt_codex_orchestrat.Prelude.{◌≡◌, ◌↔◌, refl, none, some, List, [], ◌∷◌, true, false, apart}
use chatgpt_codex_orchestrat.Evidence.{
  observed, Evidence, RawEvidence, object, level_ok, normalize_evidence,
}
use chatgpt_codex_orchestrat.Evidence.Normal.{gate_view, normalize_again}
use chatgpt_codex_orchestrat.Gate.{Acceptance, evaluate_gate}
use chatgpt_codex_orchestrat.Gate.Exact.{All, Satisfies, Distinct, gate-Satisfies}

abbrev tests_pass : Acceptance
tests_pass = record {
  id = "tests";
  required = true;
  text = "tests pass";
  proof = none;
  required_level = some observed;
}

abbrev docs : Acceptance
docs = record { id = "docs"; required = false; text = "docs"; proof = none; required_level = none }

abbrev raw_pass : RawEvidence
raw_pass = object none (some "tests") (some "Passed") none (some "42 tests") none (some "observed")

abbrev raw_fail : RawEvidence
raw_fail = object (some "tests") none (some "failed") none none none (some "observed")

abbrev evidence : List Evidence
evidence = normalize_evidence raw_fail ∷ normalize_evidence raw_pass ∷ []

later_evidence_counts : (evaluate_gate (tests_pass ∷ docs ∷ []) evidence).ok ≡ true
unfolding evaluate_gate normalize_evidence level_ok
later_evidence_counts = refl

distinct : Distinct (tests_pass ∷ docs ∷ [])
distinct = ((apart "tests" "docs" refl, tt), (tt, tt))

gate-Satisfies_example :
    let g = evaluate_gate (tests_pass ∷ docs ∷ []) evidence in
    ((g.ok ≡ true) ↔ All (λ a. a.required ≡ true → Satisfies evidence a) (tests_pass ∷ docs ∷ []))
    × ((g.ok ≡ true) ↔ ((g.missing ≡ []) × (g.failed ≡ []) × (g.level_failed ≡ [])))
gate-Satisfies_example = gate-Satisfies (tests_pass ∷ docs ∷ []) evidence distinct

normalize_again_example :
    let e = normalize_evidence raw_pass in
    let n = normalize_evidence (gate_view e) in
    (n.acceptance_id ≡ e.acceptance_id) × (n.status ≡ e.status) × (n.level ≡ e.level)
normalize_again_example = normalize_again raw_pass
