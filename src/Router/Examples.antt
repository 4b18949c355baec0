-- ===== src/Router/Examples.antt =====
-- Runs of the router, and its theorems at concrete facts.
use chatgpt_codex_orchestrat.Prelude.{◌≡◌, refl, ◌↔◌, some, ok, thrown, true, false}
use chatgpt_codex_orchestrat.Router.{
  codex_delegate, hybrid, codex, missing, boolean, other, RawFacts, Facts, requires_native,
  requires_local, mutation_required, multi_file, not_boolean, iterative, read_facts,
  validate_consistency, normalize_facts, decide_facts, decide_route, decide_strict, select_route,
  route_local_leg, owner_for_local_leg,
}
use chatgpt_codex_orchestrat.Router.Validation.{
  IsConsistent, Reads, normalize-IsConsistent, strict-route,
}
use chatgpt_codex_orchestrat.Router.Selection.{Selects, decide-Selects}
use chatgpt_codex_orchestrat.Router.Ownership.{OwnerContract, decide-OwnerContract}

abbrev refactoring : RawFacts
refactoring requires_native = boolean true
refactoring requires_local = boolean true
refactoring mutation_required = boolean true
refactoring multi_file = boolean true
refactoring _ = missing

abbrev refactoring_facts : Facts
refactoring_facts = record {
  requires_native = true;
  requires_local = true;
  read_only = false;
  mutation_required = true;
  exact_change_known = false;
  bounded_change = false;
  multi_file = true;
  unknown_root_cause = false;
  iterative = false;
  long_running = false;
}

refactoring_decided : decide_route refactoring ≡ ok (decide_facts refactoring_facts)
unfolding decide_route normalize_facts read_facts validate_consistency
refactoring_decided = refl

refactoring_owner : (decide_facts refactoring_facts).mutation_owner ≡ codex
unfolding decide_facts select_route route_local_leg owner_for_local_leg
refactoring_owner = refl

not_boolean_refused :
    decide_route (λ k. elim k [ iterative ↦ other | _ ↦ missing ]) ≡ thrown (not_boolean iterative)
unfolding decide_route normalize_facts read_facts
not_boolean_refused = refl

normalize-IsConsistent_example :
    (normalize_facts refactoring ≡ ok refactoring_facts)
    ↔ (Reads refactoring refactoring_facts × IsConsistent refactoring_facts)
normalize-IsConsistent_example = normalize-IsConsistent refactoring refactoring_facts

strict-route_example : decide_strict refactoring ≡ decide_route refactoring
strict-route_example = strict-route refactoring

decide-Selects_example :
    Selects (decide_facts refactoring_facts).facts hybrid (some codex_delegate) ↔ (
      ((decide_facts refactoring_facts).route ≡ hybrid)
      × ((decide_facts refactoring_facts).local_route ≡ some codex_delegate))
decide-Selects_example =
    decide-Selects refactoring (decide_facts refactoring_facts) hybrid (some codex_delegate)
      refactoring_decided

decide-OwnerContract_example : OwnerContract (decide_facts refactoring_facts)
decide-OwnerContract_example =
    decide-OwnerContract refactoring (decide_facts refactoring_facts) refactoring_decided
