-- ===== src/Registry/Examples.antt =====
-- A control that registers an item, and two results about it.
use chatgpt_codex_orchestrat.Prelude.{
  String, ◌≡◌, ◌↔◌, refl, true, Option, none, some, List, [], ◌∷◌,
}
use chatgpt_codex_orchestrat.Evidence.{object, normalize_evidence}
use chatgpt_codex_orchestrat.Registry.{
  Registered, Task, ResultObject, normalize_result, same_entry, apply_evidence, is_pass_status,
  check_acceptance_gate, RegistryCall, registers, applies, registry_run,
}
use chatgpt_codex_orchestrat.Registry.Runs.{IsTidy, Extends, registry_run-IsTidy}
use chatgpt_codex_orchestrat.Registry.Verdict.{
  find_registered, progress_of, last_word, apply_verdict,
}

abbrev nothing_yet : Task
nothing_yet = record { registry = []; ledger = [] }

abbrev failing : ResultObject
failing = record {
  step_id = some "s1";
  evidence = object (some "tests") none (some "failed") (some "test") (some "red") none none ∷ [];
}

abbrev passing : ResultObject
passing = record {
  step_id = some "s1";
  evidence =
      object (some "tests") none (some "failed") (some "test") (some "red") none none
      ∷ object (some "tests") none (some "Passed") (some "test") (some "green") none none
      ∷ [];
}

abbrev calls : List RegistryCall
calls =
    registers (record { id = some "tests"; required = true; text = "the tests pass" } ∷ [])
    ∷ applies failing
    ∷ []

nothing-IsTidy : IsTidy nothing_yet
nothing-IsTidy = record { ids = tt; entries = tt }

registry_run-IsTidy_example :
    IsTidy (registry_run nothing_yet calls)
    × Extends nothing_yet.ledger (registry_run nothing_yet calls).ledger
registry_run-IsTidy_example = registry_run-IsTidy calls nothing_yet nothing-IsTidy

apply_verdict_example :
    let s = registry_run nothing_yet calls in
    let xs = (apply_evidence passing s).registry in
    ((id : Option String)
      → progress_of (find_registered id xs)
        ≡ last_word id (normalize_result passing).1 (progress_of (find_registered id s.registry)))
    × ((check_acceptance_gate xs ≡ true) ↔ (
        (id : Option String) (x : Registered)
        → find_registered id xs ≡ some x
        → x.required ≡ true
        → is_pass_status x.status ≡ true))
apply_verdict_example =
    apply_verdict passing (registry_run nothing_yet calls)
      (registry_run-IsTidy calls nothing_yet nothing-IsTidy).0

-- The last piece of evidence decides.
now_passing :
    check_acceptance_gate (apply_evidence passing (registry_run nothing_yet calls)).registry ≡ true
unfolding check_acceptance_gate apply_evidence registry_run same_entry normalize_evidence
now_passing = refl
