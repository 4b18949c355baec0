-- ===== src/MutationOwner/Examples.antt =====
-- Runs of the ownership object, and its theorems at concrete calls.
use chatgpt_codex_orchestrat.Prelude.{
  ◌≡◌, ◌≢◌, ◌⊎◌, refl, some, List, [], ◌∷◌, true, false, ok, thrown,
}
use chatgpt_codex_orchestrat.MutationOwner.{
  chatgpt, codex, running, reconciled, interrupted, Ownership, unowned, Call, acquire_call,
  mark_call, release_call, owned_by, unit_not_running, acquire, assert_can_write, call, run,
}
use chatgpt_codex_orchestrat.MutationOwner.Exclusion.{
  IsWellFormed, run-IsWellFormed, ReleasesIn, owner_change-ReleasesIn, SettlesIn,
  unit_change-SettlesIn, acquire_excludes,
}

abbrev codex_running : Ownership
codex_running = record { owner = codex; unit_id = some "job#1"; unit_state = some running }

abbrev handover : List Call
handover =
    acquire_call (some chatgpt) (some "edit")
    ∷ mark_call (some reconciled)
    ∷ release_call false
    ∷ acquire_call (some chatgpt) (some "edit")
    ∷ []

handover_ends : (run codex_running handover).owner ≡ chatgpt
unfolding run call
handover_ends = refl

interrupted_unit_refused :
    acquire (some codex) (some "job#1") (record codex_running { unit_state = some interrupted })
    ≡ thrown (unit_not_running (some interrupted))
unfolding acquire
interrupted_unit_refused = refl

run-IsWellFormed_example : IsWellFormed (run unowned handover)
run-IsWellFormed_example = run-IsWellFormed handover

owner_change-ReleasesIn_example : ReleasesIn codex_running handover
unfolding run call
owner_change-ReleasesIn_example = owner_change-ReleasesIn codex_running handover (λ e. cc) (λ e. cc)

unit_change-SettlesIn_example :
    SettlesIn codex_running handover
    ⊎ ((run codex_running handover).owner ≡ codex)
      × ((run codex_running handover).unit_id ≡ some "job#1")
unit_change-SettlesIn_example = unit_change-SettlesIn codex_running handover (λ e. cc) (λ e. cc)

acquired : acquire (some codex) (some "job#1") unowned ≡ ok ((codex, "job#1"), codex_running)
unfolding acquire
acquired = refl

acquire_excludes_example :
    (assert_can_write codex codex_running ≡ ok true)
    × (codex ≢ chatgpt → assert_can_write chatgpt codex_running ≡ thrown (owned_by codex))
    × (acquire (some codex) (some "job#1") codex_running ≡ ok ((codex, "job#1"), codex_running))
acquire_excludes_example =
    acquire_excludes unowned codex_running codex chatgpt "job#1" (codex, "job#1") acquired
