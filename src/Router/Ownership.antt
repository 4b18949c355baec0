-- ===== src/Router/Ownership.antt =====
-- Who owns the mutation of a decision, and what access Codex has (`ownerForLocalLeg` and
-- `codexAccessForRoute` of src/router/decide.js).
use chatgpt_codex_orchestrat.Prelude.{◌≡◌, ◌≢◌, ◌↔◌, ◌⊎◌, true, some, arith, ok}
use chatgpt_codex_orchestrat.Router.{
  codex_delegate, nobody, codex, read_only, workspace_write, RawFacts, Facts, Decision,
  decide_facts, decide_route, route_local_leg, select_route, owner_for_local_leg,
  codex_access_for_route,
}
use chatgpt_codex_orchestrat.Router.Validation.{IsConsistent}
use chatgpt_codex_orchestrat.Router.Selection.{decide_ok}

-- What the router promises of the owner and of Codex's access.
pub record OwnerContract (d : Decision) : Type 0 where
  pub mutates : (d.mutation_owner ≢ nobody) ↔ (d.facts.mutation_required ≡ true)
  pub codex_writes : (d.mutation_owner ≡ codex) ↔ (d.codex_access ≡ some workspace_write)
  pub codex_executes :
      (d.mutation_owner ≡ codex)
      ↔ ((d.route ≡ codex_delegate) ⊎ (d.local_route ≡ some codex_delegate))
  pub never_read_only : d.codex_access ≢ some read_only

owner_of_facts : (f : Facts) → IsConsistent f → OwnerContract (decide_facts f)
unfolding decide_facts select_route route_local_leg owner_for_local_leg codex_access_for_route
owner_of_facts f c = ground arith

-- In every decision the router makes: somebody owns the mutation exactly if the facts require one;
-- Codex owns it exactly if Codex may write the workspace, and exactly if the route, or the local leg
-- of a composition, is the delegation to Codex; and Codex is never given read-only access.
pub decide-OwnerContract :
    (raw : RawFacts) (d : Decision) → decide_route raw ≡ ok d → OwnerContract d
decide-OwnerContract raw d h = let (f, e, c) = decide_ok raw d h in rw e (owner_of_facts f c)
