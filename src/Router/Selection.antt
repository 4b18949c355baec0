-- ===== src/Router/Selection.antt =====
-- Which route, owner and access mode a decision has (`decideRoute` of src/router/decide.js).
use mathlib.Core.Path.{subst₂}
use chatgpt_codex_orchestrat.Prelude.{
  ◌≡◌, refl, sym, ◌↔◌, ◌⊎◌, inl, inr, Bool-cases, true, false, Option, none, some, arith, ok,
  bind_returned, ok-injective,
}
use chatgpt_codex_orchestrat.Router.{
  Route, chatgpt_native, chatgpt_direct_local, codex_delegate, hybrid, RawFacts, Facts, Decision,
  decide_facts, decide_route, local_leg_of, route_local_leg, normalize_facts, select_route,
}
use chatgpt_codex_orchestrat.Router.Validation.{IsConsistent, normalize-IsConsistent}

-- The decision table of the router's contract, apart from the code: what the local leg is.
pub data Leg (f : Facts) : Route → Type 0 where
  no_mutation : (f.read_only ≡ true) ⊎ (f.mutation_required ≡ false) → Leg f chatgpt_direct_local
  open_ended :
      f.read_only ≡ false
      → f.mutation_required ≡ true
      → (f.multi_file ≡ true)
        ⊎ (f.unknown_root_cause ≡ true)
        ⊎ (f.iterative ≡ true)
        ⊎ (f.long_running ≡ true)
      → Leg f codex_delegate
  not_exact :
      f.read_only ≡ false
      → f.mutation_required ≡ true
      → (f.bounded_change ≡ false) ⊎ (f.exact_change_known ≡ false)
      → Leg f codex_delegate
  exact :
      f.read_only ≡ false
      → f.mutation_required ≡ true
      → (f.multi_file ≡ false)
        × (f.unknown_root_cause ≡ false)
        × (f.iterative ≡ false)
        × (f.long_running ≡ false)
      → (f.bounded_change ≡ true) × (f.exact_change_known ≡ true)
      → Leg f chatgpt_direct_local

-- The route and the local leg of a composition.
pub data Selects (f : Facts) : Route → Option Route → Type 0 where
  no_local : f.requires_local ≡ false → Selects f chatgpt_native none
  local_alone :
      {leg : Route}
      → f.requires_native ≡ false
      → f.requires_local ≡ true
      → Leg f leg
      → Selects f leg none
  composed :
      {leg : Route}
      → f.requires_native ≡ true
      → f.requires_local ≡ true
      → Leg f leg
      → Selects f hybrid (some leg)

Leg-sound : (f : Facts) → Leg f (route_local_leg f)
unfolding route_local_leg
Leg-sound f = grind (arith, no_mutation, open_ended, not_exact, exact)

Leg-unique : {f : Facts} {r : Route} → Leg f r → route_local_leg f ≡ r
unfolding route_local_leg
Leg-unique (no_mutation h) = ground arith
Leg-unique (open_ended h k l) = ground arith
Leg-unique (not_exact h k l) = ground arith
Leg-unique (exact h k l m) = ground arith

leg_places :
    (f : Facts) → (route_local_leg f ≡ chatgpt_direct_local) ⊎ (route_local_leg f ≡ codex_delegate)
unfolding route_local_leg
leg_places f = ground arith

-- a local leg alone has no leg of its own
local_alone-Leg :
    {f : Facts} {leg : Route}
    → Leg f leg
    → f.requires_native ≡ false
    → f.requires_local ≡ true
    → Selects f leg (local_leg_of leg f)
local_alone-Leg (no_mutation h) n l = local_alone n l (no_mutation h)
local_alone-Leg (open_ended h k m) n l = local_alone n l (open_ended h k m)
local_alone-Leg (not_exact h k m) n l = local_alone n l (not_exact h k m)
local_alone-Leg (exact h k m p) n l = local_alone n l (exact h k m p)

-- the selection, by what the facts require
select_cases : (f : Facts) → Selects f (decide_facts f).route (decide_facts f).local_route
unfolding decide_facts select_route
select_cases f = elim (Bool-cases f.requires_local) [
  | inl local ↦ elim (Bool-cases f.requires_native) [
    | inl native ↦ simp (local, native) (composed native local (Leg-sound f))
    | inr alone ↦ simp (alone, local) (local_alone-Leg (Leg-sound f) alone local)
  ]
  | inr remote ↦ elim (Bool-cases f.requires_native) [
    | inl native ↦ simp (native, remote) (no_local remote)
    | inr alone ↦ simp (alone, remote) (no_local remote)
  ]
]

select_unique :
    {f : Facts} {r : Route} {l : Option Route}
    → Selects f r l
    → ((decide_facts f).route ≡ r) × ((decide_facts f).local_route ≡ l)
unfolding decide_facts select_route
select_unique (no_local h) = ground arith
select_unique {f} (local_alone n l g) = ground (arith, Leg-unique g, leg_places f)
select_unique (composed n l g) = ground (arith, Leg-unique g)

select_exact :
    (f : Facts) (r : Route) (l : Option Route)
    → Selects f r l ↔ (((decide_facts f).route ≡ r) × ((decide_facts f).local_route ≡ l))
select_exact f r l = (λ s. select_unique s, λ h. subst₂ (Selects f) h.0 h.1 (select_cases f))

pub decide_ok :
    (raw : RawFacts) (d : Decision)
    → decide_route raw ≡ ok d
    → (f : Facts) × (d ≡ decide_facts f) × IsConsistent f
unfolding decide_route
decide_ok raw d h =
    let (f, k, e) = bind_returned (normalize_facts raw) _ h in
    (f, sym (ok-injective k), ((normalize-IsConsistent raw f).0 e).1)

facts_of : (f : Facts) → (decide_facts f).facts ≡ f
unfolding decide_facts
facts_of f = refl

select_facts :
    (f : Facts) (r : Route) (l : Option Route)
    → Selects (decide_facts f).facts r l
      ↔ (((decide_facts f).route ≡ r) × ((decide_facts f).local_route ≡ l))
select_facts f r l = rw facts_of (select_exact f r l)

-- For every input that the router accepts, the route and the local leg of the decision are those
-- that the decision table `Selects` gives to its facts, and the table gives no other.
pub decide-Selects :
    (raw : RawFacts) (d : Decision) (r : Route) (l : Option Route)
    → decide_route raw ≡ ok d
    → Selects d.facts r l ↔ ((d.route ≡ r) × (d.local_route ≡ l))
decide-Selects raw d r l h = let (f, e, c) = decide_ok raw d h in rw e (select_facts f r l)
