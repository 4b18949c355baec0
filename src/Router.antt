-- ===== src/Router.antt =====
-- The Capability Router: src/router/decide.js and src/router/capability-router.js.
-- A fact that the caller passes is absent (undefined or null), a Boolean, or any other value; the
-- caller's object is a function from the fact names, since keys outside FACT_KEYS are ignored.
pub mod Validation
pub mod Selection
pub mod Ownership
mod Examples
use chatgpt_codex_orchestrat.Prelude.{
  Bool, true, false, not, ◌&&◌, ◌||◌, Option, none, some, List, [], ◌∷◌, ◌++◌, if◌then◌else◌,
  Result, ok, thrown, ◌>>=◌, ◌>>◌, guard,
}

pub data Route : Type 0 where
  chatgpt_native chatgpt_direct_local codex_delegate hybrid : Route

pub data Owner : Type 0 where
  nobody chatgpt codex : Owner

pub data AccessMode : Type 0 where
  read_only workspace_write : AccessMode

pub data FactKey : Type 0 where
  requires_native requires_local read_only_fact mutation_required : FactKey
  exact_change_known bounded_change multi_file unknown_root_cause : FactKey
  iterative long_running : FactKey

pub data FactValue : Type 0 where
  missing : FactValue
  boolean : Bool → FactValue
  other : FactValue

abbrev pub RawFacts : Type 0
RawFacts = FactKey → FactValue

pub record Facts : Type 0 where
  pub requires_native : Bool
  pub requires_local : Bool
  pub read_only : Bool
  pub mutation_required : Bool
  pub exact_change_known : Bool
  pub bounded_change : Bool
  pub multi_file : Bool
  pub unknown_root_cause : Bool
  pub iterative : Bool
  pub long_running : Bool

pub data RouterError : Type 0 where
  not_boolean : FactKey → RouterError
  local_facts_without_local contradictory no_local_path : RouterError

pub read_fact : FactKey → FactValue → Result RouterError Bool
read_fact k missing = ok false
read_fact k (boolean b) = ok b
read_fact k other = thrown (not_boolean k)

-- `localWorkFacts.some((k) => f[k])`
pub has_local_work : Facts → Bool
has_local_work f =
    f.read_only
    || (f.mutation_required
        || (f.exact_change_known
            || (f.bounded_change
                || (f.multi_file || (f.unknown_root_cause || (f.iterative || f.long_running))))))

pub validate_consistency : Facts → Result RouterError Facts
unfolding has_local_work
validate_consistency f =
    if not f.requires_local && has_local_work f
    then thrown local_facts_without_local
    else (if f.read_only && f.mutation_required
        then thrown contradictory
        else (if f.requires_local && (not f.read_only && not f.mutation_required)
            then thrown no_local_path
            else ok f))

-- The loop over FACT_KEYS, in its order.
pub read_facts : RawFacts → Result RouterError Facts
unfolding read_fact
read_facts src = do
  native ← read_fact requires_native (src requires_native)
  local ← read_fact requires_local (src requires_local)
  ro ← read_fact read_only_fact (src read_only_fact)
  mutation ← read_fact mutation_required (src mutation_required)
  exact ← read_fact exact_change_known (src exact_change_known)
  bounded ← read_fact bounded_change (src bounded_change)
  multi ← read_fact multi_file (src multi_file)
  unknown ← read_fact unknown_root_cause (src unknown_root_cause)
  iter ← read_fact iterative (src iterative)
  long ← read_fact long_running (src long_running)
  ok (record {
    requires_native = native;
    requires_local = local;
    read_only = ro;
    mutation_required = mutation;
    exact_change_known = exact;
    bounded_change = bounded;
    multi_file = multi;
    unknown_root_cause = unknown;
    iterative = iter;
    long_running = long;
  })

pub normalize_facts : RawFacts → Result RouterError Facts
normalize_facts src = read_facts src >>= validate_consistency

pub route_local_leg : Facts → Route
route_local_leg f =
    if f.read_only || not f.mutation_required
    then chatgpt_direct_local
    else (if f.multi_file || (f.unknown_root_cause || (f.iterative || f.long_running))
        then codex_delegate
        else (if f.bounded_change && f.exact_change_known
            then chatgpt_direct_local
            else codex_delegate))

pub owner_for_local_leg : Route → Facts → Owner
owner_for_local_leg chatgpt_direct_local f =
    if f.mutation_required && not f.read_only then chatgpt else nobody
owner_for_local_leg codex_delegate f =
    if f.mutation_required && not f.read_only then codex else nobody
owner_for_local_leg _ f = nobody

abbrev is_codex_leg : Option Route → Bool
is_codex_leg (some codex_delegate) = true
is_codex_leg _ = false

abbrev is_codex_route : Route → Option Route → Bool
is_codex_route codex_delegate local = true
is_codex_route hybrid local = is_codex_leg local
is_codex_route _ local = false

pub codex_access_for_route : Route → Option Route → Facts → Option AccessMode
codex_access_for_route route local f =
    if is_codex_route route local
    then some (if f.mutation_required && not f.read_only then workspace_write else read_only)
    else none

pub data ReasonCode : Type 0 where
  native_only no_capability_required local_only capability_both_then_compose : ReasonCode
  local_leg_direct_local local_leg_codex_delegate hybrid_not_mutation_owner : ReasonCode

pub record Decision : Type 0 where
  pub route : Route
  pub local_route : Option Route
  pub reason_codes : List ReasonCode
  pub mutation_owner : Owner
  pub codex_access : Option AccessMode
  pub facts : Facts

-- The first `if` chain of `decideRoute`: the route and its reason code.
pub select_route : Facts → Route × ReasonCode
select_route f =
    if f.requires_native
    then (if f.requires_local
        then (hybrid, capability_both_then_compose)
        else (chatgpt_native, native_only))
    else (if f.requires_local
        then (route_local_leg f, local_only)
        else (chatgpt_native, no_capability_required))

abbrev leg_reason : Route → ReasonCode
leg_reason chatgpt_direct_local = local_leg_direct_local
leg_reason _ = local_leg_codex_delegate

abbrev local_leg_of : Route → Facts → Option Route
local_leg_of hybrid f = some (route_local_leg f)
local_leg_of _ f = none

abbrev reasons_of : Route → Facts → List ReasonCode
reasons_of hybrid f = leg_reason (route_local_leg f) ∷ hybrid_not_mutation_owner ∷ []
reasons_of _ f = []

abbrev owner_of : Route → Facts → Owner
owner_of hybrid f = owner_for_local_leg (route_local_leg f) f
owner_of chatgpt_native f = nobody
owner_of route f = owner_for_local_leg route f

pub decide_facts : Facts → Decision
unfolding select_route owner_for_local_leg codex_access_for_route
decide_facts f =
    let (route, reason) = select_route f in
    record {
      route = route;
      local_route = local_leg_of route f;
      reason_codes = reason ∷ reasons_of route f;
      mutation_owner = owner_of route f;
      codex_access = codex_access_for_route route (local_leg_of route f) f;
      facts = f;
    }

pub decide_route : RawFacts → Result RouterError Decision
decide_route input = do facts ← normalize_facts input; ok (decide_facts facts)

-- The value of a fact, by its key.
abbrev pub fact : Facts → FactKey → Bool
fact f requires_native = f.requires_native
fact f requires_local = f.requires_local
fact f read_only_fact = f.read_only
fact f mutation_required = f.mutation_required
fact f exact_change_known = f.exact_change_known
fact f bounded_change = f.bounded_change
fact f multi_file = f.multi_file
fact f unknown_root_cause = f.unknown_root_cause
fact f iterative = f.iterative
fact f long_running = f.long_running

-- The object of normalised facts that the router reads again.
abbrev pub raw_of : Facts → RawFacts
raw_of f k = boolean (fact f k)

-- `CapabilityRouter.decideStrict`, with the default `decide`.
pub decide_strict : RawFacts → Result RouterError Decision
decide_strict facts = do normalized ← normalize_facts facts; decide_route (raw_of normalized)
