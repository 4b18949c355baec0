-- ===== src/MutationOwner.antt =====
-- Mutation ownership: src/state/mutation-owner.js. One object, whose methods throw before they
-- change anything, so a method returns the new state or the error.
pub mod Exclusion
mod Examples
use chatgpt_codex_orchestrat.Prelude.{
  String, Bool, true, false, not, ◌&&◌, Option, none, some, List, [], ◌∷◌, if◌then◌else◌, Result,
  ok, thrown, ◌==◌,
}

-- MUTATION_OWNERS, where `nobody` is 'none'; a name outside of it reaches the methods as `none` of
-- `Option Owner`.
pub data Owner : Type 0 where
  nobody chatgpt codex : Owner

pub data UnitState : Type 0 where
  running reconciled interrupted unknown : UnitState

abbrev pub is_nobody : Owner → Bool
is_nobody nobody = true
is_nobody _ = false

abbrev pub same_owner : Owner → Owner → Bool
same_owner nobody nobody = true
same_owner chatgpt chatgpt = true
same_owner codex codex = true
same_owner _ _ = false

abbrev pub is_running : Option UnitState → Bool
is_running (some running) = true
is_running _ = false

abbrev pub is_reconciled : Option UnitState → Bool
is_reconciled (some reconciled) = true
is_reconciled _ = false

-- `this._unitId === u`
abbrev pub is_unit : Option String → String → Bool
is_unit none u = false
is_unit (some v) u = v == u

pub record Ownership : Type 0 where
  pub owner : Owner
  pub unit_id : Option String
  pub unit_state : Option UnitState

pub data OwnerError : Type 0 where
  invalid_owner empty_unit invalid_unit_state : OwnerError
  owned_by : Owner → OwnerError
  unit_not_running : Option UnitState → OwnerError
  active_unit_not_reconciled release_not_reconciled : OwnerError

-- The constructor with its default owner.
abbrev pub unowned : Ownership
unowned = record { owner = nobody; unit_id = none; unit_state = none }

-- What `acquire` returns: the owner and the unit, whose state is always running.
abbrev pub Acquired : Type 0
Acquired = Owner × String

abbrev held : Owner → String → Ownership
held owner u = record { owner = owner; unit_id = some u; unit_state = some running }

-- `acquire` after its two checks of the arguments.
pub acquire_unit : Owner → String → Ownership → Result OwnerError (Acquired × Ownership)
acquire_unit owner u s =
    if not (is_nobody s.owner) && not (same_owner s.owner owner)
    then thrown (owned_by s.owner)
    else (if is_nobody s.owner
        then ok ((owner, u), held owner u)
        else (if is_unit s.unit_id u
            then (if is_running s.unit_state
                then ok ((owner, u), s)
                else thrown (unit_not_running s.unit_state))
            else (if is_reconciled s.unit_state
                then ok ((owner, u), record s { unit_id = some u; unit_state = some running })
                else thrown active_unit_not_reconciled)))

-- A unit id that is null or undefined is `none`.
pub acquire : Option Owner → Option String → Ownership → Result OwnerError (Acquired × Ownership)
unfolding acquire_unit
acquire none unit s = thrown invalid_owner
acquire (some nobody) unit s = thrown invalid_owner
acquire (some owner) none s = thrown empty_unit
acquire (some owner) (some u) s = if u == "" then thrown empty_unit else acquire_unit owner u s

pub mark_unit_state : Option UnitState → Ownership → Result OwnerError Ownership
mark_unit_state none s = thrown invalid_unit_state
mark_unit_state (some st) s = ok (record s { unit_state = some st })

-- Whether something was released, and the new state.
pub release : Bool → Ownership → Result OwnerError (Bool × Ownership)
release force s =
    if is_nobody s.owner
    then ok (false, s)
    else (if not force && not (is_reconciled s.unit_state)
        then thrown release_not_reconciled
        else ok (true, unowned))

pub assert_can_write : Owner → Ownership → Result OwnerError Bool
assert_can_write owner s =
    if not (is_nobody s.owner) && not (same_owner s.owner owner)
    then thrown (owned_by s.owner)
    else ok true

-- One call of a client; a call that throws leaves the object as it was.
pub data Call : Type 0 where
  acquire_call : Option Owner → Option String → Call
  mark_call : Option UnitState → Call
  release_call : Bool → Call

abbrev pub after_acquire : Ownership → Result OwnerError (Acquired × Ownership) → Ownership
after_acquire s (ok (a, s')) = s'
after_acquire s (thrown e) = s

abbrev pub after_mark : Ownership → Result OwnerError Ownership → Ownership
after_mark s (ok s') = s'
after_mark s (thrown e) = s

abbrev pub after_release : Ownership → Result OwnerError (Bool × Ownership) → Ownership
after_release s (ok (b, s')) = s'
after_release s (thrown e) = s

pub call : Ownership → Call → Ownership
unfolding acquire mark_unit_state release
call s (acquire_call owner unit) = after_acquire s (acquire owner unit s)
call s (mark_call st) = after_mark s (mark_unit_state st s)
call s (release_call force) = after_release s (release force s)

pub run : Ownership → List Call → Ownership
run s [] = s
run s (c ∷ cs) = run (call s c) cs
