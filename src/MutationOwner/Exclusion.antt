-- ===== src/MutationOwner/Exclusion.antt =====
-- At most one owner, and one unit that is not reconciled, at a time (src/state/mutation-owner.js).
use chatgpt_codex_orchestrat.Prelude.{
  String, ◌≡◌, ◌≢◌, ◌⊎◌, inl, inr, refl, sym, ◌∙◌, true, Option, none, some, List, [], ◌∷◌, arith,
  ok, thrown, eq_iff,
}
use chatgpt_codex_orchestrat.MutationOwner.{
  Owner, nobody, chatgpt, codex, running, reconciled, Ownership, unowned, Acquired, acquire,
  assert_can_write, Call, acquire_call, mark_call, release_call, owned_by, call, run,
}

-- An owned workspace has a unit and a unit state, an unowned one has no unit, and a unit has a name.
pub record IsWellFormed (s : Ownership) : Type 0 where
  pub owned : s.owner ≢ nobody → (s.unit_id ≢ none) × (s.unit_state ≢ none)
  pub free : s.owner ≡ nobody → s.unit_id ≡ none
  pub named : s.unit_id ≢ some ""

acquire-IsWellFormed :
    (s : Ownership) (o : Option Owner) (u : Option String)
    → IsWellFormed s
    → IsWellFormed (call s (acquire_call o u))
unfolding call
acquire-IsWellFormed s none u h = h
acquire-IsWellFormed s (some nobody) u h = h
acquire-IsWellFormed s (some chatgpt) none h = h
acquire-IsWellFormed s (some codex) none h = h
acquire-IsWellFormed s (some chatgpt) (some u) h = ground (arith, eq_iff u "")
acquire-IsWellFormed s (some codex) (some u) h = ground (arith, eq_iff u "")

call-IsWellFormed : (s : Ownership) (c : Call) → IsWellFormed s → IsWellFormed (call s c)
call-IsWellFormed s (acquire_call o u) h = acquire-IsWellFormed s o u h
call-IsWellFormed s (mark_call none) h = unfold call in h
call-IsWellFormed s (mark_call (some st)) h = unfold call in ground arith
call-IsWellFormed s (release_call f) h = unfold call in ground arith

run_from-IsWellFormed : (s : Ownership) (cs : List Call) → IsWellFormed s → IsWellFormed (run s cs)
unfolding run
run_from-IsWellFormed s [] h = h
run_from-IsWellFormed s (c ∷ cs) h = run_from-IsWellFormed (call s c) cs (call-IsWellFormed s c h)

unowned-IsWellFormed : IsWellFormed unowned
unowned-IsWellFormed = ground arith

-- After any calls on a workspace that started unowned, refused calls included: an owned workspace
-- has a unit and a unit state, an unowned one has no unit, and no unit has an empty name.
pub run-IsWellFormed : (cs : List Call) → IsWellFormed (run unowned cs)
run-IsWellFormed cs = run_from-IsWellFormed unowned cs unowned-IsWellFormed

-- The call is a release that gives the workspace up: forced, or of a reconciled unit.
abbrev pub Releases : Ownership → Call → Type 0
Releases s (release_call force) =
    (s.owner ≢ nobody) × ((force ≡ true) ⊎ (s.unit_state ≡ some reconciled))
Releases s _ = ⊥

abbrev pub ReleasesIn : Ownership → List Call → Type 0
ReleasesIn s [] = ⊥
ReleasesIn s (c ∷ cs) = Releases s c ⊎ ReleasesIn (call s c) cs

call_keeps_owner :
    (s : Ownership) (c : Call) → s.owner ≢ nobody → Releases s c ⊎ ((call s c).owner ≡ s.owner)
unfolding call
call_keeps_owner s (acquire_call o u) h = ground arith
call_keeps_owner s (mark_call st) h = ground arith
call_keeps_owner s (release_call f) h = ground arith

-- Ownership changes hands only through a release: if after some calls an owned workspace has another
-- owner, one of the calls was a release, forced or of a reconciled unit, of an owned workspace.
pub owner_change-ReleasesIn :
    (s : Ownership) (cs : List Call)
    → s.owner ≢ nobody
    → (run s cs).owner ≢ s.owner
    → ReleasesIn s cs
unfolding run
owner_change-ReleasesIn s [] h k = absurd (k refl)
owner_change-ReleasesIn s (c ∷ cs) h k = elim (call_keeps_owner s c h) [
  | inl r ↦ inl r
  | inr e ↦ inr (owner_change-ReleasesIn (call s c) cs (λ p. h (sym e ∙ p)) (λ p. k (p ∙ e)))
]

-- The call settles the unit: it marks it reconciled, or releases it by force.
abbrev pub Settles : Ownership → Call → Type 0
Settles s (mark_call st) = st ≡ some reconciled
Settles s (release_call force) = force ≡ true
Settles s _ = ⊥

abbrev pub SettlesIn : Ownership → List Call → Type 0
SettlesIn s [] = ⊥
SettlesIn s (c ∷ cs) = Settles s c ⊎ SettlesIn (call s c) cs

call_keeps_unit :
    (s : Ownership) (c : Call)
    → s.owner ≢ nobody
    → s.unit_state ≢ some reconciled
    → Settles s c
      ⊎ ((call s c).owner ≡ s.owner)
        × ((call s c).unit_id ≡ s.unit_id)
        × ((call s c).unit_state ≢ some reconciled)
unfolding call
call_keeps_unit s (acquire_call o u) h k = ground arith
call_keeps_unit s (mark_call st) h k = ground arith
call_keeps_unit s (release_call f) h k = ground arith

-- A unit of an owned workspace that is running, interrupted or unknown stays the active unit, under
-- its owner, until a call marks it reconciled or releases it by force.
pub unit_change-SettlesIn :
    (s : Ownership) (cs : List Call)
    → s.owner ≢ nobody
    → s.unit_state ≢ some reconciled
    → SettlesIn s cs ⊎ ((run s cs).owner ≡ s.owner) × ((run s cs).unit_id ≡ s.unit_id)
unfolding run
unit_change-SettlesIn s [] h k = inr (refl, refl)
unit_change-SettlesIn s (c ∷ cs) h k = elim (call_keeps_unit s c h k) [
  | inl r ↦ inl (inl r)
  | inr e ↦ elim (unit_change-SettlesIn (call s c) cs (λ p. h (sym e.0 ∙ p)) e.2) [
    | inl r ↦ inl (inr r)
    | inr g ↦ inr (g.0 ∙ e.0, g.1 ∙ e.1)
  ]
]

-- what a successful acquire leaves behind
abbrev Holds : Ownership → Owner → String → Acquired → Type 0
Holds t o u a =
    (t.owner ≡ o)
    × (t.unit_id ≡ some u)
    × (t.unit_state ≡ some running)
    × (o ≢ nobody)
    × (u ≢ "")
    × (a ≡ (o, u))

acquire-Holds :
    (s t : Ownership) (o : Owner) (u : String) (a : Acquired)
    → acquire (some o) (some u) s ≡ ok (a, t)
    → Holds t o u a
unfolding acquire
acquire-Holds s t nobody u a h = cc
acquire-Holds s t chatgpt u a h =
    (elim s.unit_id as (λ x. s.unit_id ≡ x → Holds t chatgpt u a) [
      | none ↦ λ e. ground (arith, eq_iff u "")
      | some v ↦ λ e. ground (arith, eq_iff u "", eq_iff v u)
    ])
      refl
acquire-Holds s t codex u a h =
    (elim s.unit_id as (λ x. s.unit_id ≡ x → Holds t codex u a) [
      | none ↦ λ e. ground (arith, eq_iff u "")
      | some v ↦ λ e. ground (arith, eq_iff u "", eq_iff v u)
    ])
      refl

own_write : (t : Ownership) (o : Owner) → t.owner ≡ o → o ≢ nobody → assert_can_write o t ≡ ok true
unfolding assert_can_write
own_write t o h k = ground arith

foreign_write :
    (t : Ownership) (o p : Owner)
    → t.owner ≡ o
    → o ≢ nobody
    → o ≢ p
    → assert_can_write p t ≡ thrown (owned_by o)
unfolding assert_can_write
foreign_write t o p h k n = ground arith

acquire_again :
    (t : Ownership) (o : Owner) (u : String) (a : Acquired)
    → Holds t o u a
    → acquire (some o) (some u) t ≡ ok (a, t)
unfolding acquire
acquire_again t nobody u a h = absurd (h.3 refl)
acquire_again t chatgpt u a h = ground (arith, eq_iff u "", eq_iff u u)
acquire_again t codex u a h = ground (arith, eq_iff u "", eq_iff u u)

-- A successful acquire gives the caller the right to write, keeps every other owner from writing,
-- and can be repeated with the same result and no further change.
pub acquire_excludes :
    (s t : Ownership) (o p : Owner) (u : String) (a : Acquired)
    → acquire (some o) (some u) s ≡ ok (a, t)
    → (assert_can_write o t ≡ ok true)
      × (o ≢ p → assert_can_write p t ≡ thrown (owned_by o))
      × (acquire (some o) (some u) t ≡ ok (a, t))
acquire_excludes s t o p u a h =
    let g = acquire-Holds s t o u a h in
    (own_write t o g.0 g.3, foreign_write t o p g.0 g.3, acquire_again t o u a g)
