-- ===== src/Gate/Exact.antt =====
-- When the gate passes.
use text.Mathlib.TextPositions.{eq_refl}
use chatgpt_codex_orchestrat.Prelude.{
  String, ◌≡◌, ◌≢◌, ◌↔◌, refl, ◌∙◌, Bool, true, false, ◌&&◌, Option, none, some, List, [], ◌∷◌,
  arith, ◌==◌, eq_iff, if◌then◌else◌,
}
use chatgpt_codex_orchestrat.Evidence.{pass, Level, Evidence, level_ok}
use chatgpt_codex_orchestrat.Gate.{
  Acceptance, GateResult, index_from, by_id, verdict_of, find_item, id_ok, all_ok, required_ids,
  collect, evaluate_gate, is_satisfied, Verdict, absent, not_pass, wrong_level, satisfied, add,
}

abbrev pub All {ℓ κ} : {A : Type ℓ} → (A → Type κ) → List A → Type κ
All P [] = Unit
All P (x ∷ xs) = P x × All P xs

-- The last piece of evidence for an id.
abbrev pub last_for : String → List Evidence → Option Evidence
last_for id [] = none
last_for id (e ∷ es) = elim (last_for id es) [
  | some f ↦ some f
  | none ↦ if e.acceptance_id == id then some e else none
]

-- The last piece of evidence for the item passes, at a level that the item accepts.
abbrev pub Satisfies : List Evidence → Acceptance → Type 0
Satisfies es a =
    (e : Evidence) × (last_for a.id es ≡ some e)
    × (e.status ≡ pass)
    × (level_ok e.level a.required_level ≡ true)

-- No two items have one id.
abbrev pub Distinct : List Acceptance → Type 0
Distinct [] = Unit
Distinct (a ∷ items) = All (λ b. a.id ≢ b.id) items × Distinct items

index_from-last_for :
    (m : String → Option Evidence) (es : List Evidence) (id : String)
    → index_from m es id ≡ elim (last_for id es) [ some f ↦ some f | none ↦ m id ]
unfolding index_from
index_from-last_for m [] id = refl
index_from-last_for m (e ∷ es) id =
    index_from-last_for (λ j. if e.acceptance_id == j then some e else m j) es id
    ∙ later (last_for id es)
  where
    later :
        (r : Option Evidence)
        → elim r as (λ x. Option Evidence) [
          | some f ↦ some f
          | none ↦ if e.acceptance_id == id then some e else m id
        ]
          ≡ elim (elim r as (λ x. Option Evidence) [
            | some f ↦ some f
            | none ↦ if e.acceptance_id == id then some e else none
          ])
              as (λ x. Option Evidence) [ some f ↦ some f | none ↦ m id ]
    later r = ground arith

by_id-last_for : (es : List Evidence) (id : String) → by_id es id ≡ last_for id es
unfolding by_id
by_id-last_for es id = ground (arith, index_from-last_for (λ j. none) es id)

find_item-later :
    (a : Acceptance) (all items : List Acceptance)
    → All (λ b. a.id ≢ b.id) items
    → All (λ b. find_item b.id all ≡ some b) items
    → All (λ b. find_item b.id (a ∷ all) ≡ some b) items
unfolding find_item
find_item-later a all [] d f = tt
find_item-later a all (b ∷ items) d f =
    (ground (arith, eq_iff a.id b.id, d.0, f.0), find_item-later a all items d.1 f.1)

-- a lookup among distinct items finds each of them
find_item_self :
    (items : List Acceptance) → Distinct items → All (λ a. find_item a.id items ≡ some a) items
unfolding find_item
find_item_self [] d = tt
find_item_self (a ∷ items) d =
    (rw eq_refl refl, find_item-later a items items d.0 (find_item_self items d.1))

verdict_satisfied :
    (m : Option Evidence) (lvl : Option Level)
    → (is_satisfied (verdict_of m lvl) ≡ true)
      ↔ ((e : Evidence) × (m ≡ some e) × (e.status ≡ pass) × (level_ok e.level lvl ≡ true))
unfolding verdict_of
verdict_satisfied none lvl = (λ h. cc, λ h. ground arith)
verdict_satisfied (some e) lvl = (λ h. (e, refl, ground arith, ground arith), λ h. ground arith)

-- the verdict on a required item, and `Satisfies`
item_satisfied :
    (es : List Evidence) (a : Acceptance)
    → (is_satisfied (verdict_of (by_id es a.id) a.required_level) ≡ true) ↔ Satisfies es a
item_satisfied es a = rw by_id-last_for (verdict_satisfied (last_for a.id es) a.required_level)

abbrev Owed : List Evidence → Acceptance → Type 0
Owed es a = a.required ≡ true → Satisfies es a

id_ok-found :
    (es : List Evidence) (all : List Acceptance) (a : Acceptance)
    → find_item a.id all ≡ some a
    → id_ok (by_id es) all a.id ≡ is_satisfied (verdict_of (by_id es a.id) a.required_level)
unfolding id_ok
id_ok-found es all a f = rw f

all_ok-if :
    (m : String → Option Evidence) (all : List Acceptance) (r : Bool) (id : String)
    (ids : List String)
    → all_ok m all (if r then id ∷ ids else ids)
      ≡ (if r then id_ok m all id && all_ok m all ids else all_ok m all ids)
unfolding all_ok
all_ok-if m all true id ids = refl
all_ok-if m all false id ids = refl

-- one round of `required.every`
every_step :
    {P Q : Type 0} (r test rest : Bool)
    → (test ≡ true) ↔ P
    → (rest ≡ true) ↔ Q
    → ((if r then test && rest else rest) ≡ true) ↔ ((r ≡ true → P) × Q)
every_step true true true p q = (λ h. (λ _. p.0 refl, q.0 refl), λ h. refl)
every_step true true false p q = (λ h. cc, λ h. q.1 h.1)
every_step true false rest p q = (λ h. cc, λ h. p.1 (h.0 refl))
every_step false test rest p q = (λ h. (λ n. cc, q.0 h), λ h. q.1 h.1)

all_ok-All :
    (es : List Evidence) (all items : List Acceptance)
    → All (λ a. find_item a.id all ≡ some a) items
    → (all_ok (by_id es) all (required_ids items) ≡ true) ↔ All (Owed es) items
unfolding required_ids
all_ok-All es all [] f = (λ h. tt, λ h. unfold all_ok in refl)
all_ok-All es all (a ∷ items) f =
    rw (all_ok-if, id_ok-found es all a f.0)
      (every_step a.required _ _ (item_satisfied es a) (all_ok-All es all items f.1))

abbrev Clear : GateResult → Type 0
Clear g = (g.missing ≡ []) × (g.failed ≡ []) × (g.level_failed ≡ [])

-- one round of the loop that fills the lists
one_round :
    {P Q : Type 0} (r : Bool) (v : Verdict) (id : String) (g : GateResult)
    → (is_satisfied v ≡ true) ↔ P
    → Clear g ↔ Q
    → Clear (if r then add v id (record g { required = id ∷ g.required }) else g)
      ↔ ((r ≡ true → P) × Q)
one_round true satisfied id g p q = (λ h. (λ _. p.0 refl, q.0 h), λ h. q.1 h.1)
one_round true absent id g p q = (λ h. cc, λ h. cc (p.1 (h.0 refl)))
one_round true not_pass id g p q = (λ h. cc, λ h. cc (p.1 (h.0 refl)))
one_round true wrong_level id g p q = (λ h. cc, λ h. cc (p.1 (h.0 refl)))
one_round false v id g p q = (λ h. (λ n. cc, q.0 h), λ h. q.1 h.1)

collect-All :
    (es : List Evidence) (items : List Acceptance)
    → Clear (collect (by_id es) items) ↔ All (Owed es) items
unfolding collect
collect-All es [] = (λ h. tt, λ h. (refl, refl, refl))
collect-All es (a ∷ items) =
    one_round a.required (verdict_of (by_id es a.id) a.required_level) a.id
      (collect (by_id es) items) (item_satisfied es a) (collect-All es items)

-- Where no two items share an id, the gate passes exactly if every required item is satisfied: the
-- last piece of evidence for it passes, at a level that the item accepts. It passes exactly if the
-- lists of missing, failed and level-failed ids are empty.
pub gate-Satisfies :
    (items : List Acceptance) (es : List Evidence)
    → Distinct items
    → let g = evaluate_gate items es in
      ((g.ok ≡ true) ↔ All (λ a. a.required ≡ true → Satisfies es a) items)
      × ((g.ok ≡ true) ↔ ((g.missing ≡ []) × (g.failed ≡ []) × (g.level_failed ≡ [])))
unfolding evaluate_gate
gate-Satisfies items es d =
    let k = all_ok-All es items items (find_item_self items d) in
    let c = collect-All es items in (k, (λ h. c.1 (k.0 h), λ h. k.1 (c.0 h)))
