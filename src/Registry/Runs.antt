-- ===== src/Registry/Runs.antt =====
-- What the registry and the ledger hold after any calls (src/protocol.js).
use chatgpt_codex_orchestrat.Prelude.{
  String, ◌≡◌, inl, inr, refl, ap, ◌∙◌, Bool, true, false, Option, List, [], ◌∷◌, ◌++◌,
  if◌then◌else◌, Bool-cases,
}
use chatgpt_codex_orchestrat.Evidence.{Evidence}
use chatgpt_codex_orchestrat.Registry.{
  Entry, Task, ResultObject, ControlItem, is_registered, register_acceptances, has_entry, entry_of,
  add_entry, append_each, normalize_result, result_view, append_ledger_evidence, apply_evidence,
  RegistryCall, registers, applies, registry_call, registry_run,
}
use chatgpt_codex_orchestrat.Registry.Distinct.{
  DistinctIds, DistinctEntries, append-DistinctIds, append-DistinctEntries, report_each-DistinctIds,
}

-- The ids and the entries are distinct.
pub record IsTidy (s : Task) : Type 0 where
  pub ids : DistinctIds s.registry
  pub entries : DistinctEntries s.ledger

register-IsTidy :
    (items : List ControlItem) (s : Task) → IsTidy s → IsTidy (register_acceptances items s)
unfolding register_acceptances
register-IsTidy [] s h = h
register-IsTidy (a ∷ items) s h = elim (Bool-cases (is_registered a.id s.registry)) [
  | inl t ↦ rw t (register-IsTidy items s h)
  | inr t ↦ rw t (
      register-IsTidy items _
        (record { ids = append-DistinctIds _ s.registry t h.ids; entries = h.entries }))
]

-- A ledger is only appended to.
abbrev pub Extends : List Entry → List Entry → Type 0
Extends xs ys = (more : List Entry) × (ys ≡ xs ++ more)

append_assoc : (xs ys zs : List Entry) → (xs ++ ys) ++ zs ≡ xs ++ (ys ++ zs)
append_assoc [] ys zs = refl
append_assoc (x ∷ xs) ys zs = ap (λ l. x ∷ l) (append_assoc xs ys zs)

append_nil : (xs : List Entry) → xs ≡ xs ++ []
append_nil [] = refl
append_nil (x ∷ xs) = ap (λ l. x ∷ l) (append_nil xs)

Extends-trans : (xs ys zs : List Entry) → Extends xs ys → Extends ys zs → Extends xs zs
Extends-trans xs ys zs (a, e) (b, f) = (a ++ b, f ∙ (ap (λ l. l ++ b) e ∙ append_assoc xs a b))

add-IsTidy :
    (e : Entry) (s : Task)
    → IsTidy s
    → IsTidy (add_entry e s)
      × Extends s.ledger (add_entry e s).ledger
      × ((add_entry e s).registry ≡ s.registry)
add-IsTidy e s h = elim (Bool-cases (has_entry e s.ledger)) [
  | inl t ↦ rw t (h, ([], append_nil s.ledger), refl)
  | inr t ↦ rw t (
    record { ids = h.ids; entries = append-DistinctEntries e s.ledger t h.entries },
    (e ∷ [], refl),
    refl,
  )
]

pub each-IsTidy :
    (step : Option String) (es : List Evidence) (s : Task)
    → IsTidy s
    → IsTidy (append_each step es s)
      × Extends s.ledger (append_each step es s).ledger
      × ((append_each step es s).registry ≡ s.registry)
unfolding append_each
each-IsTidy step [] s h = (h, ([], append_nil s.ledger), refl)
each-IsTidy step (e ∷ es) s h =
    let a = add-IsTidy (entry_of step e) s h in
    let b = each-IsTidy step es (add_entry (entry_of step e) s) a.0 in
    (b.0, Extends-trans _ _ _ a.1 b.1, b.2 ∙ a.2)

pub apply-IsTidy :
    (r : ResultObject) (s : Task)
    → IsTidy s
    → IsTidy (apply_evidence r s) × Extends s.ledger (apply_evidence r s).ledger
unfolding apply_evidence append_ledger_evidence
apply-IsTidy r s h =
    let n = normalize_result (result_view (normalize_result r)) in
    let k = each-IsTidy n.0 n.1 s h in
    (
      record {
        ids = report_each-DistinctIds (normalize_result r).1 _ k.0.ids;
        entries = k.0.entries;
      },
      k.1,
    )

if_ledger :
    (b : Bool) (s s' : Task) → s'.ledger ≡ s.ledger → (if b then s else s').ledger ≡ s.ledger
if_ledger true s s' e = refl
if_ledger false s s' e = e

register_ledger :
    (items : List ControlItem) (s : Task) → (register_acceptances items s).ledger ≡ s.ledger
unfolding register_acceptances
register_ledger [] s = refl
register_ledger (a ∷ items) s =
    register_ledger items _ ∙ if_ledger (is_registered a.id s.registry) s _ refl

call-IsTidy :
    (c : RegistryCall) (s : Task)
    → IsTidy s
    → IsTidy (registry_call s c) × Extends s.ledger (registry_call s c).ledger
unfolding registry_call
call-IsTidy (registers items) s h =
    (register-IsTidy items s h, ([], register_ledger items s ∙ append_nil s.ledger))
call-IsTidy (applies r) s h = apply-IsTidy r s h

-- From a registry without an id twice and a ledger without an entry twice, any calls lead to such a
-- registry and such a ledger, and the ledger has only been appended to.
pub registry_run-IsTidy :
    (cs : List RegistryCall) (s : Task)
    → IsTidy s
    → IsTidy (registry_run s cs) × Extends s.ledger (registry_run s cs).ledger
unfolding registry_run
registry_run-IsTidy [] s h = (h, ([], append_nil s.ledger))
registry_run-IsTidy (c ∷ cs) s h =
    let a = call-IsTidy c s h in
    let b = registry_run-IsTidy cs (registry_call s c) a.0 in (b.0, Extends-trans _ _ _ a.1 b.1)
