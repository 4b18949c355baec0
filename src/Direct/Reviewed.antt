-- ===== src/Direct/Reviewed.antt =====
-- When a step counts as reviewed (src/direct-governance.js).
use mathlib.Core.Path.{subst}
use chatgpt_codex_orchestrat.Prelude.{
  String, ◌≡◌, ◌≢◌, ◌↔◌, refl, sym, ap, ◌∙◌, true, Option, none, some, some-injective, List, [],
  ◌∷◌, eq_iff, arith,
}
use chatgpt_codex_orchestrat.Evidence.{Status, pass, Level, Evidence, level_ok, normalize_evidence}
use chatgpt_codex_orchestrat.Evidence.Normal.{same_id, status_again, level_again}
use chatgpt_codex_orchestrat.Gate.{Acceptance}
use chatgpt_codex_orchestrat.Gate.Exact.{All, last_for, Satisfies, Distinct, gate-Satisfies}
use chatgpt_codex_orchestrat.Registry.{Progress, missing, reported}
use chatgpt_codex_orchestrat.Direct.Items.{
  Item, told, tell, told_evidence, acceptances, direct_gate,
}

-- The evidence on record for the item passes, at a level that the item accepts.
abbrev pub IsPassing : Item → Type 0
IsPassing x = (x.status ≡ reported pass) × (level_ok x.level x.acceptance.required_level ≡ true)

abbrev pub NewTo : String → List Item → Type 0
NewTo id xs = All (λ (x : Item). id ≢ x.acceptance.id) xs

-- No two items have one id.
abbrev pub IsDistinct : List Item → Type 0
IsDistinct [] = Unit
IsDistinct (x ∷ xs) = NewTo x.acceptance.id xs × IsDistinct xs

acceptances-Distinct : (xs : List Item) → IsDistinct xs → Distinct (acceptances xs)
acceptances-Distinct [] d = tt
acceptances-Distinct (x ∷ xs) d = (new_acceptances x.acceptance xs d.0, acceptances-Distinct xs d.1)
  where
    new_acceptances :
        (a : Acceptance) (ys : List Item)
        → NewTo a.id ys
        → All (λ (b : Acceptance). a.id ≢ b.id) (acceptances ys)
    new_acceptances a [] n = tt
    new_acceptances a (y ∷ ys) n = (n.0, new_acceptances a ys n.1)

-- What the gate was told of the item.
abbrev own : Item → Progress → Option Evidence
own x missing = none
own x (reported st) = some (told x st)

told_id : (x : Item) (st : Status) → (told x st).acceptance_id ≡ x.acceptance.id
unfolding normalize_evidence
told_id x st = same_id x.acceptance.id

last-tell :
    (id : String) (x : Item) (p : Progress) (es : List Evidence)
    → x.acceptance.id ≢ id
    → last_for id (tell x p es) ≡ last_for id es
last-tell id x missing es n = refl
last-tell id x (reported st) es n =
    ground (arith, told_id x st, eq_iff (told x st).acceptance_id id)

last-tell-own :
    (x : Item) (p : Progress) (es : List Evidence)
    → last_for x.acceptance.id es ≡ none
    → last_for x.acceptance.id (tell x p es) ≡ own x p
last-tell-own x missing es n = n
last-tell-own x (reported st) es n =
    ground (arith, n, told_id x st, eq_iff (told x st).acceptance_id x.acceptance.id)

none_told : (id : String) (xs : List Item) → NewTo id xs → last_for id (told_evidence xs) ≡ none
unfolding told_evidence
none_told id [] n = refl
none_told id (x ∷ xs) n =
    last-tell id x x.status (told_evidence xs) (λ e. n.0 (sym e)) ∙ none_told id xs n.1

Told : List Evidence → Item → Type 0
Told es x = last_for x.acceptance.id es ≡ own x x.status

still_Told :
    (x : Item) (es : List Evidence) (ys : List Item)
    → NewTo x.acceptance.id ys
    → All (Told es) ys
    → All (Told (tell x x.status es)) ys
unfolding Told
still_Told x es [] n h = tt
still_Told x es (y ∷ ys) n h =
    (last-tell y.acceptance.id x x.status es n.0 ∙ h.0, still_Told x es ys n.1 h.1)

All-Told : (xs : List Item) → IsDistinct xs → All (Told (told_evidence xs)) xs
unfolding told_evidence Told
All-Told [] d = tt
All-Told (x ∷ xs) d = (
  last-tell-own x x.status (told_evidence xs) (none_told x.acceptance.id xs d.0),
  still_Told x (told_evidence xs) xs d.0 (All-Told xs d.1),
)

told_status : (x : Item) (st : Status) → (told x st).status ≡ st
unfolding normalize_evidence
told_status x st = status_again st

told_level : (x : Item) (st : Status) → (told x st).level ≡ x.level
unfolding normalize_evidence
told_level x st = level_again x.level

reported_same : (a b : Status) → reported a ≡ reported b → a ≡ b
reported_same a b e = cc

-- What the gate asks of an item, for its evidence.
abbrev Holds : Option Evidence → Option Level → Type 0
Holds o lvl = (e : Evidence) × (o ≡ some e) × (e.status ≡ pass) × (level_ok e.level lvl ≡ true)

own_passes :
    (x : Item) (p : Progress)
    → Holds (own x p) x.acceptance.required_level
      ↔ ((p ≡ reported pass) × (level_ok x.level x.acceptance.required_level ≡ true))
own_passes x missing = (λ h. absurd (cc (h.1)), λ h. absurd (cc (h.0)))
own_passes x (reported st) = (
  λ h.
      let (e, f, s, l) = h in
      let same : told x st ≡ e = some-injective f in
      (
        ap reported (sym (told_status x st) ∙ (ap (λ (v : Evidence). v.status) same ∙ s)),
        ap (λ v. level_ok v x.acceptance.required_level)
              (sym (told_level x st) ∙ ap (λ (v : Evidence). v.level) same)
            ∙ l,
      ),
  λ h. (
    told x st,
    refl,
    told_status x st ∙ reported_same st pass h.0,
    ap (λ v. level_ok v x.acceptance.required_level) (told_level x st) ∙ h.1,
  ),
)

satisfied_item :
    (es : List Evidence) (x : Item) → Told es x → Satisfies es x.acceptance ↔ IsPassing x
unfolding Told
satisfied_item es x t =
    subst (λ o. Holds o x.acceptance.required_level ↔ IsPassing x) (sym t) (own_passes x x.status)

All-items :
    (es : List Evidence) (xs : List Item)
    → All (Told es) xs
    → All (λ a. a.required ≡ true → Satisfies es a) (acceptances xs)
      ↔ All (λ (x : Item). x.acceptance.required ≡ true → IsPassing x) xs
All-items es [] t = (λ h. tt, λ h. tt)
All-items es (x ∷ xs) t =
    let k = satisfied_item es x t.0 in
    let r = All-items es xs t.1 in
    (λ h. (λ q. k.0 (h.0 q), r.0 h.1), λ h. (λ q. k.1 (h.0 q), r.1 h.1))

pub gate-IsPassing :
    (xs : List Item)
    → IsDistinct xs
    → ((direct_gate xs).ok ≡ true)
      ↔ All (λ (x : Item). x.acceptance.required ≡ true → IsPassing x) xs
unfolding direct_gate
gate-IsPassing xs d =
    let g = gate-Satisfies (acceptances xs) (told_evidence xs) (acceptances-Distinct xs d) in
    let k = All-items (told_evidence xs) xs (All-Told xs d) in
    (λ h. k.0 (g.0.0 h), λ h. g.0.1 (k.1 h))
