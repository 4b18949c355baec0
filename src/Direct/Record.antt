-- ===== src/Direct/Record.antt =====
-- What the registry of a Direct run has on record of an item, by the evidence of the calls before
-- (src/direct-governance.js).
use mathlib.Core.Path.{subst}
use text.Mathlib.TextPositions.{eq_refl}
use chatgpt_codex_orchestrat.Prelude.{
  String, ◌≡◌, ◌↔◌, inl, inr, refl, sym, ap, ◌∙◌, Bool, true, false, Option, none, some,
  some-injective, List, [], ◌∷◌, ◌++◌, ◌==◌, if◌then◌else◌, Bool-cases, differ, eq_iff, arith,
}
use chatgpt_codex_orchestrat.Evidence.{Status, Level, level_ok, Evidence}
use chatgpt_codex_orchestrat.Gate.{Acceptance, RawAcceptance, normalize_acceptance}
use chatgpt_codex_orchestrat.Gate.Exact.{All, last_for, Satisfies}
use chatgpt_codex_orchestrat.Registry.{Progress, missing, reported}
use chatgpt_codex_orchestrat.Direct.Items.{
  Item, register_item, register_if, register_acceptance, assign_evidence, apply_result_evidence,
  find_direct,
}
use chatgpt_codex_orchestrat.Direct.Reviewed.{IsPassing, IsDistinct, NewTo}

-- A word on an item: what the last evidence said, and at which level.
abbrev pub Word : Type 0
Word = Progress × Option Level

abbrev pub said_by : Option Evidence → Word
said_by none = (missing, none)
said_by (some e) = (reported e.status, e.level)

abbrev pub word_of : Option Item → Word
word_of none = (missing, none)
word_of (some x) = (x.status, x.level)

-- What the registry says of an id.
abbrev pub word_at : String → List Item → Word
word_at id xs = word_of (find_direct id xs)

-- The last evidence for the id, or the word before where there is none.
abbrev pub word_after : Option Evidence → Word → Word
word_after none w = w
word_after (some e) w = (reported e.status, e.level)

word_at-register :
    (id : String) (a : Acceptance) (xs : List Item)
    → word_at id (register_item a xs) ≡ word_at id xs
unfolding register_item find_direct
word_at-register id a [] = elim (Bool-cases (a.id == id)) [ inl t ↦ rw t refl | inr t ↦ rw t refl ]
word_at-register id a (x ∷ xs) = elim (Bool-cases (x.acceptance.id == a.id)) [
  | inl t ↦ elim (Bool-cases (x.acceptance.id == id)) [
    | inl u ↦ rw (t, u) refl
    | inr u ↦ rw (t, u) refl
  ]
  | inr t ↦ elim (Bool-cases (x.acceptance.id == id)) [
    | inl u ↦ rw (t, u) refl
    | inr u ↦ rw (t, u) (word_at-register id a xs)
  ]
]

pub word_at-register_each :
    (id : String) (items : List RawAcceptance) (xs : List Item)
    → word_at id (register_acceptance items xs) ≡ word_at id xs
unfolding register_acceptance
word_at-register_each id [] xs = refl
word_at-register_each id (a ∷ items) xs =
    word_at-register_each id items (register_if (normalize_acceptance a) xs)
    ∙ one (normalize_acceptance a)
  where
    one : (o : Option Acceptance) → word_at id (register_if o xs) ≡ word_at id xs
    one none = refl
    one (some b) = word_at-register id b xs

not_both : (a b c : String) → (a == b) ≡ false → (a == c) ≡ true → (b == c) ≡ false
not_both a b c n h = ground (arith, eq_iff a b, eq_iff a c, eq_iff b c)

word_at-assign :
    (id : String) (e : Evidence) (xs : List Item)
    → word_at id (assign_evidence e xs)
      ≡ (if e.acceptance_id == id then (reported e.status, e.level) else word_at id xs)
unfolding assign_evidence find_direct
word_at-assign id e [] = elim (Bool-cases (e.acceptance_id == id)) [
  | inl t ↦ rw t refl
  | inr t ↦ rw t refl
]
word_at-assign id e (x ∷ xs) = elim (Bool-cases (x.acceptance.id == e.acceptance_id)) [
  | inl t ↦
      let s : (x.acceptance.id == id) ≡ (e.acceptance_id == id) =
        ap (λ k. k == id) ((eq_iff x.acceptance.id e.acceptance_id).0 t) in
      elim (Bool-cases (e.acceptance_id == id)) [
        | inl u ↦ rw (t, s, u) refl
        | inr u ↦ rw (t, s, u) refl
      ]
  | inr t ↦ elim (Bool-cases (x.acceptance.id == id)) [
    | inl u ↦ rw (t, u, not_both x.acceptance.id e.acceptance_id id t u) refl
    | inr u ↦ rw (t, u) (word_at-assign id e xs)
  ]
]

last_for-cons :
    (id : String) (e : Evidence) (es : List Evidence) (w : Word)
    → word_after
        (last_for id es)
        (if e.acceptance_id == id then (reported e.status, e.level) else w)
      ≡ word_after (last_for id (e ∷ es)) w
last_for-cons id e es w = go (last_for id es) (e.acceptance_id == id)
  where
    go :
        (o : Option Evidence) (b : Bool)
        → word_after o (if b then (reported e.status, e.level) else w)
          ≡ word_after
              (elim o as (λ x. Option Evidence) [
                | some f ↦ some f
                | none ↦ if b then some e else none
              ])
              w
    go none true = refl
    go none false = refl
    go (some f) b = refl

pub word_at-apply :
    (id : String) (es : List Evidence) (xs : List Item)
    → word_at id (apply_result_evidence es xs) ≡ word_after (last_for id es) (word_at id xs)
unfolding apply_result_evidence
word_at-apply id [] xs = refl
word_at-apply id (e ∷ es) xs =
    word_at-apply id es (assign_evidence e xs)
    ∙ (ap (word_after (last_for id es)) (word_at-assign id e xs)
        ∙ last_for-cons id e es (word_at id xs))

pub word_after-append :
    (id : String) (es fs : List Evidence) (w : Word)
    → word_after (last_for id fs) (word_after (last_for id es) w)
      ≡ word_after (last_for id (es ++ fs)) w
word_after-append id [] fs w = refl
word_after-append id (e ∷ es) fs w =
    ap (word_after (last_for id fs)) (sym (last_for-cons id e es w))
    ∙ (word_after-append id es fs _ ∙ last_for-cons id e (es ++ fs) w)

find_direct-later :
    (x : Item) (all ys : List Item)
    → NewTo x.acceptance.id ys
    → All (λ (y : Item). find_direct y.acceptance.id all ≡ some y) ys
    → All (λ (y : Item). find_direct y.acceptance.id (x ∷ all) ≡ some y) ys
unfolding find_direct
find_direct-later x all [] n h = tt
find_direct-later x all (y ∷ ys) n h =
    (rw (differ x.acceptance.id y.acceptance.id n.0) h.0, find_direct-later x all ys n.1 h.1)

find_direct_self :
    (xs : List Item)
    → IsDistinct xs
    → All (λ (x : Item). find_direct x.acceptance.id xs ≡ some x) xs
unfolding find_direct
find_direct_self [] d = tt
find_direct_self (x ∷ xs) d =
    (rw eq_refl refl, find_direct-later x xs xs d.0 (find_direct_self xs d.1))

same_word : (a b : Progress) (k l : Option Level) → ◌≡◌ {A = Word} (a, k) (b, l) → (a ≡ b) × (k ≡ l)
same_word a b k l e = (ap (λ (w : Word). w.0) e, ap (λ (w : Word). w.1) e)

same_status : {a b : Status} → reported a ≡ reported b → a ≡ b
same_status e = cc

said-Satisfies :
    (es : List Evidence) (x : Item)
    → ◌≡◌ {A = Word} (x.status, x.level) (said_by (last_for x.acceptance.id es))
    → IsPassing x ↔ Satisfies es x.acceptance
said-Satisfies es x w = go (last_for x.acceptance.id es) refl w
  where
    go :
        (o : Option Evidence)
        → last_for x.acceptance.id es ≡ o
        → ◌≡◌ {A = Word} (x.status, x.level) (said_by o)
        → IsPassing x ↔ Satisfies es x.acceptance
    go none l w = (
      λ h. absurd (cc (h.0, (same_word x.status missing x.level none w).0)),
      λ h. absurd (cc (l, h.1)),
    )
    go (some e) l w =
        let (s, k) = same_word x.status (reported e.status) x.level e.level w in
        (
          λ h. (
            e,
            l,
            same_status (sym s ∙ h.0),
            subst (λ v. level_ok v x.acceptance.required_level ≡ true) k h.1,
          ),
          λ h.
              let (f, m, p, v) = h in
              let same : f ≡ e = some-injective (sym m ∙ l) in
              (
                s ∙ ap reported (ap (λ (u : Evidence). u.status) (sym same) ∙ p),
                subst (λ u. level_ok u x.acceptance.required_level ≡ true)
                    (ap (λ (u : Evidence). u.level) same ∙ sym k) v,
              ),
        )

pub All-Satisfies :
    (es : List Evidence) (xs : List Item)
    → IsDistinct xs
    → ((id : String) → word_at id xs ≡ said_by (last_for id es))
    → All (λ (x : Item). x.acceptance.required ≡ true → IsPassing x) xs
      ↔ All (λ (x : Item). x.acceptance.required ≡ true → Satisfies es x.acceptance) xs
All-Satisfies es xs d w = each xs (find_direct_self xs d)
  where
    each :
        (ys : List Item)
        → All (λ (y : Item). find_direct y.acceptance.id xs ≡ some y) ys
        → All (λ (x : Item). x.acceptance.required ≡ true → IsPassing x) ys
          ↔ All (λ (x : Item). x.acceptance.required ≡ true → Satisfies es x.acceptance) ys
    each [] f = (λ h. tt, λ h. tt)
    each (y ∷ ys) f =
        let k = said-Satisfies es y (sym (ap word_of f.0) ∙ w y.acceptance.id) in
        let r = each ys f.1 in (λ h. (λ q. k.0 (h.0 q), r.0 h.1), λ h. (λ q. k.1 (h.0 q), r.1 h.1))
