-- ===== src/Protocol/Repair.antt =====
-- What the repair of a control changes (src/protocol.js).
use chatgpt_codex_orchestrat.Prelude.{
  ◌≡◌, ◌↔◌, inl, inr, refl, sym, ap, ◌∙◌, Bool, true, false, not, ◌&&◌, ◌||◌, Option, none, some,
  if◌then◌else◌, eq_iff, arith, Result, ok, thrown, Bool-cases, ok-injective,
}
use chatgpt_codex_orchestrat.Protocol.{
  Value, nothing, null, text, object, other, Ctrl, is_truthy, or_value, Token, task, revise,
  ask_user, done, plan, replan, publish, read_token, token_of, valid_as, validate_control,
  object_or_null, fill, with_control, with_items, repair_control, parse_brain_output, ParseError,
  invalid_after_repair,
}

falsy_token : (v : Value) → is_truthy v ≡ false → read_token v ≡ none
unfolding read_token token_of
falsy_token nothing f = refl
falsy_token null f = refl
falsy_token (text s) f = let e : s ≡ "" = ground (arith, eq_iff s "") in rw e refl
falsy_token (object s) f = refl
falsy_token (other b s) f = refl

truthy_or : (a b : Value) → is_truthy (or_value a b) ≡ (is_truthy a || is_truthy b)
truthy_or a b = ground arith

truthy_object : (v : Value) → is_truthy (object_or_null v) ≡ is_truthy v
truthy_object nothing = refl
truthy_object null = refl
truthy_object (text s) = ground arith
truthy_object (object s) = refl
truthy_object (other b s) = ground arith

-- The kind that the repair reads is that of the validation, before and after.
repaired_token :
    (c : Ctrl)
    → (read_token (with_control c).control ≡ read_token (or_value c.control c.kind))
      × (read_token (or_value (with_control c).control c.kind)
          ≡ read_token (or_value c.control c.kind))
repaired_token c = elim (Bool-cases (is_truthy c.control)) [
  | inl t ↦ rw (t, t) (refl, refl)
  | inr f ↦ elim (Bool-cases (is_truthy c.kind)) [
    | inl k ↦ rw (f, k) (refl, rw k refl)
    | inr k ↦ rw (f, k, f, falsy_token c.control f, falsy_token c.kind k) (refl, refl)
  ]
]

-- A REPLAN that has neither reason nor patch, but a text.
abbrev pub is_replan : Option Token → Bool
is_replan (some replan) = true
is_replan _ = false

filled_valid :
    (t : Option Token) (c : Ctrl)
    → valid_as t (with_items (fill t (with_control c)))
      ≡ (valid_as t c || (is_replan t && is_truthy c.body))
filled_valid none c = refl
filled_valid (some task) c = ground arith
filled_valid (some revise) c = ground arith
filled_valid (some ask_user) c = ground arith
filled_valid (some done) c = refl
filled_valid (some plan) c = rw (truthy_object, truthy_object) (ground arith)
filled_valid (some replan) c = ground arith
filled_valid (some publish) c = refl

filled_control :
    (t : Option Token) (c : Ctrl)
    → or_value (with_items (fill t c)).control (with_items (fill t c)).kind
      ≡ or_value c.control c.kind
filled_control none c = refl
filled_control (some task) c = refl
filled_control (some revise) c = refl
filled_control (some ask_user) c = refl
filled_control (some done) c = refl
filled_control (some plan) c = refl
filled_control (some replan) c = refl
filled_control (some publish) c = refl

-- The repair makes a REPLAN with a text valid, and changes the validity of nothing else.
repair_valid :
    (c : Ctrl)
    → validate_control (repair_control c) ≡ (
        validate_control c
        || (is_replan (read_token (or_value c.control c.kind)) && is_truthy c.body))
unfolding validate_control repair_control
repair_valid c =
    let (a, b) = repaired_token c in
    let t = read_token (or_value c.control c.kind) in
    let c' : Ctrl = with_control c in
    let u = read_token c'.control in
    ap (λ v. valid_as (read_token v) (with_items (fill u c'))) (filled_control u c')
    ∙ (ap (λ v. valid_as v (with_items (fill u c'))) b
        ∙ (ap (λ v. valid_as t (with_items (fill v c'))) a ∙ filled_valid t c))

returned_parse :
    (v w : Bool) (c c' : Ctrl)
    → ((v ≡ true) → (w ≡ true))
    → (◌≡◌ {A = Result ParseError Ctrl}
        (if not v && not w then thrown invalid_after_repair else ok c)
        (ok c'))
      ↔ ((c' ≡ c) × (w ≡ true))
returned_parse true true c c' k = (λ h. (sym (ok-injective h), refl), λ h. rw (h.0) refl)
returned_parse false true c c' k = (λ h. (sym (ok-injective h), refl), λ h. rw (h.0) refl)
returned_parse true false c c' k = absurd (cc (k refl))
returned_parse false false c c' k = (λ h. absurd (cc), λ h. absurd (cc (h.1)))

-- An object is accepted exactly if its repaired form is valid, and then that form is the result: it is
-- valid if the object was, or if the object is a REPLAN with a text.
pub parse-validate :
    (c c' : Ctrl)
    → ((parse_brain_output c ≡ ok c')
        ↔ ((c' ≡ repair_control c) × (validate_control (repair_control c) ≡ true)))
      × (validate_control (repair_control c) ≡ (
          validate_control c
          || (is_replan (read_token (or_value c.control c.kind)) && is_truthy c.body)))
unfolding parse_brain_output
parse-validate c c' = (
  returned_parse (validate_control c) (validate_control (repair_control c)) (repair_control c) c'
      (λ v. let e = repair_valid c in ground (arith, e, v)),
  repair_valid c,
)
