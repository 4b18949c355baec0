-- ===== src/Governance/Changed.antt =====
-- Which changes of files touch a proof (src/direct-governance.js).
use chatgpt_codex_orchestrat.Prelude.{
  String, ◌≡◌, ◌↔◌, ◌⊎◌, inl, inr, refl, sym, ap, ◌∙◌, Bool, true, false, ◌||◌, List, [], ◌∷◌,
  arith, ◌==◌, eq_iff,
}
use chatgpt_codex_orchestrat.Governance.Ledger.{Proof, some_changed, normalize_path, has_changed}
use chatgpt_codex_orchestrat.Governance.Paths.{IsTidyPath, normalize-IsTidyPath}

-- The text stands in the list.
abbrev pub Lists : String → List String → Type 0
Lists f [] = ⊥
Lists f (g ∷ gs) = (f ≡ g) ⊎ Lists f gs

-- One of the files of the proof is the path of a changed file, normalised: without a backslash, and
-- without two slashes in a row.
abbrev pub Touches : List String → Proof → Type 0
Touches changed p =
    (c : String) × Lists c changed
    × Lists (normalize_path c) p.relevant_files
    × IsTidyPath (normalize_path c)

or_else_true : (a b : Bool) → ((a || b) ≡ true) → (a ≡ true) ⊎ (b ≡ true)
or_else_true true b h = inl refl
or_else_true false b h = inr h

or_right : (a b : Bool) → b ≡ true → (a || b) ≡ true
or_right a b h = ground arith

has_changed-Lists :
    (changed : List String) (f : String)
    → (has_changed changed f ≡ true) ↔ ((c : String) × Lists c changed × (normalize_path c ≡ f))
unfolding has_changed
has_changed-Lists [] f = (λ h. absurd (cc), λ (c, h, e). absurd h)
has_changed-Lists (c ∷ cs) f =
    let r = has_changed-Lists cs f in
    (
      λ h. elim (or_else_true (normalize_path c == f) (has_changed cs f) h) [
        | inl t ↦ (c, inl refl, (eq_iff (normalize_path c) f).0 t)
        | inr t ↦ let (d, l, e) = r.0 t in (d, inr l, e)
      ],
      λ (d, l, e). elim l [
        | inl same ↦ rw ((eq_iff (normalize_path c) f).1 (ap normalize_path (sym same) ∙ e)) refl
        | inr later ↦ or_right (normalize_path c == f) (has_changed cs f) (r.1 (d, later, e))
      ],
    )

some_changed-Lists :
    (changed files : List String)
    → (some_changed changed files ≡ true)
      ↔ ((c : String) × Lists c changed × Lists (normalize_path c) files)
unfolding some_changed
some_changed-Lists changed [] = (λ h. absurd (cc), λ (c, l, e). absurd e)
some_changed-Lists changed (f ∷ fs) =
    let now = has_changed-Lists changed f in
    let r = some_changed-Lists changed fs in
    (
      λ h. elim (or_else_true (has_changed changed f) (some_changed changed fs) h) [
        | inl t ↦ let (c, l, e) = now.0 t in (c, l, inl e)
        | inr t ↦ let (c, l, e) = r.0 t in (c, l, inr e)
      ],
      λ (c, l, k). elim k [
        | inl e ↦ rw (now.1 (c, l, e)) refl
        | inr e ↦ or_right (has_changed changed f) (some_changed changed fs) (r.1 (c, l, e))
      ],
    )

pub some_changed-Touches :
    (changed : List String) (p : Proof)
    → (some_changed changed p.relevant_files ≡ true) ↔ Touches changed p
some_changed-Touches changed p =
    let s = some_changed-Lists changed p.relevant_files in
    (λ h. let (c, l, f) = s.0 h in (c, l, f, normalize-IsTidyPath c), λ (c, l, f, n). s.1 (c, l, f))
