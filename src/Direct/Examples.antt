-- ===== src/Direct/Examples.antt =====
-- A required item that fails at first, and then passes.
use chatgpt_codex_orchestrat.Prelude.{
  String, ◌≡◌, ◌≢◌, ◌↔◌, refl, true, Option, none, some, List, [], ◌∷◌,
}
use chatgpt_codex_orchestrat.Evidence.{object, normalize_evidence, level_ok}
use chatgpt_codex_orchestrat.Gate.{item, evaluate_gate}
use chatgpt_codex_orchestrat.Gate.Exact.{All, Satisfies}
use chatgpt_codex_orchestrat.Direct.Items.{Item}
use chatgpt_codex_orchestrat.Direct.{
  new_direct, reviewed, or_current, mark_step_reviewed, Turn, DirectCall, transitions, after_calls,
}
use chatgpt_codex_orchestrat.Direct.Runs.{told_by, mark-IsPassing}

abbrev fingerprint : String → Option String
fingerprint f = some f

abbrev failing : Turn
failing = record {
  step_id = some "s1";
  acceptance = item (some "tests") none none none none ∷ [];
  changed = [];
  evidence = object (some "tests") none (some "failed") none none none none ∷ [];
}

abbrev passing : Turn
passing = record failing {
  evidence = object (some "tests") none (some "passed") none none none none ∷ [];
}

abbrev calls : List DirectCall
calls = transitions failing ∷ transitions passing ∷ []

mark-IsPassing_example :
    let d = after_calls fingerprint new_direct calls in
    let out = mark_step_reviewed (some "s1") d in
    ((out.0 ≡ reviewed (or_current (some "s1") d.current_step))
      ↔ All
          (λ (x : Item). x.acceptance.required ≡ true → Satisfies (told_by calls) x.acceptance)
          d.registry)
    × (out.0 ≢ reviewed (or_current (some "s1") d.current_step) → out.1 ≡ d)
mark-IsPassing_example = mark-IsPassing fingerprint calls (some "s1")

granted :
    (mark_step_reviewed (some "s1") (after_calls fingerprint new_direct calls)).0
    ≡ reviewed (some "s1")
unfolding mark_step_reviewed after_calls evaluate_gate normalize_evidence level_ok
granted = refl
