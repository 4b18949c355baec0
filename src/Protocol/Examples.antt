-- ===== src/Protocol/Examples.antt =====
-- A REPLAN that has only a text.
use chatgpt_codex_orchestrat.Prelude.{◌≡◌, ◌↔◌, refl, true, false, ◌&&◌, ◌||◌, none, ok}
use chatgpt_codex_orchestrat.Protocol.{
  nothing, text, Ctrl, is_truthy, or_value, read_token, validate_control, repair_control,
  parse_brain_output,
}
use chatgpt_codex_orchestrat.Protocol.Repair.{is_replan, parse-validate}

abbrev replan_text : Ctrl
replan_text = record {
  control = nothing;
  kind = text "REPLAN";
  instruction = nothing;
  body = text "the tests moved";
  directive = nothing;
  question = nothing;
  task_contract = nothing;
  plan = nothing;
  reason = nothing;
  plan_patch = nothing;
  task_contract_patch = nothing;
  acceptance = none;
}

-- Not valid before the repair.
replan_before : validate_control replan_text ≡ false
unfolding validate_control
replan_before = refl

replan_after : validate_control (repair_control replan_text) ≡ true
unfolding validate_control repair_control
replan_after = refl

parse-validate_example :
    ((parse_brain_output replan_text ≡ ok (repair_control replan_text)) ↔ (
      (repair_control replan_text ≡ repair_control replan_text)
      × (validate_control (repair_control replan_text) ≡ true)))
    × (validate_control (repair_control replan_text) ≡ (
        validate_control replan_text
        || (is_replan (read_token (or_value replan_text.control replan_text.kind))
            && is_truthy replan_text.body)))
parse-validate_example = parse-validate replan_text (repair_control replan_text)
