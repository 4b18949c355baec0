-- ===== src/Approval/Examples.antt =====
-- A decision on a command.
use chatgpt_codex_orchestrat.Prelude.{String, ◌≡◌, ◌↔◌, ◌⊎◌, refl, true, some, ok}
use chatgpt_codex_orchestrat.Approval.{
  command, file_change, approval_kind, is_approval_method, approve, accept, map_decision,
}
use chatgpt_codex_orchestrat.Approval.Closed.{map_decision-answers}

abbrev on_command : String
on_command = "item/commandExecution/requestApproval"

accepted_command : map_decision on_command (some approve) ≡ ok accept
unfolding map_decision
accepted_command = refl

map_decision-answers_example :
    (is_approval_method on_command ≡ true)
    × ((approval_kind on_command ≡ command) ⊎ (approval_kind on_command ≡ file_change))
    × ((accept ≡ accept) ↔ (some approve ≡ some approve))
map_decision-answers_example =
    map_decision-answers on_command (some approve) accept accepted_command
