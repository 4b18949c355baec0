-- ===== src/Approval.antt =====
-- Approvals of the App Server: src/executor/approval.js.
pub mod Closed
mod Examples
use Prim.Native.String
use chatgpt_codex_orchestrat.Prelude.{
  String, Bool, true, false, ◌||◌, Option, none, some, List, if◌then◌else◌, truthy, ◌==◌, Result,
  ok, thrown,
}
use chatgpt_codex_orchestrat.Evidence.{lower_is, lower_code}

-- `/requestApproval$/i`; no letter outside of ASCII is one of these under the flag.
unfoldable pub ends_request_approval : String → Bool
unfolding lower_is lower_code
ends_request_approval String.[] = false
ends_request_approval (String.◌∷◌ c s) =
    lower_is (String.◌∷◌ c s) "requestapproval" || ends_request_approval s

unfoldable pub is_approval_method : String → Bool
unfolding ends_request_approval
is_approval_method m =
    ends_request_approval m
    || (m == "applyPatchApproval"
        || (m == "execCommandApproval" || m == "item/tool/requestUserInput"))

pub data Kind : Type 0 where
  file_change command user_input permissions unknown_kind : Kind

unfoldable pub approval_kind : String → Kind
approval_kind m =
    if m == "applyPatchApproval" || m == "item/fileChange/requestApproval"
    then file_change
    else (if m == "execCommandApproval" || m == "item/commandExecution/requestApproval"
        then command
        else (if m == "item/tool/requestUserInput"
            then user_input
            else (if m == "item/permissions/requestApproval" then permissions else unknown_kind)))

-- A request of the server; its id is text, empty where it is null or missing.
pub record ServerRequest : Type 0 where
  pub id : Option String
  pub method : Option String
  pub thread_id : Option String
  pub turn_id : Option String
  pub item_id : Option String
  pub reason : Option String
  pub available_decisions : Option (List String)

pub record Approval : Type 0 where
  pub approval_id : String
  pub request_id : Option String
  pub method : String
  pub kind : Kind
  pub thread_id : Option String
  pub turn_id : Option String
  pub item_id : Option String
  pub reason : Option String
  pub available_decisions : Option (List String)

abbrev or_null : Option String → Option String
or_null none = none
or_null (some s) = if truthy s then some s else none

abbrev text_of : Option String → String
text_of none = ""
text_of (some s) = s

abbrev approval_of : String → ServerRequest → Approval
approval_of m r = record {
  approval_id = text_of r.id;
  request_id = r.id;
  method = m;
  kind = approval_kind m;
  thread_id = or_null r.thread_id;
  turn_id = or_null r.turn_id;
  item_id = or_null r.item_id;
  reason = or_null r.reason;
  available_decisions = r.available_decisions;
}

abbrev normalize_method : Option String → ServerRequest → Option Approval
normalize_method none r = none
normalize_method (some m) r = if is_approval_method m then some (approval_of m r) else none

unfoldable pub normalize_approval : ServerRequest → Option Approval
normalize_approval r = normalize_method r.method r

pub data Decision : Type 0 where
  approve deny : Decision

pub data Wire : Type 0 where
  accept decline : Wire

pub data ApprovalError : Type 0 where
  invalid_decision unsupported_method : ApprovalError

abbrev pub is_binary : String → Bool
is_binary m = m == "item/commandExecution/requestApproval" || m == "item/fileChange/requestApproval"

abbrev pub wire_of : Decision → Wire
wire_of approve = accept
wire_of deny = decline

-- A decision outside of APPROVAL_DECISIONS is `none`.
unfoldable pub map_decision : String → Option Decision → Result ApprovalError Wire
map_decision m none = thrown invalid_decision
map_decision m (some d) = if is_binary m then ok (wire_of d) else thrown unsupported_method
