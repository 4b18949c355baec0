-- ===== src/Protocol.antt =====
-- The control objects of the Brain: validateControl, repairControl and parseBrainOutput of
-- src/protocol.js, for an input that is an object. What JSON.parse and the text protocol make of a text
-- is left out.
pub mod Repair
mod Examples
use chatgpt_codex_orchestrat.Prelude.{
  String, Bool, true, false, not, ◌&&◌, ◌||◌, Option, none, some, List, [], ◌∷◌, map, if◌then◌else◌,
  truthy, ◌==◌, Result, ok, thrown,
}
use chatgpt_codex_orchestrat.Evidence.{Level, or_else, read_level}
use chatgpt_codex_orchestrat.Evidence.Normal.{level_text}
use chatgpt_codex_orchestrat.Gate.{ProofContract, RawAcceptance, named, item}

-- A value of a field: null or undefined, a text, an object or an array, and any other with its
-- truthiness.
pub data Value : Type 0 where
  nothing null : Value
  text : String → Value
  object : String → Value
  other : Bool → String → Value

pub record Ctrl : Type 0 where
  pub control : Value
  pub kind : Value
  pub instruction : Value
  pub body : Value
  pub directive : Value
  pub question : Value
  pub task_contract : Value
  pub plan : Value
  pub reason : Value
  pub plan_patch : Value
  pub task_contract_patch : Value
  pub acceptance : Option (List RawAcceptance)

abbrev pub is_truthy : Value → Bool
is_truthy nothing = false
is_truthy null = false
is_truthy (text s) = truthy s
is_truthy (object s) = true
is_truthy (other b s) = b

-- `a || b`
abbrev pub or_value : Value → Value → Value
or_value a b = if is_truthy a then a else b

pub data Token : Type 0 where
  task revise ask_user done plan replan publish : Token

-- `CONTROLS.includes(control)`
unfoldable pub token_of : String → Option Token
token_of s =
    if s == "TASK"
    then some task
    else (if s == "REVISE"
        then some revise
        else (if s == "ASK_USER"
            then some ask_user
            else (if s == "DONE"
                then some done
                else (if s == "PLAN"
                    then some plan
                    else (if s == "REPLAN"
                        then some replan
                        else (if s == "PUBLISH" then some publish else none))))))

unfoldable pub read_token : Value → Option Token
unfolding token_of
read_token (text s) = token_of s
read_token _ = none

-- Whether a control of the kind has what it needs.
abbrev pub has_needed : Token → Ctrl → Bool
has_needed task c = is_truthy c.instruction || (is_truthy c.body || is_truthy c.directive)
has_needed revise c = is_truthy c.instruction || (is_truthy c.body || is_truthy c.directive)
has_needed ask_user c = is_truthy c.question || is_truthy c.body
has_needed plan c = is_truthy c.task_contract || is_truthy c.plan
has_needed replan c =
    is_truthy c.reason || (is_truthy c.plan_patch || is_truthy c.task_contract_patch)
has_needed _ c = true

abbrev pub valid_as : Option Token → Ctrl → Bool
valid_as none c = false
valid_as (some t) c = has_needed t c

-- `validateControl(ctrl).ok`
unfoldable pub validate_control : Ctrl → Bool
unfolding read_token
validate_control c = valid_as (read_token (or_value c.control c.kind)) c

abbrev is_item_text : Option String → Bool
is_item_text none = false
is_item_text (some s) = truthy s

-- `a || b` for texts, where the last value stays as it is
abbrev pub either : Option String → Option String → Option String
either a b = if is_item_text a then a else b

abbrev pub known_level : Option String → Option String
known_level none = none
known_level (some s) = level_text (read_level s)

abbrev not_false : Option Bool → Bool
not_false none = true
not_false (some b) = b

-- An item of `acceptance`, which is written out as an object.
unfoldable pub repair_item : RawAcceptance → RawAcceptance
unfolding read_level
repair_item (named s) = item (some s) (some s) (some true) none none
repair_item (item id label required proof level) =
    item (either id label) (some (or_else label (or_else id ""))) (some (not_false required)) proof
      (known_level level)

abbrev is_object : Value → Bool
is_object (object s) = true
is_object _ = false

-- `typeof v !== 'object' || v === null` makes it `v || null`
abbrev pub object_or_null : Value → Value
object_or_null v = if is_object v then v else or_value v null

abbrev pub empty_text : Value
empty_text = text ""

-- What is filled in for a control of the kind.
abbrev pub fill : Option Token → Ctrl → Ctrl
fill (some task) c = record c {
  instruction = or_value c.instruction (or_value c.body (or_value c.directive empty_text));
}
fill (some revise) c = record c {
  instruction = or_value c.instruction (or_value c.body (or_value c.directive empty_text));
}
fill (some ask_user) c = record c { question = or_value c.question (or_value c.body empty_text) }
fill (some plan) c = record c {
  task_contract = object_or_null c.task_contract;
  plan = object_or_null c.plan;
}
fill (some replan) c = record c { reason = or_value c.reason (or_value c.body empty_text) }
fill _ c = c

abbrev pub items_of : Option (List RawAcceptance) → List RawAcceptance
items_of none = []
items_of (some items) = items

abbrev pub with_control : Ctrl → Ctrl
with_control c = record c {
  control = or_value c.control (if is_truthy c.kind then c.kind else c.control);
}

abbrev pub with_items : Ctrl → Ctrl
with_items c = record c { acceptance = some (map repair_item (items_of c.acceptance)) }

-- `repairControl(ctrl).control`
unfoldable pub repair_control : Ctrl → Ctrl
unfolding read_token repair_item
repair_control c = let c' = with_control c in with_items (fill (read_token c'.control) c')

pub data ParseError : Type 0 where
  invalid_after_repair : ParseError

-- `parseBrainOutput`
unfoldable pub parse_brain_output : Ctrl → Result ParseError Ctrl
unfolding validate_control repair_control
parse_brain_output c =
    if not (validate_control c) && not (validate_control (repair_control c))
    then thrown invalid_after_repair
    else ok (repair_control c)
