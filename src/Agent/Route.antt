-- ===== src/Agent/Route.antt =====
-- src/opsassist/agent/graph.py: `_parse_decision`, the node `classify` with its guards, and the nodes that
-- it routes to. The graph's edges are a match on the route.
pub mod Triggers
pub mod Laws
use novax_ai_assignment.Base.{
  String, Bool, true, false, not, ◌&&◌, ◌||◌, Option, none, some, ◌==◌, is_some, if◌then◌else◌,
}
use novax_ai_assignment.Policy.Redact.{Value, Fields, text, obj, field, end}
use novax_ai_assignment.Tools.Registry.{Tool, tool_of, tool_name, effect, reads}
use novax_ai_assignment.Agent.Intent.{
  Reading, asks_about_rules, asks_for_unsupported_action, asks_for_record,
  reads_with_invalid_arguments, triggered_skill,
}

pub data Route : Type 0 where
  small_talk knowledge tool refuse : Route

abbrev pub same_route : Route → Route → Bool
same_route Route.small_talk Route.small_talk = true
same_route Route.knowledge Route.knowledge = true
same_route Route.tool Route.tool = true
same_route Route.refuse Route.refuse = true
same_route _ _ = false

-- What `classify` writes to the state.
pub record Decision : Type 0 where
  pub route : Route
  pub tool : Option String
  pub arguments : Value

abbrev pub without_tool : Route → Decision
without_tool route = record { route = route; tool = none; arguments = obj end }

-- `data.get(key)`
unfoldable pub get_field : String → Fields → Option Value
get_field key end = none
get_field key (field k v fields) = if k == key then some v else get_field key fields

is_text : String → Option Value → Bool
is_text s (some (text t)) = t == s
is_text s _ = false

-- `isinstance(tool, str) and tool in TOOLS`
known_name : Option Value → Option String
known_name (some (text name)) = if is_some (tool_of name) then some name else none
known_name _ = none

-- `args if isinstance(args, dict) else {}`
dict_or_empty : Option Value → Value
dict_or_empty (some (obj fields)) = obj fields
dict_or_empty _ = obj end

with_known : Fields → Option String → Decision
unfolding dict_or_empty
with_known fields none = without_tool Route.knowledge
with_known fields (some name) = record {
  route = Route.tool;
  tool = some name;
  arguments = dict_or_empty (get_field "arguments" fields);
}

unfoldable pub read_decision : Option Value → Decision
unfolding is_text known_name with_known
read_decision (some (obj fields)) =
    if is_text "refuse" (get_field "route" fields)
    then without_tool Route.refuse
    else if is_text "tool" (get_field "route" fields)
    then with_known fields (known_name (get_field "tool" fields))
    else without_tool Route.knowledge
read_decision _ = without_tool Route.knowledge

reads_only : Option Tool → Bool
reads_only none = false
reads_only (some t) = reads (effect t)

-- `tool in TOOLS and TOOLS[tool].effect == "reads data"`
unfoldable pub chosen_reads : Option String → Bool
unfolding reads_only
chosen_reads none = false
chosen_reads (some name) = reads_only (tool_of name)

module _ (reading : Reading) where
  -- `_parse_decision`
  unfoldable pub parse_decision : String → Decision
  parse_decision content = read_decision (reading.first_object content)

  not_asked : Option String → String → Bool
  not_asked none question = false
  not_asked (some name) question = not (asks_for_record reading name question)

  misread : Option String → Value → Bool
  misread none arguments = false
  misread (some name) arguments = reads_with_invalid_arguments reading name arguments

  -- The four checks that overrule the model's decision.
  unfoldable pub guard_record : String → Decision → Decision
  unfolding not_asked
  guard_record question d =
      if same_route d.route Route.tool && not_asked d.tool question
      then without_tool Route.knowledge
      else d

  unfoldable pub guard_rules : String → Decision → Decision
  guard_rules question d =
      if same_route d.route Route.refuse && asks_about_rules reading question
      then without_tool Route.knowledge
      else d

  unfoldable pub guard_action : String → Decision → Decision
  unfolding chosen_reads
  guard_action question d =
      if same_route d.route Route.tool
        && (chosen_reads d.tool && asks_for_unsupported_action reading question)
      then without_tool Route.refuse
      else d

  unfoldable pub guard_arguments : Decision → Decision
  unfolding misread
  guard_arguments d =
      if same_route d.route Route.tool && misread d.tool d.arguments
      then without_tool Route.knowledge
      else d

  unfoldable pub guards : String → Decision → Decision
  guards question d =
      guard_arguments (guard_action question (guard_rules question (guard_record question d)))

  -- The model's answer; none is a `GatewayError`.
  unfoldable pub by_model : String → Option String → Decision
  by_model question none = without_tool Route.knowledge
  by_model question (some content) = guards question (parse_decision content)

  unfoldable pub by_trigger : String → Option String → Option (Tool × Value) → Decision
  by_trigger question reply (some (t, found)) = record {
    route = Route.tool;
    tool = some (tool_name t);
    arguments = found;
  }
  by_trigger question reply none = by_model question reply

  -- `classify`; `reply` is the content that the router model would answer.
  unfoldable pub classify : String → Option String → Decision
  classify question reply =
      if reading.greets question
      then without_tool Route.small_talk
      else by_trigger question reply (triggered_skill reading question)
