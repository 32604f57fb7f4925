-- ===== src/Agent/Intent.antt =====
-- src/opsassist/agent/intent.py, and the checks of src/opsassist/tools/registry.py that read a message.
use novax_ai_assignment.Base.{
  String, Bool, true, false, not, ◌&&◌, ◌||◌, Option, none, some, List, [], ◌∷◌, ◌++◌, any, keep,
  contains, if◌then◌else◌,
}
use novax_ai_assignment.Policy.Redact.{Value, obj, text, end, field}
use novax_ai_assignment.Tools.Registry.{Tool, tool_of, spec_of, effect, reads}

-- Python's operations on texts, its regular expressions and JSON, and pydantic's validation.
-- `words` is `re.findall(r"[a-z]+", message.lower())`, `asks` is `message.rstrip().endswith("?")`,
-- `greets` matches the pattern of small talk, `trigger` is the upper-case match of a pattern between
-- word boundaries, `first_object` finds and loads the first JSON object of a text, and `spaced` joins
-- words by blanks.
pub record Reading : Type 0 where
  pub words : String → List String
  pub asks : String → Bool
  pub greets : String → Bool
  pub trigger : String → String → Option String
  pub first_object : String → Option Value
  pub spaced : List String → String
  pub contains_text : String → String → Bool
  pub accepts : Tool → Value → Bool

abbrev pub question_words : List String
question_words =
    "can" ∷ "could" ∷ "may" ∷ "might" ∷ "must" ∷ "should" ∷ "shall" ∷ "will" ∷ "would" ∷ "do"
    ∷ "does" ∷ "did" ∷ "is" ∷ "are" ∷ "was" ∷ "were" ∷ "has" ∷ "have" ∷ "who" ∷ "whom" ∷ "whose"
    ∷ "what" ∷ "when" ∷ "where" ∷ "why" ∷ "how" ∷ "which" ∷ []

abbrev pub addressed_words : List String
addressed_words = "you" ∷ "your" ∷ "yourself" ∷ "please" ∷ []

abbrev pub softeners : List String
softeners = "please" ∷ "kindly" ∷ "now" ∷ "just" ∷ "go" ∷ "ahead" ∷ "and" ∷ "then" ∷ []

abbrev pub actions : List String
actions =
    "restart" ∷ "reboot" ∷ "start" ∷ "stop" ∷ "shut" ∷ "shutdown" ∷ "kill" ∷ "terminate" ∷ "halt"
    ∷ "pause" ∷ "resume" ∷ "delete" ∷ "remove" ∷ "drop" ∷ "destroy" ∷ "wipe" ∷ "purge" ∷ "flush"
    ∷ "reset" ∷ "deploy" ∷ "redeploy" ∷ "release" ∷ "roll" ∷ "rollback" ∷ "revert" ∷ "scale"
    ∷ "resize" ∷ "patch" ∷ "upgrade" ∷ "downgrade" ∷ "update" ∷ "install" ∷ "uninstall" ∷ "migrate"
    ∷ "run" ∷ "execute" ∷ "restore" ∷ "drain" ∷ "disable" ∷ "enable" ∷ "block" ∷ "unblock" ∷ "grant"
    ∷ "revoke" ∷ "rotate" ∷ "change" ∷ "modify" ∷ "edit" ∷ "apply" ∷ "provision" ∷ "decommission"
    ∷ "failover" ∷ "promote" ∷ "demote" ∷ []

-- The tools in the order of `TOOLS`.
abbrev pub tools : List Tool
tools =
    Tool.search_internal_docs ∷ Tool.get_server_status ∷ Tool.create_support_ticket
    ∷ Tool.get_support_ticket ∷ Tool.create_vpn_profile ∷ []

module _ (reading : Reading) where
  rules_asked : String → List String → Bool
  rules_asked message [] = false
  rules_asked message (w ∷ ws) =
      let question = contains question_words w || reading.asks message in
      let addressed =
        any (contains (w ∷ ws)) addressed_words
        || reading.contains_text (reading.spaced (w ∷ ws)) "for me" in
      question && not addressed

  unfoldable pub asks_about_rules : String → Bool
  unfolding rules_asked
  asks_about_rules message = rules_asked message (reading.words message)

  is_action : List String → Bool
  is_action [] = false
  is_action (w ∷ ws) = contains actions w

  unfoldable pub asks_for_unsupported_action : String → Bool
  unfolding is_action
  asks_for_unsupported_action message =
      is_action (keep (λ w. not (contains softeners w)) (reading.words message))

  unfoldable pub record_asked : List String → List String → Bool
  record_asked [] ws = true
  record_asked (n ∷ names) ws = any (contains ws) (n ∷ names)

  unfoldable pub asks_for : Option Tool → String → Bool
  unfolding record_asked
  asks_for none message = true
  asks_for (some tool) message = record_asked (spec_of tool).names_record (reading.words message)

  unfoldable pub asks_for_record : String → String → Bool
  asks_for_record tool message = asks_for (tool_of tool) message

  unfoldable pub misreads : Option Tool → Value → Bool
  misreads none arguments = false
  misreads (some tool) arguments = reads (effect tool) && not (reading.accepts tool arguments)

  unfoldable pub reads_with_invalid_arguments : String → Value → Bool
  reads_with_invalid_arguments tool arguments = misreads (tool_of tool) arguments

  unfoldable pub matched : Tool → String → Option String → List (Tool × Value)
  matched t argument none = []
  matched t argument (some s) = (t, obj (field argument (text s) end)) ∷ []

  -- The body of the loop of `triggered_skill`.
  unfoldable pub found_by : String → Tool → Option (String × String) → List (Tool × Value)
  unfolding matched
  found_by message t none = []
  found_by message t (some (format, argument)) =
      if (spec_of t).sensitive || not (reads (effect t))
      then []
      else matched t argument (reading.trigger format message)

  unfoldable pub found_in : String → List Tool → List (Tool × Value)
  found_in message [] = []
  found_in message (t ∷ ts) = found_by message t (spec_of t).trigger ++ found_in message ts

  unfoldable pub one_found : List (Tool × Value) → Option (Tool × Value)
  one_found (found ∷ []) = some found
  one_found _ = none

  -- `triggered_skill`
  unfoldable pub triggered_skill : String → Option (Tool × Value)
  triggered_skill message = one_found (found_in message tools)
