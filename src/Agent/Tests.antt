-- ===== src/Agent/Tests.antt =====
-- A question about a server that the router model sends to a tool, and a thread that asks for a VPN
-- profile.
use novax_ai_assignment.Base.{◌≡◌, refl, ◌⊎◌, true, false, none, some, [], ◌∷◌}
use novax_ai_assignment.Policy.Redact.{obj, text, field, end}
use novax_ai_assignment.Tools.Registry
use novax_ai_assignment.Policy.Auth
use novax_ai_assignment.Tools.Store.{PendingAction, PendingStatus}
use novax_ai_assignment.Tools.Registry.{Tool, vpn_args}
use novax_ai_assignment.Tools.Execute
use novax_ai_assignment.Tools.Execute.{propose}
use novax_ai_assignment.Tools.Tests.{hashing, ext, empty, ada}
use novax_ai_assignment.Agent.Nodes
use novax_ai_assignment.Agent.Nodes.{
  AgentState, Payload, Resumption, paused, payload_of_outcome, context_of, tool_node,
}
use novax_ai_assignment.Agent.Nodes.Resumed.{tool_node-again}
use novax_ai_assignment.Agent.Intent
use novax_ai_assignment.Agent.Intent.{Reading, triggered_skill}
use novax_ai_assignment.Agent.Route
use novax_ai_assignment.Agent.Route.{classify}
use novax_ai_assignment.Agent.Route.Laws.{Chosen, classify-IsAsked}
use novax_ai_assignment.Agent.Route.Triggers.{Triggered}

abbrev reading : Reading
reading = record {
  words = λ s. "show" ∷ "the" ∷ "server" ∷ [];
  asks = λ s. false;
  greets = λ s. false;
  trigger = λ format s. none;
  first_object =
      λ s. some (obj (field "route" (text "tool") (field "tool" (text "get_server_status") end)));
  spaced = λ ws. "";
  contains_text = λ s t. false;
  accepts = λ t v. true;
}

to_tool : (classify reading "show the server" (some "{}")).route ≡ Route.Route.tool
unfolding classify Intent.triggered_skill Intent.found_in Intent.found_by Registry.spec_of
    Registry.effect Intent.one_found Route.by_trigger Route.by_model Route.parse_decision
    Route.read_decision Route.get_field Registry.tool_of Route.guards Route.guard_record
    Intent.asks_for_record Intent.asks_for Route.guard_rules Route.guard_action Route.chosen_reads
    Intent.asks_for_unsupported_action Route.guard_arguments Intent.reads_with_invalid_arguments
    Intent.misreads
to_tool = refl

classify-IsAsked_example :
    (reading.greets "show the server" ≡ false)
    × (Triggered reading "show the server" (classify reading "show the server" (some "{}"))
        ⊎ ((triggered_skill reading "show the server" ≡ none)
            × Chosen reading "show the server"
                (some "{}")
                (classify reading "show the server" (some "{}"))))
classify-IsAsked_example = classify-IsAsked reading "show the server" (some "{}") to_tool

abbrev state : AgentState
state = record {
  question = "a vpn profile for u1";
  user_id = "u1";
  request_id = "r1";
  conversation_id = some 7;
  tool = "create_vpn_profile";
  arguments = obj end;
}

abbrev waiting : Payload
waiting =
    payload_of_outcome
      (propose hashing ext ada Tool.create_vpn_profile (vpn_args (some "u1") none 30)
        (context_of state) empty).0

pauses : (tool_node hashing ext state none empty).0 ≡ paused waiting
unfolding tool_node Auth.load_principal Auth.find_user Nodes.run_as Execute.run_tool
    Execute.run_known Registry.tool_of Execute.run_valid Execute.run_authorized Execute.authorize
    Registry.spec_of Auth.has Nodes.after_run propose
pauses = refl

abbrev approval : Resumption
approval = record { status = "ok"; message = "approved"; result = none }

tool_node-again_example :
    (row : PendingAction) × ((tool_node hashing ext state (some approval) empty).1.pending_actions
      ≡ row ∷ empty.pending_actions)
    × (row.status ≡ PendingStatus.pending)
tool_node-again_example = tool_node-again hashing ext state approval empty waiting pauses
