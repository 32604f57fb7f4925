-- ===== src/Agent/Nodes.antt =====
-- src/opsassist/agent/graph.py: the node `tool_node`, its interrupt, and its resumption by
-- src/opsassist/api/actions.py. A node that is resumed runs again from its start, and `interrupt` then
-- returns the answer it is resumed with: so langgraph documents it.
pub mod Resumed
use novax_ai_assignment.Base.{ℕ, String, Bool, true, false, Option, none, some, if◌then◌else◌}
use novax_ai_assignment.Policy.Redact.{Value}
use novax_ai_assignment.Policy.Auth.{Principal, load_principal}
use novax_ai_assignment.Policy.Audit.{Hashing}
use novax_ai_assignment.Tools.Store.{Db}
use novax_ai_assignment.Tools.Handlers.{Externals}
use novax_ai_assignment.Tools.Execute.{Status, ToolOutcome, ToolContext, run_tool}

-- The state of a thread, as far as the node reads it. A missing tool is the text "None".
pub record AgentState : Type 0 where
  pub question : String
  pub user_id : String
  pub request_id : String
  pub conversation_id : Option ℕ
  pub tool : String
  pub arguments : Value

-- The answer of `_resume_conversation`.
pub record Resumption : Type 0 where
  pub status : String
  pub message : String
  pub result : Option Value

-- The node's result; the field `data` is `result` here.
pub record Payload : Type 0 where
  pub tool : String
  pub status : String
  pub message : String
  pub result : Option Value
  pub pending_action_id : Option ℕ
  pub action_hash : Option String

-- How the node ends: with a result, paused at its interrupt, or by an exception.
pub data NodeEnd : Type 0 where
  finished paused : Payload → NodeEnd
  failed : NodeEnd

unfoldable pub status_text : Status → String
status_text Status.ok = "ok"
status_text Status.denied = "denied"
status_text Status.pending = "pending"
status_text Status.error = "error"

abbrev pub is_waiting : Status → Bool
is_waiting Status.pending = true
is_waiting _ = false

unfoldable pub payload_of_outcome : ToolOutcome → Payload
unfolding status_text
payload_of_outcome o = record {
  tool = o.tool;
  status = status_text o.status;
  message = o.message;
  result = o.result;
  pending_action_id = o.pending_action_id;
  action_hash = o.action_hash;
}

-- `interrupt`: it pauses, or returns the answer, which goes into the payload.
unfoldable pub interrupted : Payload → Option Resumption → NodeEnd
interrupted p none = paused p
interrupted p (some r) =
    finished (record p { status = r.status; message = r.message; result = r.result })

unfoldable pub after_run : Option Resumption → Option ToolOutcome → NodeEnd
unfolding payload_of_outcome interrupted
after_run answer none = failed
after_run answer (some o) =
    if is_waiting o.status
    then interrupted (payload_of_outcome o) answer
    else finished (payload_of_outcome o)

unfoldable pub context_of : AgentState → ToolContext
context_of state = record {
  request_id = state.request_id;
  conversation_id = state.conversation_id;
  user_message = some state.question;
}

module _ {H : Type 0} (hashing : Hashing H) (ext : Externals) where
  unfoldable pub run_as : AgentState → Option Resumption → Db H → Option Principal → NodeEnd × Db H
  unfolding after_run context_of
  run_as state answer db none = (
    finished (record {
      tool = "";
      status = "denied";
      message = "unknown user";
      result = none;
      pending_action_id = none;
      action_hash = none;
    }),
    db,
  )
  run_as state answer db (some p) =
      let (outcome, db') =
        run_tool hashing ext p state.tool state.arguments (context_of state) db in
      (after_run answer outcome, db')

  -- `tool_node`; `answer` is there when the thread is resumed.
  unfoldable pub tool_node : AgentState → Option Resumption → Db H → NodeEnd × Db H
  unfolding run_as
  tool_node state answer db = run_as state answer db (load_principal db.users state.user_id)
