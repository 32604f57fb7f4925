-- ===== src/Tools/Execute.antt =====
-- src/opsassist/tools/executor.py: `authorize`, `summarize` and `run_tool`, less its metric and its log
-- lines. The transaction is one step from a database to the next; an exception that escapes rolls it
-- back, which is `none` with the database as it was.
use novax_ai_assignment.Base.{
  ℕ, ◌+◌, ◌*◌, String, not, ◌&&◌, Option, none, some, ◌∷◌, is_empty, join, show, Result,
  if◌then◌else◌,
}
use novax_ai_assignment.Policy.Redact.{Value}
use novax_ai_assignment.Policy.Auth.{Principal, has}
use novax_ai_assignment.Policy.Audit.{AuditEntry, Decision, Hashing, append}
use novax_ai_assignment.Tools.Registry.{
  Tool, ToolArgs, ToolSpec, vpn_args, tool_of, tool_name, spec_of,
}
use novax_ai_assignment.Tools.Store.{Db, PendingAction, PendingStatus}
use novax_ai_assignment.Tools.Handlers.{
  Externals, Failure, tool_error, tool_denied, escaped, handle,
}

pub data Status : Type 0 where
  ok denied pending error : Status

pub record ToolOutcome : Type 0 where
  pub status : Status
  pub tool : String
  pub message : String
  pub result : Option Value
  pub pending_action_id : Option ℕ
  pub action_hash : Option String

-- The parts of `ToolContext` that the executor reads.
pub record ToolContext : Type 0 where
  pub request_id : String
  pub conversation_id : Option ℕ
  pub user_message : Option String

abbrev pub outcome_of : Status → String → String → ToolOutcome
outcome_of status tool message = record {
  status = status;
  tool = tool;
  message = message;
  result = none;
  pending_action_id = none;
  action_hash = none;
}

-- `audit.entry_of(principal, request_id=…, event=…, tool=…, decision=…, reason=…)`
abbrev pub entry_of :
    Principal → ToolContext → String → Option String → Decision → Option String → AuditEntry
entry_of p ctx event tool decision reason = record {
  request_id = ctx.request_id;
  actor_id = p.user_id;
  actor_role = p.role;
  event = event;
  decision = decision;
  tool = tool;
  arguments = none;
  reason = reason;
  result = none;
  pending_action_id = none;
  action_hash = none;
}

-- `permission or ""`
unfoldable pub or_empty : Option String → String
or_empty none = ""
or_empty (some s) = s

-- `authorize`: the reason of a denial, or nothing.
unfoldable pub authorize : Principal → ToolSpec → Option String
unfolding or_empty
authorize p spec =
    let permission = or_empty spec.requires_permission in
    if not (is_empty permission) && not (has p permission)
    then some (join "requires the " (join permission " permission"))
    else none

unfoldable pub subject : Option String → Option String → String
subject none none = "None"
subject none (some name) = name
subject (some id) none = if is_empty id then "None" else id
subject (some id) (some name) = if is_empty id then name else id

-- `summarize`; only a tool whose arguments are a VPN profile's has its own words.
unfoldable pub summarize : Tool → ToolArgs → String
unfolding subject
summarize Tool.create_vpn_profile (vpn_args id name days) =
    join "Create a VPN profile for "
      (join (subject id name) (join " valid for " (join (show days) " days")))
summarize tool args = join "Run " (tool_name tool)

abbrev pub pending_ttl : ℕ
pending_ttl = 24 * 3600

module _ {H : Type 0} (hashing : Hashing H) (ext : Externals) where
  -- `audit.append` in the transaction
  unfoldable pub log : Db H → AuditEntry → Db H
  log db e = record db { audit_log = append hashing db.audit_log e db.now }

  -- The branch of a sensitive tool: a pending action instead of a run.
  unfoldable pub propose : Principal → Tool → ToolArgs → ToolContext → Db H → ToolOutcome × Db H
  unfolding log
  propose p tool args ctx db =
      let name = tool_name tool in
      let spec = spec_of tool in
      let validated = ext.dump args in
      let digest = ext.hash_action name validated p.user_id in
      let approver = or_empty spec.approve_permission in
      let row : PendingAction = record {
        id = db.next_uuid;
        conversation_id = ctx.conversation_id;
        requester_id = p.user_id;
        tool = name;
        arguments = validated;
        summary = summarize tool args;
        action_hash = digest;
        requires_permission = or_empty spec.requires_permission;
        approve_permission = approver;
        status = PendingStatus.pending;
        approver_id = none;
        result = none;
        request_id = ctx.request_id;
        expires_at = db.now + pending_ttl;
        decided_at = none;
        executed_at = none;
      } in
      let stored = record db {
        pending_actions = row ∷ db.pending_actions;
        next_uuid = db.next_uuid + 1;
      } in
      let e =
        entry_of p ctx "tool_call" (some name) Decision.pending
          (some (join "awaiting approval by a different holder of " approver)) in
      (
        record {
          status = Status.pending;
          tool = name;
          message = join row.summary (
              join ". This needs approval from someone with "
                (join approver ", who must be a different person."));
          result = none;
          pending_action_id = some row.id;
          action_hash = some digest;
        },
        log stored (record e {
          arguments = some validated;
          pending_action_id = some row.id;
          action_hash = some digest;
        }),
      )

  -- What the handler returned or raised.
  unfoldable pub conclude :
      Principal
      → Tool
      → ToolArgs
      → ToolContext
      → Db H
      → Result Failure (Value × Db H)
      → Option ToolOutcome × Db H
  unfolding log
  conclude p tool args ctx db (Result.err (tool_denied reason)) =
      let e = entry_of p ctx "tool_call" (some (tool_name tool)) Decision.deny (some reason) in
      (
        some (
            outcome_of Status.denied (tool_name tool)
              (join "You are not authorized: " (join reason "."))),
        log db (record e { arguments = some (ext.dump args) }),
      )
  conclude p tool args ctx db (Result.err (tool_error reason)) =
      let e = entry_of p ctx "tool_call" (some (tool_name tool)) Decision.error (some reason) in
      (
        some (outcome_of Status.error (tool_name tool) reason),
        log db (record e { arguments = some (ext.dump args) }),
      )
  conclude p tool args ctx db (Result.err escaped) = (none, db)
  conclude p tool args ctx db (Result.ok (result, db')) =
      let e = entry_of p ctx "tool_call" (some (tool_name tool)) Decision.executed none in
      (
        some (record {
          status = Status.ok;
          tool = tool_name tool;
          message = join (tool_name tool) " completed";
          result = some result;
          pending_action_id = none;
          action_hash = none;
        }),
        log db' (record e { arguments = some (ext.dump args); result = some result }),
      )

  -- From the permission check on.
  unfoldable pub run_authorized :
      Principal → Tool → ToolArgs → ToolContext → Db H → Option String → Option ToolOutcome × Db H
  unfolding log
  run_authorized p tool args ctx db (some denial) =
      let e = entry_of p ctx "tool_call" (some (tool_name tool)) Decision.deny (some denial) in
      (
        some (
            outcome_of Status.denied (tool_name tool)
              (join "You are not authorized: " (join denial "."))),
        log db (record e { arguments = some (ext.dump args) }),
      )
  run_authorized p tool args ctx db none =
      if (spec_of tool).sensitive
      then (let (outcome, db') = propose p tool args ctx db in (some outcome, db'))
      else conclude p tool args ctx db (handle ext db p ctx.user_message tool args)

  unfoldable pub run_valid :
      Principal
      → Tool
      → Value
      → ToolContext
      → Db H
      → Result String ToolArgs
      → Option ToolOutcome × Db H
  unfolding log
  run_valid p tool raw ctx db (Result.err reason) =
      let e =
        entry_of p ctx "tool_call" (some (tool_name tool)) Decision.deny
          (some (join "invalid arguments: " reason)) in
      (
        some (
            outcome_of Status.error (tool_name tool)
              (join "invalid arguments for " (join (tool_name tool) (join ": " reason)))),
        log db (record e { arguments = some raw }),
      )
  run_valid p tool raw ctx db (Result.ok args) =
      run_authorized p tool args ctx db (authorize p (spec_of tool))

  unfoldable pub run_known :
      Principal → String → Value → ToolContext → Db H → Option Tool → Option ToolOutcome × Db H
  unfolding log
  run_known p name raw ctx db none = (
    some (outcome_of Status.denied name (join (ext.repr name) " is not an available tool")),
    log db (entry_of p ctx "tool_call" (some name) Decision.deny (some "unknown tool")),
  )
  run_known p name raw ctx db (some tool) = run_valid p tool raw ctx db (ext.validate tool raw)

  -- `run_tool`
  unfoldable pub run_tool :
      Principal → String → Value → ToolContext → Db H → Option ToolOutcome × Db H
  run_tool p name raw ctx db = run_known p name raw ctx db (tool_of name)
