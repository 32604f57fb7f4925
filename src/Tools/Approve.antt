-- ===== src/Tools/Approve.antt =====
-- src/opsassist/tools/executor.py: `approve_pending` and `reject_pending`, less the metric and the log
-- line. The row lock makes each of them one step.
use novax_ai_assignment.Base.{
  ℕ, String, Bool, true, false, not, ◌||◌, Option, none, some, ◌==◌, ltb, is_some, join, Result,
  if◌then◌else◌,
}
use novax_ai_assignment.Policy.Redact.{Value, Fields, text, obj, end, field}
use novax_ai_assignment.Policy.Auth.{Principal, has, load_principal}
use novax_ai_assignment.Policy.Audit.{AuditEntry, Decision, Hashing}
use novax_ai_assignment.Tools.Registry.{Tool, ToolArgs, tool_of, spec_of}
use novax_ai_assignment.Tools.Store.{
  Db, PendingAction, PendingStatus, find_pending, replace_pending, approve_profile,
}
use novax_ai_assignment.Tools.Handlers.{Externals, Failure, tool_error, handle}
use novax_ai_assignment.Tools.Execute.{
  Status, ToolOutcome, ToolContext, outcome_of, entry_of, authorize, log,
}

abbrev pub is_pending : PendingStatus → Bool
is_pending PendingStatus.pending = true
is_pending _ = false

unfoldable pub status_name : PendingStatus → String
status_name PendingStatus.pending = "pending"
status_name PendingStatus.executed = "executed"
status_name PendingStatus.rejected = "rejected"
status_name PendingStatus.failed = "failed"
status_name PendingStatus.expired = "expired"

unfoldable pub text_field : String → Fields → Option String
text_field k end = none
text_field k (field j (text s) fields) = if j == k then some s else text_field k fields
text_field k (field j v fields) = text_field k fields

-- `result["profile_id"]`
unfoldable pub profile_id_of : Value → Option String
unfolding text_field
profile_id_of (obj fields) = text_field "profile_id" fields
profile_id_of _ = none

module _ {H : Type 0} (hashing : Hashing H) (ext : Externals) where
  -- The entry of an approval, about a pending action.
  abbrev pub about : Principal → ToolContext → PendingAction → Decision → String → AuditEntry
  about approver ctx row decision reason =
      let e = entry_of approver ctx "approval" (some row.tool) decision (some reason) in
      record e { pending_action_id = some row.id }

  -- A refusal: an audit record, and nothing else changes.
  unfoldable pub deny : Db H → AuditEntry → String → String → Option ToolOutcome × Db H
  deny db e tool message = (some (outcome_of Status.denied tool message), log hashing ext db e)

  -- A decision that ends the action with no effect: its new status is written with the time.
  unfoldable pub settle : Db H → PendingAction → PendingStatus → Db H
  settle db row status = record db {
    pending_actions =
        replace_pending (record row { status = status; decided_at = some db.now })
          db.pending_actions;
  }

  -- The profile that the tool made gets its approver.
  unfoldable pub record_approver : Db H → Principal → PendingAction → Option String → Db H
  record_approver db approver row none = db
  record_approver db approver row (some id) = record db {
    vpn_profiles = approve_profile id approver.user_id row.id db.vpn_profiles;
  }

  unfoldable pub mark_executed : Db H → Principal → PendingAction → Value → Db H
  unfolding record_approver
  mark_executed db approver row result =
      let db' =
        if row.tool == "create_vpn_profile"
        then record_approver db approver row (profile_id_of result)
        else db in
      record db' {
        pending_actions =
            replace_pending
              (record row {
                status = PendingStatus.executed;
                approver_id = some approver.user_id;
                result = some result;
                decided_at = some db.now;
                executed_at = some db.now;
              })
              db'.pending_actions;
      }

  -- What the handler returned or raised; a `ToolDenied` is not caught here.
  unfoldable pub finish :
      Principal
      → Principal
      → PendingAction
      → ToolContext
      → Db H
      → Result Failure (Value × Db H)
      → Option ToolOutcome × Db H
  unfolding settle mark_executed
  finish approver requester row ctx db (Result.err (tool_error reason)) =
      let e = about approver ctx row Decision.error reason in
      (
        some (outcome_of Status.error row.tool reason),
        log hashing ext (settle db row PendingStatus.failed)
            (record e { action_hash = some row.action_hash }),
      )
  finish approver requester row ctx db (Result.err _) = (none, db)
  finish approver requester row ctx db (Result.ok (result, db')) =
      let e =
        about approver ctx row Decision.executed
          (join "approved by " (join approver.user_id (join " for requester " row.requester_id))) in
      (
        some (record {
          status = Status.ok;
          tool = row.tool;
          message = join row.summary " - approved and executed.";
          result = some result;
          pending_action_id = some row.id;
          action_hash = some row.action_hash;
        }),
        log hashing ext (mark_executed db' approver row result) (record e {
          arguments = some row.arguments;
          result = some result;
          action_hash = some row.action_hash;
        }),
      )

  unfoldable pub run_args :
      Principal
      → Principal
      → PendingAction
      → ToolContext
      → Db H
      → Tool
      → Result String ToolArgs
      → Option ToolOutcome × Db H
  run_args approver requester row ctx db tool (Result.err reason) = (none, db)
  run_args approver requester row ctx db tool (Result.ok args) =
      finish approver requester row ctx db (handle ext db requester ctx.user_message tool args)

  unfoldable pub refuse_requester :
      Principal → PendingAction → ToolContext → Db H → Option ToolOutcome × Db H
  refuse_requester approver row ctx db =
      let e =
        about approver ctx row Decision.deny "requester no longer holds the required permission" in
      deny (settle db row PendingStatus.rejected) (record e { action_hash = some row.action_hash })
        row.tool "The requester is no longer authorized for this action."

  -- The requester is loaded again, and checked for the tool.
  unfoldable pub for_requester :
      Principal
      → PendingAction
      → ToolContext
      → Db H
      → Tool
      → Option Principal
      → Option ToolOutcome × Db H
  unfolding refuse_requester
  for_requester approver row ctx db tool none = refuse_requester approver row ctx db
  for_requester approver row ctx db tool (some requester) =
      if is_some (authorize requester (spec_of tool))
      then refuse_requester approver row ctx db
      else run_args approver requester row ctx db tool (ext.validate tool row.arguments)

  unfoldable pub with_tool :
      Principal → PendingAction → ToolContext → Db H → Option Tool → Option ToolOutcome × Db H
  with_tool approver row ctx db none = (none, db)
  with_tool approver row ctx db (some tool) =
      for_requester approver row ctx db tool (load_principal db.users row.requester_id)

  -- The checks of an action that was found, in their order.
  unfoldable pub decide :
      Principal → PendingAction → String → ToolContext → Db H → Option ToolOutcome × Db H
  decide approver row confirm_hash ctx db =
      let hashed = λ (e : AuditEntry). record e { action_hash = some row.action_hash } in
      if not (is_pending row.status)
      then deny db (about approver ctx row Decision.deny (join "already " (status_name row.status)))
          row.tool (join "That action is already " (join (status_name row.status) "."))
      else if ltb row.expires_at db.now
      then deny (settle db row PendingStatus.expired)
          (about approver ctx row Decision.deny "expired") row.tool "That action has expired."
      else if not (has approver row.approve_permission)
      then deny db
          (hashed
            (about approver ctx row Decision.deny (join "approver lacks " row.approve_permission)))
          row.tool (join "You need the " (join row.approve_permission " permission."))
      else if approver.user_id == row.requester_id
      then deny db
          (hashed (
            about approver ctx row Decision.deny "requester and approver must be different people"))
          row.tool "The requester cannot approve their own request."
      else if not (confirm_hash == row.action_hash)
      then deny db (about approver ctx row Decision.deny "confirmation does not match") row.tool
          "That confirmation does not match the pending action; review it again."
      else with_tool approver row ctx db (tool_of row.tool)

  unfoldable pub approve_found :
      Principal → ℕ → String → ToolContext → Db H → Option PendingAction → Option ToolOutcome × Db H
  approve_found approver id confirm_hash ctx db none =
      let e = entry_of approver ctx "approval" none Decision.deny (some "unknown pending action") in
      deny db (record e { pending_action_id = some id }) "" "That action does not exist."
  approve_found approver id confirm_hash ctx db (some row) = decide approver row confirm_hash ctx db

  -- `approve_pending`
  unfoldable pub approve_pending :
      Principal → ℕ → String → ToolContext → Db H → Option ToolOutcome × Db H
  approve_pending approver id confirm_hash ctx db =
      approve_found approver id confirm_hash ctx db (find_pending id db.pending_actions)

  -- The answers of `reject_pending` that decide nothing leave no audit record.
  unfoldable pub reject_found :
      Principal → Option String → ToolContext → Db H → Option PendingAction → ToolOutcome × Db H
  reject_found approver reason ctx db none = (outcome_of Status.denied "" "Nothing to reject.", db)
  reject_found approver reason ctx db (some row) =
      let e = about approver ctx row Decision.deny (rejected_because reason) in
      if not (is_pending row.status)
      then (outcome_of Status.denied row.tool "Nothing to reject.", db)
      else if not (has approver row.approve_permission || approver.user_id == row.requester_id)
      then (outcome_of Status.denied row.tool "You may not decide this action.", db)
      else (
        outcome_of Status.denied row.tool "Action rejected.",
        log hashing ext
            (record db {
              pending_actions =
                  replace_pending
                    (record row {
                      status = PendingStatus.rejected;
                      approver_id = some approver.user_id;
                      decided_at = some db.now;
                    })
                    db.pending_actions;
            })
            (record e { action_hash = some row.action_hash }),
      )
    where
      rejected_because : Option String → String
      rejected_because none = "rejected"
      rejected_because (some s) = if s == "" then "rejected" else s

  -- `reject_pending`
  unfoldable pub reject_pending :
      Principal → ℕ → Option String → ToolContext → Db H → ToolOutcome × Db H
  reject_pending approver id reason ctx db =
      reject_found approver reason ctx db (find_pending id db.pending_actions)
