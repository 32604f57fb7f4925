-- ===== src/Tools/Moves/Runs.antt =====
-- Each run of a tool, by `run_tool` of src/opsassist/tools/executor.py, makes one move.
use novax_ai_assignment.Base.{
  String, ◌≡◌, ◌≢◌, refl, inl, inr, false, Option, none, some, arith, Bool-cases, Result,
}
use novax_ai_assignment.Policy.Redact.{Value}
use novax_ai_assignment.Policy.Auth.{Principal}
use novax_ai_assignment.Policy.Audit.{Hashing, AuditEntry}
use novax_ai_assignment.Tools.Registry.{Tool, ToolArgs, tool_of, spec_of}
use novax_ai_assignment.Tools.Store.{Db}
use novax_ai_assignment.Tools.Handlers.{
  Externals, Failure, tool_error, tool_denied, escaped, handle,
}
use novax_ai_assignment.Tools.Handlers.Frame.{Unchanged, OnOk, handle-Unchanged}
use novax_ai_assignment.Tools.Execute.{
  ToolContext, authorize, propose, conclude, run_authorized, run_valid, run_known, run_tool, log,
}
use novax_ai_assignment.Tools.Moves.{Move, idle, settle, execute}
use novax_ai_assignment.Tools.Moves

module _ {H : Type 0} (hashing : Hashing H) (ext : Externals) where
  pub stay : (db : Db H) → Move db db
  stay db = idle refl refl (omega arith)

  pub stay_logged : (db : Db H) (e : AuditEntry) → Move db (log hashing ext db e)
  unfolding log
  stay_logged db e = idle refl refl (omega arith)

  conclude-Move :
      (p : Principal) (tool : Tool) (args : ToolArgs) (ctx : ToolContext) (db : Db H)
      (r : Result Failure (Value × Db H))
      → OnOk ext db p (Unchanged ext db p) r
      → Move db (conclude hashing ext p tool args ctx db r).1
  unfolding conclude
  conclude-Move p tool args ctx db (Result.err (tool_denied reason)) h = stay_logged db _
  conclude-Move p tool args ctx db (Result.err (tool_error reason)) h = stay_logged db _
  conclude-Move p tool args ctx db (Result.err escaped) h = stay db
  conclude-Move p tool args ctx db (Result.ok (v, db')) (l, same) =
      idle l.pending_actions same l.next_uuid

  propose-Move :
      (p : Principal) (tool : Tool) (args : ToolArgs) (ctx : ToolContext) (db : Db H)
      → Move db (propose hashing ext p tool args ctx db).1
  unfolding propose
  propose-Move p tool args ctx db = Moves.propose _ refl refl refl refl (omega arith)

  not_sensitive : (tool : Tool) → (spec_of tool).sensitive ≡ false → tool ≢ Tool.create_vpn_profile
  unfolding spec_of
  not_sensitive Tool.create_vpn_profile h = cc
  not_sensitive Tool.search_internal_docs h = λ e. cc
  not_sensitive Tool.get_server_status h = λ e. cc
  not_sensitive Tool.create_support_ticket h = λ e. cc
  not_sensitive Tool.get_support_ticket h = λ e. cc

  run_authorized-Move :
      (p : Principal) (tool : Tool) (args : ToolArgs) (ctx : ToolContext) (db : Db H)
      (denial : Option String)
      → Move db (run_authorized hashing ext p tool args ctx db denial).1
  unfolding run_authorized
  run_authorized-Move p tool args ctx db (some denial) = stay_logged db _
  run_authorized-Move p tool args ctx db none = elim (Bool-cases (spec_of tool).sensitive) [
    | inl yes_ ↦ rw yes_ (propose-Move p tool args ctx db)
    | inr no_ ↦ rw no_ (
        conclude-Move p tool args ctx db (handle ext db p ctx.user_message tool args)
          (handle-Unchanged ext db p ctx.user_message tool args (not_sensitive tool no_)))
  ]

  run_valid-Move :
      (p : Principal) (tool : Tool) (raw : Value) (ctx : ToolContext) (db : Db H)
      (r : Result String ToolArgs)
      → Move db (run_valid hashing ext p tool raw ctx db r).1
  unfolding run_valid
  run_valid-Move p tool raw ctx db (Result.err reason) = stay_logged db _
  run_valid-Move p tool raw ctx db (Result.ok args) =
      run_authorized-Move p tool args ctx db (authorize p (spec_of tool))

  run_known-Move :
      (p : Principal) (name : String) (raw : Value) (ctx : ToolContext) (db : Db H)
      (t : Option Tool)
      → Move db (run_known hashing ext p name raw ctx db t).1
  unfolding run_known
  run_known-Move p name raw ctx db none = stay_logged db _
  run_known-Move p name raw ctx db (some tool) =
      run_valid-Move p tool raw ctx db (ext.validate tool raw)

  pub run_tool-Move :
      (p : Principal) (name : String) (raw : Value) (ctx : ToolContext) (db : Db H)
      → Move db (run_tool hashing ext p name raw ctx db).1
  unfolding run_tool
  run_tool-Move p name raw ctx db = run_known-Move p name raw ctx db (tool_of name)
