-- ===== src/Tools/System.antt =====
-- The executor over many requests, src/opsassist/tools/executor.py: runs of tools, decisions on pending
-- actions, the passing of time and changes of the employees' rows, one after the other.
pub mod Rows
pub mod Safety
pub mod Trail
pub mod Intact
pub mod Grants
use novax_ai_assignment.Base.{ℕ, ◌+◌, String, Option, List, [], ◌∷◌}
use novax_ai_assignment.Policy.Redact.{Value}
use novax_ai_assignment.Policy.Auth.{Principal, User}
use novax_ai_assignment.Policy.Audit.{Hashing}
use novax_ai_assignment.Tools.Store.{Db}
use novax_ai_assignment.Tools.Handlers.{Externals}
use novax_ai_assignment.Tools.Execute.{ToolContext, run_tool}
use novax_ai_assignment.Tools.Approve.{approve_pending, reject_pending}

pub data Event : Type 0 where
  runs : Principal → String → Value → ToolContext → Event
  approves : Principal → ℕ → String → ToolContext → Event
  rejects : Principal → ℕ → Option String → ToolContext → Event
  time_passes : ℕ → Event
  users_become : List User → Event

module _ {H : Type 0} (hashing : Hashing H) (ext : Externals) where
  unfoldable pub step : Db H → Event → Db H
  step db (runs p name raw ctx) = (run_tool hashing ext p name raw ctx db).1
  step db (approves p id hash ctx) = (approve_pending hashing ext p id hash ctx db).1
  step db (rejects p id reason ctx) = (reject_pending hashing ext p id reason ctx db).1
  step db (time_passes t) = record db { now = db.now + t }
  step db (users_become users) = record db { users = users }

  unfoldable pub run : Db H → List Event → Db H
  unfolding step
  run db [] = db
  run db (e ∷ events) = run (step db e) events
