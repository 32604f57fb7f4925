-- ===== src/Tools/Store.antt =====
-- src/opsassist/db/models.py: the rows that the executor reads and writes, and the database as the
-- value that one transaction turns into the next. Ids that the source draws by `uuid4` are numbers
-- counted up, so that they are fresh; times are numbers.
pub mod Lookup
use novax_ai_assignment.Base.{
  ℕ, suc, ◌+◌, String, Bool, true, false, Option, none, some, List, [], ◌∷◌, eqb, ◌==◌,
  if◌then◌else◌,
}
use novax_ai_assignment.Policy.Redact.{Value}
use novax_ai_assignment.Policy.Auth.{User}
use novax_ai_assignment.Policy.Audit.{AuditRow}

pub data PendingStatus : Type 0 where
  pending executed rejected failed expired : PendingStatus

pub record PendingAction : Type 0 where
  pub id : ℕ
  pub conversation_id : Option ℕ
  pub requester_id : String
  pub tool : String
  pub arguments : Value
  pub summary : String
  pub action_hash : String
  pub requires_permission : String
  pub approve_permission : String
  pub status : PendingStatus
  pub approver_id : Option String
  pub result : Option Value
  pub request_id : String
  pub expires_at : ℕ
  pub decided_at : Option ℕ
  pub executed_at : Option ℕ

pub record Server : Type 0 where
  pub id : String
  pub environment : String
  pub owner_department : String
  pub status : String
  pub cpu_pct : Option ℕ
  pub memory_pct : Option ℕ
  pub last_check : String

pub record Ticket : Type 0 where
  pub id : String
  pub title : String
  pub severity : String
  pub details : String
  pub status : String
  pub created_by : String
  pub idempotency_key : String
  pub created_at : ℕ

pub record VpnProfile : Type 0 where
  pub id : String
  pub employee_id : String
  pub duration_days : ℕ
  pub requested_by : String
  pub approved_by : String
  pub pending_action_id : ℕ
  pub expires_at : ℕ

-- A new row stands first in its table. `now` is the transaction's time.
pub record Db (H : Type 0) : Type 0 where
  pub now : ℕ
  pub users : List User
  pub servers : List Server
  pub tickets : List Ticket
  pub vpn_profiles : List VpnProfile
  pub pending_actions : List PendingAction
  pub audit_log : List (AuditRow H)
  pub ticket_number : ℕ
  pub vpn_number : ℕ
  pub next_uuid : ℕ

-- `session.get` and the updates of a row that was got, by primary key.
unfoldable pub find_pending : ℕ → List PendingAction → Option PendingAction
find_pending id [] = none
find_pending id (p ∷ ps) = if eqb p.id id then some p else find_pending id ps

unfoldable pub replace_pending : PendingAction → List PendingAction → List PendingAction
replace_pending q [] = []
replace_pending q (p ∷ ps) = if eqb p.id q.id then q ∷ ps else p ∷ replace_pending q ps

unfoldable pub find_server : String → List Server → Option Server
find_server id [] = none
find_server id (s ∷ ss) = if s.id == id then some s else find_server id ss

unfoldable pub find_ticket : String → List Ticket → Option Ticket
find_ticket id [] = none
find_ticket id (t ∷ ts) = if t.id == id then some t else find_ticket id ts

unfoldable pub find_ticket_by_key : String → List Ticket → Option Ticket
find_ticket_by_key key [] = none
find_ticket_by_key key (t ∷ ts) =
    if t.idempotency_key == key then some t else find_ticket_by_key key ts

-- The profile with this id gets the approver and the action.
unfoldable pub approve_profile : String → String → ℕ → List VpnProfile → List VpnProfile
approve_profile id approver action [] = []
approve_profile id approver action (p ∷ ps) =
    if p.id == id
    then record p { approved_by = approver; pending_action_id = action } ∷ ps
    else p ∷ approve_profile id approver action ps
