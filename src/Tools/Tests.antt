-- ===== src/Tools/Tests.antt =====
-- A VPN profile requested by one person and approved by another, and the theorems on the executor at it.
use novax_ai_assignment.Base.{
  ℕ, ◌+◌, String, ◌≡◌, refl, true, false, none, some, List, [], ◌∷◌, arith, Result, ok, err, eqb,
}
use novax_ai_assignment.Policy.Redact.{Value, obj, end}
use novax_ai_assignment.Policy.Auth
use novax_ai_assignment.Policy.Auth.{User, Principal, has}
use novax_ai_assignment.Policy.Audit
use novax_ai_assignment.Policy.Audit.{Hashing, verify_chain}
use novax_ai_assignment.Policy.Audit.Chain.{Compares}
use novax_ai_assignment.Tools.Registry
use novax_ai_assignment.Tools.Registry.{Tool, ToolArgs, vpn_args, server_args}
use novax_ai_assignment.Tools.Store
use novax_ai_assignment.Tools.Store.{Db, PendingAction, PendingStatus, Server, find_pending}
use novax_ai_assignment.Tools.Handlers
use novax_ai_assignment.Tools.Handlers.{Externals}
use novax_ai_assignment.Tools.Execute
use novax_ai_assignment.Tools.Execute.{ToolContext, run_tool}
use novax_ai_assignment.Tools.Approve
use novax_ai_assignment.Tools.Approve.{approve_pending}
use novax_ai_assignment.Tools.System.{Event, runs, approves, time_passes, run}
use novax_ai_assignment.Tools.System.Safety.{Fresh, Sound, run-Sound, decided_stays}
use novax_ai_assignment.Tools.System.Trail.{Logged, run_tool-Logged, approve_pending-Logged}
use novax_ai_assignment.Tools.System.Intact.{run-Intact}
use novax_ai_assignment.Tools.System.Grants.{
  Allowed, Granted, is_ok, run_tool-ok, approve_pending-ok,
}

-- Hashes are numbers, and a digest is the next one.
abbrev pub hashing : Hashing ℕ
hashing = record { genesis = 0; digest = λ p a. p + 1; same = eqb }

hashing-Compares : Compares hashing
hashing-Compares a b = ((λ h. ground arith), (λ h. ground arith))

abbrev args_of : Tool → Value → Result String ToolArgs
args_of Tool.create_vpn_profile raw = ok (vpn_args (some "u1") none 30)
args_of Tool.get_server_status raw = ok (server_args "srv-1")
args_of _ raw = err "no arguments"

abbrev pub ext : Externals
ext = record {
  validate = args_of;
  dump = λ args. obj end;
  hash_action = λ tool args user. "h1";
  hash_ticket = λ s. s;
  search = λ scope query. none;
  like = λ s t. false;
  strip = λ s. s;
  lower = λ s. s;
  repr = λ s. s;
  contains_text = λ s t. false;
}

abbrev user : String → String → User
user id permission = record {
  id = id;
  name = id;
  department = "it_ops";
  role = "engineer";
  permissions = permission ∷ "server:read" ∷ [];
  is_active = true;
}

abbrev person : String → String → Principal
person id permission = record {
  user_id = id;
  name = id;
  department = "it_ops";
  role = "engineer";
  permissions = permission ∷ "server:read" ∷ [];
}

abbrev pub ada : Principal
ada = person "u1" "vpn:create"

abbrev bob : Principal
bob = person "u2" "vpn:approve"

abbrev ctx : ToolContext
ctx = record { request_id = "r1"; conversation_id = none; user_message = none }

abbrev action : PendingStatus → PendingAction
action status = record {
  id = 0;
  conversation_id = none;
  requester_id = "u1";
  tool = "create_vpn_profile";
  arguments = obj end;
  summary = "Create a VPN profile";
  action_hash = "h1";
  requires_permission = "vpn:create";
  approve_permission = "vpn:approve";
  status = status;
  approver_id = none;
  result = none;
  request_id = "r1";
  expires_at = 86400;
  decided_at = none;
  executed_at = none;
}

abbrev db_with : List PendingAction → ℕ → Db ℕ
db_with actions next = record {
  now = 100;
  users = user "u1" "vpn:create" ∷ user "u2" "vpn:approve" ∷ [];
  servers =
      record {
        id = "srv-1";
        environment = "prod";
        owner_department = "it_ops";
        status = "up";
        cpu_pct = none;
        memory_pct = none;
        last_check = "now";
      }
      ∷ [];
  tickets = [];
  vpn_profiles = [];
  pending_actions = actions;
  audit_log = [];
  ticket_number = 1001;
  vpn_number = 1;
  next_uuid = next;
}

abbrev pub empty : Db ℕ
empty = db_with [] 0

abbrev events : List Event
events =
    runs ada "create_vpn_profile" (obj end) ctx
    ∷ time_passes 60
    ∷ approves ada 0 "h1" ctx
    ∷ approves bob 0 "h1" ctx
    ∷ approves bob 0 "h1" ctx
    ∷ []

empty-Fresh : Fresh empty
unfolding find_pending
empty-Fresh k p h = cc

run-Sound_example : Sound (run hashing ext empty events)
run-Sound_example = run-Sound hashing ext empty events (empty-Fresh, tt)

rejected-Fresh : Fresh (db_with (action PendingStatus.rejected ∷ []) 1)
unfolding find_pending
rejected-Fresh k p h = ground arith

decided_stays_example :
    find_pending 0
      (run hashing ext (db_with (action PendingStatus.rejected ∷ []) 1) events).pending_actions
    ≡ some (action PendingStatus.rejected)
decided_stays_example =
    decided_stays hashing ext (db_with (action PendingStatus.rejected ∷ []) 1) events 0
      (action PendingStatus.rejected) rejected-Fresh (unfold find_pending in refl) refl

run_tool-Logged_example :
    Logged hashing ada ctx empty (run_tool hashing ext ada "create_vpn_profile" (obj end) ctx empty)
run_tool-Logged_example = run_tool-Logged hashing ext ada "create_vpn_profile" (obj end) ctx empty

abbrev waiting : Db ℕ
waiting = db_with (action PendingStatus.pending ∷ []) 1

approve_pending-Logged_example :
    Logged hashing bob ctx waiting (approve_pending hashing ext bob 0 "h1" ctx waiting)
approve_pending-Logged_example = approve_pending-Logged hashing ext bob 0 "h1" ctx waiting

run-Intact_example : (verify_chain hashing (run hashing ext empty events).audit_log).intact ≡ true
run-Intact_example =
    run-Intact hashing hashing-Compares ext empty events
      (unfold verify_chain Audit.verify_from in refl)

status-is_ok : is_ok (run_tool hashing ext ada "get_server_status" (obj end) ctx empty).0 ≡ true
unfolding run_tool Execute.run_known Registry.tool_of Execute.run_valid Execute.run_authorized
    Execute.authorize Registry.spec_of has Execute.conclude Handlers.handle
    Handlers.get_server_status Store.find_server
status-is_ok = refl

run_tool-ok_example : Allowed ext ada "get_server_status" (obj end)
run_tool-ok_example =
    run_tool-ok hashing ext ada "get_server_status" (obj end) ctx empty status-is_ok

approval-is_ok : is_ok (approve_pending hashing ext bob 0 "h1" ctx waiting).0 ≡ true
unfolding approve_pending Approve.approve_found Approve.decide find_pending has Registry.tool_of
    Approve.with_tool Approve.for_requester Auth.load_principal Auth.find_user Execute.authorize
    Registry.spec_of Approve.run_args Handlers.handle Handlers.create_vpn_profile
    Handlers.resolve_employee Approve.finish
approval-is_ok = refl

approve_pending-ok_example : Granted ext bob 0 "h1" waiting
approve_pending-ok_example = approve_pending-ok hashing ext bob 0 "h1" ctx waiting approval-is_ok
