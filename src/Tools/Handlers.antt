-- ===== src/Tools/Handlers.antt =====
-- src/opsassist/tools/executor.py: the handlers of the tools. What they raise before they write is a
-- `Failure`, and leaves the database as it was.
pub mod Frame
use novax_ai_assignment.Base.{
  ℕ, suc, ◌+◌, ◌-◌, ◌*◌, String, Bool, true, false, not, ◌&&◌, ◌||◌, Option, none, some, List, [],
  ◌∷◌, ◌==◌, eqb, ltb, length, keep, join, show, show_padded, is_empty, Result, ok, err, ◌>>=◌,
  ◌>>◌, raise_if, or_raise, if◌then◌else◌,
}
use novax_ai_assignment.Policy.Access.{AccessScope, scope_for}
use novax_ai_assignment.Policy.Redact.{
  Value, Items, null, num, text, bool, arr, obj, nil, cons, end, field,
}
use novax_ai_assignment.Policy.Auth.{User, Principal, has, find_user, load_principal}
use novax_ai_assignment.Tools.Registry.{
  Tool, ToolArgs, search_args, server_args, ticket_args, ticket_id_args, vpn_args,
}
use novax_ai_assignment.Tools.Store.{
  Db, Server, Ticket, VpnProfile, find_server, find_ticket, find_ticket_by_key,
}

-- `escaped` is any other exception: it leaves the executor, and the transaction is rolled back.
pub data Failure : Type 0 where
  tool_error tool_denied : String → Failure
  escaped : Failure

-- What the handler reads of a retrieved chunk.
pub record Hit : Type 0 where
  pub title : String
  pub stable_ref : String
  pub department : String
  pub context : String

unfoldable pub wanted : Option String → Hit → Bool
wanted none hit = true
wanted (some department) hit = hit.department == department

unfoldable pub hit_values : List Hit → Items
hit_values [] = nil
hit_values (h ∷ hits) =
    cons
      (obj (
        field "title" (text h.title) (
          field "ref" (text h.stable_ref)
            (field "department" (text h.department) (field "text" (text h.context) end)))))
      (hit_values hits)

-- What lies outside the executor: the validation of arguments by pydantic, the two uses of SHA-256,
-- the retrieval behind the search (`none` where it raises), the database's `LIKE` and Python's
-- `strip`, `lower`, `repr` and containment of texts.
pub record Externals : Type 0 where
  pub validate : Tool → Value → Result String ToolArgs
  pub dump : ToolArgs → Value
  pub hash_action : String → Value → String → String
  pub hash_ticket : String → String
  pub search : AccessScope → String → Option (List Hit)
  pub like : String → String → Bool
  pub strip : String → String
  pub lower : String → String
  pub repr : String → String
  pub contains_text : String → String → Bool

-- Minutes, hours and days in the unit of the times, which is the second.
abbrev pub ticket_idempotency_window : ℕ
ticket_idempotency_window = 600

abbrev pub day : ℕ
day = 86400

-- Ids by which `session.get` finds rows are unique.
unfoldable pub optional : Option ℕ → Value
optional none = null
optional (some n) = num n

-- `visible_server_fields`
unfoldable pub visible_server_fields : Principal → Server → Value
unfolding optional
visible_server_fields p s = obj (
    field "server_id" (text s.id) (
      field "environment" (text s.environment) (
        field "owner_department" (text s.owner_department) (
          field "status" (text s.status) (
            field "last_check" (text s.last_check) (
              if p.department == s.owner_department || p.department == "it_ops"
              then field "cpu_pct" (optional s.cpu_pct)
                  (field "memory_pct" (optional s.memory_pct) end)
              else field "utilisation"
                  (text "hidden: visible to the owning department and IT Operations") end))))))

unfoldable pub same_team : Principal → Option User → Bool
same_team p none = false
same_team p (some raiser) = raiser.department == p.department

-- The end of `resolve_employee`, by the name as Python shows it.
unfoldable pub only : List User → String → Result Failure User
only [] shown = err (tool_error (join "no employee named " shown))
only (u ∷ []) shown = ok u
only (u ∷ v ∷ users) shown = err (
    tool_error (
      join shown
        (join " matches " (join (show (length users + 2)) " employees; ask for the employee id"))))

module _ (ext : Externals) where
  unfoldable pub trimmed : Option String → String
  trimmed none = ext.strip ""
  trimmed (some request) = ext.strip request

  -- `with_provenance`
  unfoldable pub with_provenance : String → Option String → String
  unfolding trimmed
  with_provenance details request =
      let said = trimmed request in
      if is_empty said || ext.contains_text (ext.lower details) (ext.lower said)
      then details
      else join details (join "\n\nRaised from: \"" (join said "\""))

  module _ {H : Type 0} where
    unfoldable pub search_internal_docs :
        Db H → Principal → String → Option String → Result Failure (Value × Db H)
    search_internal_docs db p query department = do
      chunks ← or_raise (ext.search (scope_for p) query) escaped
      let hits = keep (wanted department) chunks
      ok (obj (field "hits" (arr (hit_values hits)) (field "count" (num (length hits)) end)), db)

    unfoldable pub get_server_status : Db H → Principal → String → Result Failure (Value × Db H)
    get_server_status db p id = do
      server ←
          or_raise (find_server id db.servers)
            (tool_error (join "no server with id " (ext.repr id)))
      ok (visible_server_fields p server, db)

    -- A new ticket with this key; the draw of a uuid is counted where the key holds one.
    unfoldable pub open_ticket :
        Db H → Principal → String → String → String → Option String → String → Value × Db H
    open_ticket db p title severity details request key =
        let ticket : Ticket = record {
          id = join "INC-" (show db.ticket_number);
          title = title;
          severity = severity;
          details = with_provenance details request;
          status = "open";
          created_by = p.user_id;
          idempotency_key = key;
          created_at = db.now;
        } in
        (
          obj (
              field "ticket_id" (text ticket.id) (
                field "title" (text ticket.title) (
                  field "severity" (text ticket.severity) (
                    field "status" (text ticket.status)
                      (field "details" (text ticket.details) end))))),
          record db { tickets = ticket ∷ db.tickets; ticket_number = db.ticket_number + 1 },
        )

    -- `datetime.now(UTC) - existing.created_at < TICKET_IDEMPOTENCY_WINDOW`
    unfoldable pub recent : Db H → Ticket → Bool
    recent db t = ltb db.now (t.created_at + ticket_idempotency_window)

    unfoldable pub ticket_for :
        Db H
        → Principal
        → String
        → String
        → String
        → Option String
        → String
        → Option Ticket
        → Value × Db H
    unfolding recent open_ticket
    ticket_for db p title severity details request key none =
        open_ticket db p title severity details request key
    ticket_for db p title severity details request key (some existing) =
        let again = record db { next_uuid = db.next_uuid + 1 } in
        if recent db existing
        then (
          obj (
              field "ticket_id" (text existing.id)
                (field "status" (text existing.status) (field "duplicate" (bool true) end))),
          db,
        )
        else open_ticket again p title severity details request
            (join key (join ":" (show db.next_uuid)))

    -- `_create_support_ticket`
    unfoldable pub create_support_ticket :
        Db H → Principal → String → String → String → Option String → Value × Db H
    unfolding ticket_for
    create_support_ticket db p title severity details request =
        let source =
          join p.user_id (join "|" (join title (join "|" (join severity (join "|" details))))) in
        let key = ext.hash_ticket source in
        ticket_for db p title severity details request key (find_ticket_by_key key db.tickets)

    -- Who may read a ticket: the person who raised it and that person's department.
    unfoldable pub may_read_ticket : Db H → Principal → Ticket → Bool
    unfolding same_team
    may_read_ticket db p t =
        t.created_by == p.user_id || same_team p (find_user t.created_by db.users)

    -- `_get_support_ticket`
    unfoldable pub get_support_ticket : Db H → Principal → String → Result Failure (Value × Db H)
    get_support_ticket db p id = do
      t ←
          or_raise (find_ticket id db.tickets)
            (tool_error (join "no ticket with id " (ext.repr id)))
      raise_if (not (may_read_ticket db p t))
          (tool_denied (join id " belongs to another department"))
      ok (
        obj (
            field "ticket_id" (text t.id) (
              field "title" (text t.title) (
                field "severity" (text t.severity) (
                  field "status" (text t.status) (
                    field "details" (text t.details) (
                      field "raised_by" (text t.created_by)
                        (field "raised_at" (num t.created_at) end))))))),
        db,
      )

    unfoldable pub by_name : Db H → Option String → Result Failure User
    unfolding only
    by_name db none = err escaped
    by_name db (some name) =
        only (keep (λ u. ext.like (ext.lower u.name) (ext.lower (ext.strip name))) db.users)
          (ext.repr name)

    -- `resolve_employee`
    unfoldable pub resolve_employee : Db H → Option String → Option String → Result Failure User
    unfolding by_name
    resolve_employee db none name = by_name db name
    resolve_employee db (some id) name =
        if is_empty id
        then by_name db name
        else or_raise (find_user id db.users)
            (tool_error (join "no employee with id " (ext.repr id)))

    -- The profile of an employee, with the number and the uuid that are next.
    unfoldable pub new_profile : Db H → Principal → ℕ → User → VpnProfile
    new_profile db p days employee = record {
      id = join "VPN-" (show_padded db.vpn_number);
      employee_id = employee.id;
      duration_days = days;
      requested_by = p.user_id;
      approved_by = p.user_id;
      pending_action_id = db.next_uuid;
      expires_at = db.now + days * day;
    }

    unfoldable pub add_profile : Db H → VpnProfile → Value × Db H
    add_profile db profile = (
      obj (
          field "profile_id" (text profile.id) (
            field "employee_id" (text profile.employee_id)
              (field "expires_at" (num profile.expires_at) end))),
      record db {
        vpn_profiles = profile ∷ db.vpn_profiles;
        vpn_number = db.vpn_number + 1;
        next_uuid = db.next_uuid + 1;
      },
    )

    -- `_create_vpn_profile`; the approver and the action are replaced by `approve_pending`.
    unfoldable pub create_vpn_profile :
        Db H → Principal → Option String → Option String → ℕ → Result Failure (Value × Db H)
    unfolding new_profile add_profile
    create_vpn_profile db p employee_id employee_name days = do
      employee ← resolve_employee db employee_id employee_name
      ok (add_profile db (new_profile db p days employee))

    -- `HANDLERS[tool]`; arguments of another tool's model would raise.
    unfoldable pub handle :
        Db H → Principal → Option String → Tool → ToolArgs → Result Failure (Value × Db H)
    unfolding search_internal_docs get_server_status
    handle db p request Tool.search_internal_docs (search_args query department) =
        search_internal_docs db p query department
    handle db p request Tool.get_server_status (server_args id) = get_server_status db p id
    handle db p request Tool.create_support_ticket (ticket_args title severity details) =
        ok (create_support_ticket db p title severity details request)
    handle db p request Tool.get_support_ticket (ticket_id_args id) = get_support_ticket db p id
    handle db p request Tool.create_vpn_profile (vpn_args employee_id employee_name days) =
        create_vpn_profile db p employee_id employee_name days
    handle db p request _ _ = err escaped
