-- ===== src/Tools/System/Trail.antt =====
-- The audit trail of the executor, src/opsassist/tools/executor.py: what each call appends.
use novax_ai_assignment.Base.{
  ℕ, String, ◌≡◌, refl, ap₂, ◌⊎◌, inl, inr, Bool, true, false, ◌||◌, Option, none, some, Bool-cases,
  Option-cases, Result, is_some, ltb, ◌==◌,
}
use novax_ai_assignment.Policy.Redact.{Value}
use novax_ai_assignment.Policy.Auth.{Principal, has, load_principal}
use novax_ai_assignment.Policy.Audit.{Hashing, AuditEntry, Decision, append}
use novax_ai_assignment.Tools.Registry.{Tool, ToolArgs, tool_of, spec_of}
use novax_ai_assignment.Tools.Store.{Db, PendingAction, find_pending}
use novax_ai_assignment.Tools.Handlers.{
  Externals, Failure, tool_error, tool_denied, escaped, handle,
}
use novax_ai_assignment.Tools.Handlers.Frame.{Leaves, Effects, OnOk, handle-Effects}
use novax_ai_assignment.Tools.Execute.{
  Status, ToolOutcome, ToolContext, authorize, propose, conclude, run_authorized, run_valid,
  run_known, run_tool, log,
}
use novax_ai_assignment.Tools.Approve
use novax_ai_assignment.Tools.Approve.{
  is_pending, deny, mark_executed, record_approver, profile_id_of, finish, run_args,
  refuse_requester, for_requester, with_tool, decide, approve_found, approve_pending, reject_found,
  reject_pending,
}

-- The decision that a record holds for an outcome; invalid arguments are an error to the caller and
-- a denial on the record.
abbrev pub records_as : Status → Decision → Bool
records_as Status.ok Decision.executed = true
records_as Status.pending Decision.pending = true
records_as Status.denied Decision.deny = true
records_as Status.error Decision.error = true
records_as Status.error Decision.deny = true
records_as _ _ = false

module _ {H : Type 0} (hashing : Hashing H) where
  -- A call answered with an outcome and appended one record about it, or an exception left it and
  -- nothing happened.
  pub data Logged (p : Principal) (ctx : ToolContext) (db : Db H)
      : Option ToolOutcome × Db H → Type 0 where
    answered :
        (outcome : ToolOutcome) (db' : Db H) (e : AuditEntry)
        → e.actor_id ≡ p.user_id
        → e.request_id ≡ ctx.request_id
        → records_as outcome.status e.decision ≡ true
        → db'.audit_log ≡ append hashing db.audit_log e db.now
        → Logged p ctx db (some outcome, db')
    raised : Logged p ctx db (none, db)

  module _ (ext : Externals) where
    handle-Leaves :
        (db : Db H) (p : Principal) (request : Option String) (tool : Tool) (args : ToolArgs)
        → OnOk ext db p (λ v db'. Leaves db db') (handle ext db p request tool args)
    handle-Leaves db p request tool args =
        go (handle ext db p request tool args) (handle-Effects ext db p request tool args)
      where
        go :
            (r : Result Failure (Value × Db H))
            → OnOk ext db p (Effects ext db p tool) r
            → OnOk ext db p (λ v db'. Leaves db db') r
        go (Result.ok (v, db')) (inl (other, same)) = same.0
        go (Result.ok (v, db')) (inr (vpn, made)) = made.leaves
        go (Result.err e) h = tt

    log_after :
        (db db' : Db H) (e : AuditEntry)
        → Leaves db db'
        → (log hashing ext db' e).audit_log ≡ append hashing db.audit_log e db.now
    unfolding log
    log_after db db' e leaves =
        ap₂ (λ rows now. append hashing rows e now) leaves.audit_log leaves.now

    conclude-Logged :
        (p : Principal) (tool : Tool) (args : ToolArgs) (ctx : ToolContext) (db : Db H)
        (r : Result Failure (Value × Db H))
        → OnOk ext db p (λ v db'. Leaves db db') r
        → Logged p ctx db (conclude hashing ext p tool args ctx db r)
    unfolding conclude log
    conclude-Logged p tool args ctx db (Result.err (tool_denied reason)) h =
        answered _ _ _ refl refl refl refl
    conclude-Logged p tool args ctx db (Result.err (tool_error reason)) h =
        answered _ _ _ refl refl refl refl
    conclude-Logged p tool args ctx db (Result.err escaped) h = raised
    conclude-Logged p tool args ctx db (Result.ok (v, db')) leaves =
        answered _ _ _ refl refl refl (log_after db db' _ leaves)

    run_authorized-Logged :
        (p : Principal) (tool : Tool) (args : ToolArgs) (ctx : ToolContext) (db : Db H)
        (denial : Option String)
        → Logged p ctx db (run_authorized hashing ext p tool args ctx db denial)
    unfolding run_authorized propose log
    run_authorized-Logged p tool args ctx db (some denial) = answered _ _ _ refl refl refl refl
    run_authorized-Logged p tool args ctx db none = elim (Bool-cases (spec_of tool).sensitive) [
      | inl yes_ ↦ rw yes_ (answered _ _ _ refl refl refl refl)
      | inr no_ ↦ rw no_ (
          conclude-Logged p tool args ctx db (handle ext db p ctx.user_message tool args)
            (handle-Leaves db p ctx.user_message tool args))
    ]

    run_valid-Logged :
        (p : Principal) (tool : Tool) (raw : Value) (ctx : ToolContext) (db : Db H)
        (r : Result String ToolArgs)
        → Logged p ctx db (run_valid hashing ext p tool raw ctx db r)
    unfolding run_valid log
    run_valid-Logged p tool raw ctx db (Result.err reason) = answered _ _ _ refl refl refl refl
    run_valid-Logged p tool raw ctx db (Result.ok args) =
        run_authorized-Logged p tool args ctx db (authorize p (spec_of tool))

    run_known-Logged :
        (p : Principal) (name : String) (raw : Value) (ctx : ToolContext) (db : Db H)
        (t : Option Tool)
        → Logged p ctx db (run_known hashing ext p name raw ctx db t)
    unfolding run_known log
    run_known-Logged p name raw ctx db none = answered _ _ _ refl refl refl refl
    run_known-Logged p name raw ctx db (some tool) =
        run_valid-Logged p tool raw ctx db (ext.validate tool raw)

    -- Every call of `run_tool` that answers, whatever it answers, appends exactly one audit record,
    -- in the caller's name, under the request's id and with the decision that fits the answer; a
    -- call that an exception leaves changes nothing in the database.
    pub run_tool-Logged :
        (p : Principal) (name : String) (raw : Value) (ctx : ToolContext) (db : Db H)
        → Logged p ctx db (run_tool hashing ext p name raw ctx db)
    unfolding run_tool
    run_tool-Logged p name raw ctx db = run_known-Logged p name raw ctx db (tool_of name)

    record_approver-audit :
        (db : Db H) (approver : Principal) (row : PendingAction) (o : Option String)
        → (record_approver hashing ext db approver row o).audit_log ≡ db.audit_log
    unfolding record_approver
    record_approver-audit db approver row none = refl
    record_approver-audit db approver row (some id) = refl

    record_approver-now :
        (db : Db H) (approver : Principal) (row : PendingAction) (o : Option String)
        → (record_approver hashing ext db approver row o).now ≡ db.now
    unfolding record_approver
    record_approver-now db approver row none = refl
    record_approver-now db approver row (some id) = refl

    mark_executed-log :
        (db db' : Db H) (approver : Principal) (row : PendingAction) (v : Value) (e : AuditEntry)
        → Leaves db db'
        → (log hashing ext (mark_executed hashing ext db' approver row v) e).audit_log
          ≡ append hashing db.audit_log e db.now
    unfolding mark_executed log
    mark_executed-log db db' approver row v e leaves =
        elim (Bool-cases (row.tool == "create_vpn_profile")) [
          | inl vpn ↦
              rw
                (
                  vpn,
                  record_approver-audit db' approver row (profile_id_of v),
                  record_approver-now db' approver row (profile_id_of v),
                  leaves.audit_log,
                  leaves.now,
                )
                refl
          | inr other ↦ rw (other, leaves.audit_log, leaves.now) refl
        ]

    module _ (db : Db H) (row : PendingAction) (approver : Principal) (ctx : ToolContext) where
      finish-Logged :
          (requester : Principal) (r : Result Failure (Value × Db H))
          → OnOk ext db requester (λ v db'. Leaves db db') r
          → Logged approver ctx db (finish hashing ext approver requester row ctx db r)
      unfolding finish log Approve.settle
      finish-Logged requester (Result.err (tool_error reason)) h =
          answered _ _ _ refl refl refl refl
      finish-Logged requester (Result.err (tool_denied reason)) h = raised
      finish-Logged requester (Result.err escaped) h = raised
      finish-Logged requester (Result.ok (v, db')) h =
          answered _ _ _ refl refl refl (mark_executed-log db db' approver row v _ h)

      run_args-Logged :
          (requester : Principal) (tool : Tool) (r : Result String ToolArgs)
          → Logged approver ctx db (run_args hashing ext approver requester row ctx db tool r)
      unfolding run_args
      run_args-Logged requester tool (Result.err reason) = raised
      run_args-Logged requester tool (Result.ok args) =
          finish-Logged requester (handle ext db requester ctx.user_message tool args)
            (handle-Leaves db requester ctx.user_message tool args)

      refuse_requester-Logged :
          Logged approver ctx db (refuse_requester hashing ext approver row ctx db)
      unfolding refuse_requester deny log Approve.settle
      refuse_requester-Logged = answered _ _ _ refl refl refl refl

      for_requester-Logged :
          (tool : Tool) (r : Option Principal)
          → Logged approver ctx db (for_requester hashing ext approver row ctx db tool r)
      unfolding for_requester
      for_requester-Logged tool none = refuse_requester-Logged
      for_requester-Logged tool (some p) =
          elim (Bool-cases (is_some (authorize p (spec_of tool)))) [
            | inl denied ↦ rw denied refuse_requester-Logged
            | inr allowed ↦ rw allowed (run_args-Logged p tool (ext.validate tool row.arguments))
          ]

      with_tool-Logged :
          (t : Option Tool) → Logged approver ctx db (with_tool hashing ext approver row ctx db t)
      unfolding with_tool
      with_tool-Logged none = raised
      with_tool-Logged (some tool) =
          for_requester-Logged tool (load_principal db.users row.requester_id)

      decide-Logged :
          (confirm_hash : String)
          → Logged approver ctx db (decide hashing ext approver row confirm_hash ctx db)
      unfolding decide deny log Approve.settle
      decide-Logged confirm_hash = elim (Bool-cases (is_pending row.status)) [
        | inr closed ↦ rw closed (answered _ _ _ refl refl refl refl)
        | inl open_ ↦ rw open_ (elim (Bool-cases (ltb row.expires_at db.now)) [
          | inl late ↦ rw late (answered _ _ _ refl refl refl refl)
          | inr t1 ↦ rw t1 (elim (Bool-cases (has approver row.approve_permission)) [
            | inr lacks ↦ rw lacks (answered _ _ _ refl refl refl refl)
            | inl t2 ↦ rw t2 (elim (Bool-cases (approver.user_id == row.requester_id)) [
              | inl self ↦ rw self (answered _ _ _ refl refl refl refl)
              | inr t3 ↦ rw t3 (elim (Bool-cases (confirm_hash == row.action_hash)) [
                | inr other ↦ rw other (answered _ _ _ refl refl refl refl)
                | inl t4 ↦ rw t4 (with_tool-Logged (tool_of row.tool))
              ])
            ])
          ])
        ])
      ]

    -- Every call of `approve_pending` that answers appends exactly one audit record, in the
    -- approver's name, under the request's id and with the decision that fits the answer; a call that an
    -- exception leaves changes nothing in the database.
    pub approve_pending-Logged :
        (approver : Principal) (id : ℕ) (confirm_hash : String) (ctx : ToolContext) (db : Db H)
        → Logged approver ctx db (approve_pending hashing ext approver id confirm_hash ctx db)
    unfolding approve_pending approve_found deny log
    approve_pending-Logged approver id confirm_hash ctx db =
        elim (Option-cases (find_pending id db.pending_actions)) [
          | inl missing ↦ rw (missing, approve_found) (answered _ _ _ refl refl refl refl)
          | inr (row, found) ↦
              rw (found, approve_found) (decide-Logged db row approver ctx confirm_hash)
        ]

    -- The log that a call of `reject_pending` leaves: as it was, or with one record.
    pub reject_pending-log :
        (approver : Principal) (id : ℕ) (reason : Option String) (ctx : ToolContext) (db : Db H)
        → ((reject_pending hashing ext approver id reason ctx db).1.audit_log ≡ db.audit_log)
          ⊎ ((e : AuditEntry) × ((reject_pending hashing ext approver id reason ctx db).1.audit_log
                ≡ append hashing db.audit_log e db.now))
    unfolding reject_pending reject_found log
    reject_pending-log approver id reason ctx db =
        elim (Option-cases (find_pending id db.pending_actions)) [
          | inl missing ↦ rw (missing, reject_found) (inl refl)
          | inr (row, found) ↦
              rw (found, reject_found)
                (elim (Bool-cases (is_pending row.status)) [
                  | inr closed ↦ rw closed (inl refl)
                  | inl open_ ↦
                      rw open_
                        (elim (Bool-cases (
                          has approver row.approve_permission
                          || approver.user_id == row.requester_id)) [
                            | inr may_not ↦ rw may_not (inl refl)
                            | inl may ↦ rw may (inr (_, refl))
                          ])
                ])
        ]
