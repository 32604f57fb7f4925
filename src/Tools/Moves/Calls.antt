-- ===== src/Tools/Moves/Calls.antt =====
-- Each decision on a pending action makes one move.
use novax_ai_assignment.Base.{
  ℕ, String, ◌≡◌, ◌≢◌, refl, sym, subst, ap, ◌∙◌, inl, inr, true, false, ◌||◌, Option, none, some,
  arith, ◌==◌, eq_iff, ltb, is_some, Bool-cases, Option-cases, Result,
}
use novax_ai_assignment.Policy.Redact.{Value}
use novax_ai_assignment.Policy.Auth.{Principal, has, load_principal}
use novax_ai_assignment.Policy.Auth.Laws.{load_principal-IsOf, find_user-id}
use novax_ai_assignment.Policy.Audit.{Hashing, AuditEntry}
use novax_ai_assignment.Tools.Registry.{Tool, ToolArgs, tool_of, tool_name, spec_of}
use novax_ai_assignment.Tools.Store.{
  Db, PendingAction, PendingStatus, find_pending, replace_pending,
}
use novax_ai_assignment.Tools.Store.Lookup.{find_pending-id, approve_profile-first}
use novax_ai_assignment.Tools.Handlers.{
  Externals, Failure, tool_error, tool_denied, escaped, handle,
}
use novax_ai_assignment.Tools.Handlers.Frame.{Effects, OnOk, handle-Effects}
use novax_ai_assignment.Tools.Execute.{ToolContext, authorize, log}
use novax_ai_assignment.Tools.Approve
use novax_ai_assignment.Tools.Approve.{
  is_pending, profile_id_of, deny, mark_executed, finish, run_args, refuse_requester, for_requester,
  with_tool, decide, approve_found, approve_pending, reject_found, reject_pending,
}
use novax_ai_assignment.Tools.Moves.{Move, idle, settle, execute}
use novax_ai_assignment.Tools.Moves
use novax_ai_assignment.Tools.Moves.Runs.{stay, stay_logged}

module _ {H : Type 0} (hashing : Hashing H) (ext : Externals) where
  tool_of-name : (name : String) (tool : Tool) → tool_of name ≡ some tool → name ≡ tool_name tool
  unfolding tool_of tool_name
  tool_of-name name tool h = ground (
    arith,
    eq_iff name "search_internal_docs",
    eq_iff name "get_server_status",
    eq_iff name "create_support_ticket",
    eq_iff name "get_support_ticket",
    eq_iff name "create_vpn_profile",
  )

  tool_name-vpn :
      (tool : Tool)
      → (tool_name tool == "create_vpn_profile") ≡ true
      → tool ≡ Tool.create_vpn_profile
  unfolding tool_name
  tool_name-vpn Tool.search_internal_docs h = cc
  tool_name-vpn Tool.get_server_status h = cc
  tool_name-vpn Tool.create_support_ticket h = cc
  tool_name-vpn Tool.get_support_ticket h = cc
  tool_name-vpn Tool.create_vpn_profile h = refl

  tool_name-not_vpn :
      (tool : Tool)
      → tool ≢ Tool.create_vpn_profile
      → (tool_name tool == "create_vpn_profile") ≡ false
  tool_name-not_vpn tool h = elim (Bool-cases (tool_name tool == "create_vpn_profile")) [
    | inl vpn ↦ absurd (h (tool_name-vpn tool vpn))
    | inr other ↦ other
  ]

  -- a row that was found and is still pending
  module _ (db : Db H) (row : PendingAction)
      (found : find_pending row.id db.pending_actions ≡ some row)
      (open_ : row.status ≡ PendingStatus.pending) (approver : Principal) where
    settle-Move :
        (status : PendingStatus)
        → Moves.ends_without_effect status ≡ true
        → Move db (Approve.settle hashing ext db row status)
    unfolding Approve.settle
    settle-Move status ends = settle row _ found open_ refl ends refl refl (omega arith)

    settle_logged :
        (status : PendingStatus) (e : AuditEntry)
        → Moves.ends_without_effect status ≡ true
        → Move db (log hashing ext (Approve.settle hashing ext db row status) e)
    unfolding Approve.settle log
    settle_logged status e ends = settle row _ found open_ refl ends refl refl (omega arith)

    module _ (requester : Principal) (tool : Tool) (named : row.tool ≡ tool_name tool)
        (same_person : requester.user_id ≡ row.requester_id)
        (apart : approver.user_id ≢ row.requester_id) where
      mark_executed-Move :
          (v : Value) (db' : Db H) (e : AuditEntry)
          → Effects ext db requester tool v db'
          → Move db (log hashing ext (mark_executed hashing ext db' approver row v) e)
      unfolding mark_executed log
      mark_executed-Move v db' e (inl (other, (leaves, same))) =
          let not_vpn : (row.tool == "create_vpn_profile") ≡ false =
            rw named (tool_name-not_vpn tool other) in
          rw not_vpn (
            execute row _ approver.user_id found open_ refl refl refl refl apart
              (ap (replace_pending _) leaves.pending_actions) (inl same) leaves.next_uuid)
      mark_executed-Move v db' e (inr (vpn, made)) =
          let is_vpn : (row.tool == "create_vpn_profile") ≡ true =
            rw (named, vpn) (unfold tool_name in refl) in
          let id : profile_id_of v ≡ some made.profile.id =
            rw made.shape (unfold profile_id_of in refl) in
          rw (is_vpn, id, Approve.record_approver, made.first)
            (execute row _ approver.user_id found open_ refl refl refl refl apart
              (ap (replace_pending _) made.leaves.pending_actions)
              (inr (
                _,
                approve_profile-first made.profile approver.user_id row.id db.vpn_profiles,
                made.requested_by ∙ same_person,
                refl,
                refl,
              ))
              made.leaves.next_uuid)

      finish-Move :
          (ctx : ToolContext) (r : Result Failure (Value × Db H))
          → OnOk ext db requester (Effects ext db requester tool) r
          → Move db (finish hashing ext approver requester row ctx db r).1
      unfolding finish
      finish-Move ctx (Result.err (tool_error reason)) h = settle_logged PendingStatus.failed _ refl
      finish-Move ctx (Result.err (tool_denied reason)) h = stay hashing ext db
      finish-Move ctx (Result.err escaped) h = stay hashing ext db
      finish-Move ctx (Result.ok (v, db')) h = mark_executed-Move v db' _ h

      run_args-Move :
          (ctx : ToolContext) (r : Result String ToolArgs)
          → Move db (run_args hashing ext approver requester row ctx db tool r).1
      unfolding run_args
      run_args-Move ctx (Result.err reason) = stay hashing ext db
      run_args-Move ctx (Result.ok args) =
          finish-Move ctx (handle ext db requester ctx.user_message tool args)
            (handle-Effects ext db requester ctx.user_message tool args)

    refuse_requester-Move :
        (ctx : ToolContext) → Move db (refuse_requester hashing ext approver row ctx db).1
    unfolding refuse_requester deny
    refuse_requester-Move ctx = settle_logged PendingStatus.rejected _ refl

    for_requester-Move :
        (ctx : ToolContext) (tool : Tool) (r : Option Principal)
        → row.tool ≡ tool_name tool
        → ((p : Principal) → r ≡ some p → p.user_id ≡ row.requester_id)
        → approver.user_id ≢ row.requester_id
        → Move db (for_requester hashing ext approver row ctx db tool r).1
    unfolding for_requester
    for_requester-Move ctx tool none named same apart = refuse_requester-Move ctx
    for_requester-Move ctx tool (some p) named same apart =
        elim (Bool-cases (is_some (authorize p (spec_of tool)))) [
          | inl denied ↦ rw denied (refuse_requester-Move ctx)
          | inr allowed ↦
              rw allowed (
                run_args-Move p tool named (same p refl) apart ctx
                  (ext.validate tool row.arguments))
        ]

    requester-id :
        (p : Principal)
        → load_principal db.users row.requester_id ≡ some p
        → p.user_id ≡ row.requester_id
    requester-id p h =
        let (u, got, of_) = load_principal-IsOf db.users row.requester_id p h in
        of_.same_id ∙ find_user-id row.requester_id db.users u got

    with_tool-Move :
        (ctx : ToolContext) (t : Option Tool)
        → tool_of row.tool ≡ t
        → approver.user_id ≢ row.requester_id
        → Move db (with_tool hashing ext approver row ctx db t).1
    unfolding with_tool
    with_tool-Move ctx none named apart = stay hashing ext db
    with_tool-Move ctx (some tool) named apart =
        for_requester-Move ctx tool (load_principal db.users row.requester_id)
          (tool_of-name row.tool tool named) requester-id apart

    apart_of : (approver.user_id == row.requester_id) ≡ false → approver.user_id ≢ row.requester_id
    apart_of h e = ground (arith, eq_iff approver.user_id row.requester_id)

    decide-Move :
        (confirm_hash : String) (ctx : ToolContext)
        → Move db (decide hashing ext approver row confirm_hash ctx db).1
    unfolding decide deny
    decide-Move confirm_hash ctx =
        let open_test : is_pending row.status ≡ true = rw open_ in
        rw open_test (elim (Bool-cases (ltb row.expires_at db.now)) [
          | inl late ↦ rw late (settle_logged PendingStatus.expired _ refl)
          | inr t1 ↦ rw t1 (elim (Bool-cases (has approver row.approve_permission)) [
            | inr lacks ↦ rw lacks (stay_logged hashing ext db _)
            | inl t2 ↦ rw t2 (elim (Bool-cases (approver.user_id == row.requester_id)) [
              | inl self ↦ rw self (stay_logged hashing ext db _)
              | inr t3 ↦ rw t3 (elim (Bool-cases (confirm_hash == row.action_hash)) [
                | inr other ↦ rw other (stay_logged hashing ext db _)
                | inl t4 ↦ rw t4 (with_tool-Move ctx (tool_of row.tool) refl (apart_of t3))
              ])
            ])
          ])
        ])

  decided-Move :
      (db : Db H) (row : PendingAction) (approver : Principal) (confirm_hash : String)
      (ctx : ToolContext)
      → is_pending row.status ≡ false
      → Move db (decide hashing ext approver row confirm_hash ctx db).1
  unfolding decide deny
  decided-Move db row approver confirm_hash ctx h = rw h (stay_logged hashing ext db _)

  is_pending-eq : (s : PendingStatus) → is_pending s ≡ true → s ≡ PendingStatus.pending
  is_pending-eq s h = ground arith

  pub approve_pending-Move :
      (approver : Principal) (id : ℕ) (confirm_hash : String) (ctx : ToolContext) (db : Db H)
      → Move db (approve_pending hashing ext approver id confirm_hash ctx db).1
  unfolding approve_pending approve_found deny
  approve_pending-Move approver id confirm_hash ctx db =
      elim (Option-cases (find_pending id db.pending_actions)) [
        | inl missing ↦ rw (missing, approve_found) (stay_logged hashing ext db _)
        | inr (row, found) ↦
            let same = find_pending-id id db.pending_actions row found in
            let found' : find_pending row.id db.pending_actions ≡ some row =
              subst (λ k. find_pending k db.pending_actions ≡ some row) (sym same) found in
            rw (found, approve_found)
              (elim (Bool-cases (is_pending row.status)) [
                | inl open_ ↦
                    decide-Move db row found' (is_pending-eq row.status open_) approver confirm_hash
                      ctx
                | inr closed ↦ decided-Move db row approver confirm_hash ctx closed
              ])
      ]

  pub reject_pending-Move :
      (approver : Principal) (id : ℕ) (reason : Option String) (ctx : ToolContext) (db : Db H)
      → Move db (reject_pending hashing ext approver id reason ctx db).1
  unfolding reject_pending reject_found log
  reject_pending-Move approver id reason ctx db =
      elim (Option-cases (find_pending id db.pending_actions)) [
        | inl missing ↦ rw (missing, reject_found) (stay hashing ext db)
        | inr (row, found) ↦
            let same = find_pending-id id db.pending_actions row found in
            let found' : find_pending row.id db.pending_actions ≡ some row =
              subst (λ k. find_pending k db.pending_actions ≡ some row) (sym same) found in
            rw (found, reject_found)
              (elim (Bool-cases (is_pending row.status)) [
                | inr closed ↦ rw closed (stay hashing ext db)
                | inl open_ ↦
                    rw open_
                      (elim (Bool-cases (
                        has approver row.approve_permission
                        || approver.user_id == row.requester_id)) [
                          | inr may_not ↦ rw may_not (stay hashing ext db)
                          | inl may ↦ rw may (
                              settle row _ found' (is_pending-eq row.status open_) refl refl refl
                                refl (omega arith))
                        ])
              ])
      ]
