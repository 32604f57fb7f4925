-- ===== src/Tools/System/Grants.antt =====
-- When the executor, src/opsassist/tools/executor.py, lets an action run: what an answer `ok` of
-- `run_tool` and of `approve_pending` says of the caller and of the action.
use novax_ai_assignment.Base.{
  ℕ, ◌≤◌, String, ◌≡◌, ◌≢◌, refl, ◌⊎◌, inl, inr, Bool, true, false, Option, none, some, arith,
  Bool-cases, Option-cases, Result, ok, err, is_some, ltb, ◌==◌, eq_iff,
}
use novax_ai_assignment.Policy.Redact.{Value}
use novax_ai_assignment.Policy.Auth.{Principal, has, load_principal}
use novax_ai_assignment.Policy.Audit.{Hashing}
use novax_ai_assignment.Tools.Registry.{Tool, ToolArgs, tool_of, spec_of}
use novax_ai_assignment.Tools.Store.{Db, PendingAction, PendingStatus, find_pending}
use novax_ai_assignment.Tools.Handlers.{Externals}
use novax_ai_assignment.Tools.Execute.{
  Status, ToolOutcome, ToolContext, authorize, propose, run_authorized, run_valid, run_known,
  run_tool,
}
use novax_ai_assignment.Tools.Approve.{
  is_pending, deny, run_args, refuse_requester, for_requester, with_tool, decide, approve_found,
  approve_pending,
}

abbrev pub is_ok : Option ToolOutcome → Bool
is_ok none = false
is_ok (some o) = elim o.status [ Status.ok ↦ true | _ ↦ false ]

-- A tool that is not sensitive, run with valid arguments by someone whom its permission admits.
pub record Allowed (ext : Externals) (p : Principal) (name : String) (raw : Value) : Type 0 where
  pub tool : Tool
  pub args : ToolArgs
  pub known : tool_of name ≡ some tool
  pub valid : ext.validate tool raw ≡ ok args
  pub authorized : authorize p (spec_of tool) ≡ none
  pub harmless : (spec_of tool).sensitive ≡ false

-- An action that is open and in time, confirmed by its hash, approved by someone with the permission
-- who is not the requester, whose own permission is looked up again.
pub record Granted {H : Type 0} (ext : Externals) (approver : Principal) (id : ℕ)
    (confirm_hash : String) (db : Db H) : Type 0 where
  pub row : PendingAction
  pub tool : Tool
  pub requester : Principal
  pub args : ToolArgs
  pub found : find_pending id db.pending_actions ≡ some row
  pub open_ : row.status ≡ PendingStatus.pending
  pub in_time : db.now ≤ row.expires_at
  pub holds : has approver row.approve_permission ≡ true
  pub apart : approver.user_id ≢ row.requester_id
  pub confirmed : confirm_hash ≡ row.action_hash
  pub known : tool_of row.tool ≡ some tool
  pub loaded : load_principal db.users row.requester_id ≡ some requester
  pub authorized : authorize requester (spec_of tool) ≡ none
  pub valid : ext.validate tool row.arguments ≡ ok args

is_some-none {ℓ} : {A : Type ℓ} (o : Option A) → is_some o ≡ false → o ≡ none
is_some-none none h = refl
is_some-none (some a) h = cc

Result-cases {ℓ κ} :
    {E : Type ℓ} {A : Type κ} (r : Result E A) → ((e : E) × (r ≡ err e)) ⊎ ((a : A) × (r ≡ ok a))
Result-cases (err e) = inl (e, refl)
Result-cases (ok a) = inr (a, refl)

is_pending-eq : (s : PendingStatus) → is_pending s ≡ true → s ≡ PendingStatus.pending
is_pending-eq s h = ground arith

module _ {H : Type 0} (hashing : Hashing H) (ext : Externals) where
  run_authorized-ok :
      (p : Principal) (tool : Tool) (args : ToolArgs) (ctx : ToolContext) (db : Db H)
      (denial : Option String)
      → is_ok (run_authorized hashing ext p tool args ctx db denial).0 ≡ true
      → (denial ≡ none) × ((spec_of tool).sensitive ≡ false)
  unfolding run_authorized propose
  run_authorized-ok p tool args ctx db (some denial) h = cc
  run_authorized-ok p tool args ctx db none h = elim (Bool-cases (spec_of tool).sensitive) [
    | inl yes_ ↦ cc (rw yes_ at h)
    | inr no_ ↦ (refl, no_)
  ]

  -- `run_tool` answers `ok` only for a tool of the registry that is not sensitive, with arguments
  -- that its model accepts, and to a caller who holds its permission.
  pub run_tool-ok :
      (p : Principal) (name : String) (raw : Value) (ctx : ToolContext) (db : Db H)
      → is_ok (run_tool hashing ext p name raw ctx db).0 ≡ true
      → Allowed ext p name raw
  unfolding run_tool run_known run_valid
  run_tool-ok p name raw ctx db h = elim (Option-cases (tool_of name)) [
    | inl unknown ↦ cc (rw (unknown, run_known) at h)
    | inr (tool, known) ↦ elim (Result-cases (ext.validate tool raw)) [
      | inl (reason, invalid) ↦ cc (rw (known, run_known, invalid, run_valid) at h)
      | inr (args, valid) ↦
          let (authorized, harmless) =
            run_authorized-ok p tool args ctx db (authorize p (spec_of tool))
              (rw (known, run_known, valid, run_valid) at h) in
          record {
            tool = tool;
            args = args;
            known = known;
            valid = valid;
            authorized = authorized;
            harmless = harmless;
          }
    ]
  ]

  module _ (approver : Principal) (row : PendingAction) (ctx : ToolContext) (db : Db H) where
    for_requester-ok :
        (tool : Tool) (r : Option Principal)
        → is_ok (for_requester hashing ext approver row ctx db tool r).0 ≡ true
        → (p : Principal) × (r ≡ some p)
          × (authorize p (spec_of tool) ≡ none)
          × (args : ToolArgs) × (ext.validate tool row.arguments ≡ ok args)
    unfolding for_requester refuse_requester deny run_args
    for_requester-ok tool none h = cc
    for_requester-ok tool (some p) h = elim (Bool-cases (is_some (authorize p (spec_of tool)))) [
      | inl denied ↦ cc (rw denied at h)
      | inr allowed ↦ elim (Result-cases (ext.validate tool row.arguments)) [
        | inl (reason, invalid) ↦ cc (rw (allowed, invalid, run_args) at h)
        | inr (args, valid) ↦ (p, refl, is_some-none _ allowed, args, valid)
      ]
    ]

    with_tool-ok :
        (t : Option Tool)
        → is_ok (with_tool hashing ext approver row ctx db t).0 ≡ true
        → (tool : Tool) × (t ≡ some tool)
          × (is_ok
                (for_requester hashing ext approver row ctx db tool
                  (load_principal db.users row.requester_id)).0
              ≡ true)
    unfolding with_tool
    with_tool-ok none h = cc
    with_tool-ok (some tool) h = (tool, refl, h)

    -- the checks of `decide`, and what is left when they all pass
    decide-ok :
        (confirm_hash : String)
        → is_ok (decide hashing ext approver row confirm_hash ctx db).0 ≡ true
        → (is_pending row.status ≡ true)
          × (ltb row.expires_at db.now ≡ false)
          × (has approver row.approve_permission ≡ true)
          × ((approver.user_id == row.requester_id) ≡ false)
          × ((confirm_hash == row.action_hash) ≡ true)
          × (is_ok (with_tool hashing ext approver row ctx db (tool_of row.tool)).0 ≡ true)
    unfolding decide deny
    decide-ok confirm_hash h = elim (Bool-cases (is_pending row.status)) [
      | inr closed ↦ cc (rw closed at h)
      | inl open_ ↦ elim (Bool-cases (ltb row.expires_at db.now)) [
        | inl late ↦ cc (rw (open_, late) at h)
        | inr t1 ↦ elim (Bool-cases (has approver row.approve_permission)) [
          | inr lacks ↦ cc (rw (open_, t1, lacks) at h)
          | inl t2 ↦ elim (Bool-cases (approver.user_id == row.requester_id)) [
            | inl self ↦ cc (rw (open_, t1, t2, self) at h)
            | inr t3 ↦ elim (Bool-cases (confirm_hash == row.action_hash)) [
              | inr other ↦ cc (rw (open_, t1, t2, t3, other) at h)
              | inl t4 ↦ (open_, t1, t2, t3, t4, rw (open_, t1, t2, t3, t4) at h)
            ]
          ]
        ]
      ]
    ]

    decided-Granted :
        (id : ℕ) (confirm_hash : String)
        → find_pending id db.pending_actions ≡ some row
        → is_ok (decide hashing ext approver row confirm_hash ctx db).0 ≡ true
        → Granted ext approver id confirm_hash db
    decided-Granted id confirm_hash found h =
        let (open_, t1, t2, t3, t4, rest) = decide-ok confirm_hash h in
        let (tool, known, rest') = with_tool-ok (tool_of row.tool) rest in
        let (p, loaded, authorized, args, valid) =
          for_requester-ok tool (load_principal db.users row.requester_id) rest' in
        record {
          row = row;
          tool = tool;
          requester = p;
          args = args;
          found = found;
          open_ = is_pending-eq row.status open_;
          in_time = ground arith;
          holds = t2;
          apart = λ e. ground (arith, eq_iff approver.user_id row.requester_id);
          confirmed = (eq_iff confirm_hash row.action_hash).0 t4;
          known = known;
          loaded = loaded;
          authorized = authorized;
          valid = valid;
        }

  -- `approve_pending` answers `ok` only when the action exists, is pending and has not expired, the
  -- approver holds the permission to approve it and is not its requester, the confirmation is the
  -- action's hash, and the requester, loaded again, still holds the tool's permission and the stored
  -- arguments are valid.
  pub approve_pending-ok :
      (approver : Principal) (id : ℕ) (confirm_hash : String) (ctx : ToolContext) (db : Db H)
      → is_ok (approve_pending hashing ext approver id confirm_hash ctx db).0 ≡ true
      → Granted ext approver id confirm_hash db
  unfolding approve_pending approve_found deny
  approve_pending-ok approver id confirm_hash ctx db h =
      elim (Option-cases (find_pending id db.pending_actions)) [
        | inl missing ↦ cc (rw missing at h)
        | inr (row, found) ↦
            decided-Granted approver row ctx db id confirm_hash found
              (rw (found, approve_found) at h)
      ]
