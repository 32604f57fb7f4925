-- ===== src/Agent/Nodes/Resumed.antt =====
-- What the interrupt of `tool_node` in src/opsassist/agent/graph.py stands for, and what its resumption
-- does.
use novax_ai_assignment.Base.{
  String, ◌≡◌, refl, inl, inr, true, Option, none, some, ◌∷◌, Bool-cases, Result, if◌then◌else◌,
}
use novax_ai_assignment.Policy.Redact.{Value}
use novax_ai_assignment.Policy.Auth.{Principal, load_principal}
use novax_ai_assignment.Policy.Audit.{Hashing}
use novax_ai_assignment.Tools.Registry.{Tool, ToolArgs, tool_of, spec_of}
use novax_ai_assignment.Tools.Store.{Db, PendingAction, PendingStatus}
use novax_ai_assignment.Tools.Handlers.{
  Externals, Failure, tool_error, tool_denied, escaped, handle,
}
use novax_ai_assignment.Tools.Execute.{
  ToolOutcome, ToolContext, authorize, propose, conclude, run_authorized, run_valid, run_known,
  run_tool, log,
}
use novax_ai_assignment.Agent.Nodes.{
  AgentState, Resumption, Payload, NodeEnd, paused, is_waiting, payload_of_outcome, interrupted,
  after_run, context_of, run_as, tool_node,
}

-- An outcome that waits has stored one new action, pending, and names it with its hash.
abbrev pub Waits : {H : Type 0} → Db H → Option ToolOutcome × Db H → Type 0
Waits db (none, db') = Unit
Waits db (some o, db') =
    if is_waiting o.status
    then ((row : PendingAction) × (db'.pending_actions ≡ row ∷ db.pending_actions)
        × (row.status ≡ PendingStatus.pending)
        × (o.pending_action_id ≡ some row.id)
        × (o.action_hash ≡ some row.action_hash))
    else Unit

module _ {H : Type 0} (hashing : Hashing H) (ext : Externals) where
  conclude-Waits :
      (p : Principal) (tool : Tool) (args : ToolArgs) (ctx : ToolContext) (db : Db H)
      (r : Result Failure (Value × Db H))
      → Waits db (conclude hashing ext p tool args ctx db r)
  unfolding conclude
  conclude-Waits p tool args ctx db (Result.err (tool_denied reason)) = tt
  conclude-Waits p tool args ctx db (Result.err (tool_error reason)) = tt
  conclude-Waits p tool args ctx db (Result.err escaped) = tt
  conclude-Waits p tool args ctx db (Result.ok (v, db')) = tt

  run_authorized-Waits :
      (p : Principal) (tool : Tool) (args : ToolArgs) (ctx : ToolContext) (db : Db H)
      (denial : Option String)
      → Waits db (run_authorized hashing ext p tool args ctx db denial)
  unfolding run_authorized propose log
  run_authorized-Waits p tool args ctx db (some denial) = tt
  run_authorized-Waits p tool args ctx db none = elim (Bool-cases (spec_of tool).sensitive) [
    | inl yes_ ↦ rw yes_ (_, refl, refl, refl, refl)
    | inr no_ ↦
        rw no_ (conclude-Waits p tool args ctx db (handle ext db p ctx.user_message tool args))
  ]

  run_valid-Waits :
      (p : Principal) (tool : Tool) (raw : Value) (ctx : ToolContext) (db : Db H)
      (r : Result String ToolArgs)
      → Waits db (run_valid hashing ext p tool raw ctx db r)
  unfolding run_valid
  run_valid-Waits p tool raw ctx db (Result.err reason) = tt
  run_valid-Waits p tool raw ctx db (Result.ok args) =
      run_authorized-Waits p tool args ctx db (authorize p (spec_of tool))

  run_known-Waits :
      (p : Principal) (name : String) (raw : Value) (ctx : ToolContext) (db : Db H)
      (t : Option Tool)
      → Waits db (run_known hashing ext p name raw ctx db t)
  unfolding run_known
  run_known-Waits p name raw ctx db none = tt
  run_known-Waits p name raw ctx db (some tool) =
      run_valid-Waits p tool raw ctx db (ext.validate tool raw)

  run_tool-Waits :
      (p : Principal) (name : String) (raw : Value) (ctx : ToolContext) (db : Db H)
      → Waits db (run_tool hashing ext p name raw ctx db)
  unfolding run_tool
  run_tool-Waits p name raw ctx db = run_known-Waits p name raw ctx db (tool_of name)

  -- A paused node has stored one new pending action, which the interrupt names with its hash.
  abbrev pub Pauses : Db H → NodeEnd × Db H → Type 0
  Pauses db (paused payload, db') =
      (row : PendingAction) × (db'.pending_actions ≡ row ∷ db.pending_actions)
      × (row.status ≡ PendingStatus.pending)
      × (payload.pending_action_id ≡ some row.id)
      × (payload.action_hash ≡ some row.action_hash)
  Pauses db (_, db') = Unit

  after_run-Pauses :
      (db : Db H) (o : Option ToolOutcome) (db' : Db H)
      → Waits db (o, db')
      → Pauses db (after_run none o, db')
  unfolding after_run interrupted payload_of_outcome
  after_run-Pauses db none db' h = tt
  after_run-Pauses db (some o) db' h = elim (Bool-cases (is_waiting o.status)) [
    | inl waits ↦ rw waits (rw waits at h)
    | inr ends ↦ rw ends tt
  ]

  Waits-row :
      (db : Db H) (o : ToolOutcome) (db' : Db H)
      → is_waiting o.status ≡ true
      → Waits db (some o, db')
      → (row : PendingAction) × (db'.pending_actions ≡ row ∷ db.pending_actions)
        × (row.status ≡ PendingStatus.pending)
  Waits-row db o db' waits h =
      let (row, stored, open_, id, hash) = rw waits at h in (row, stored, open_)

  after_run-again :
      (db db' : Db H) (payload : Payload) (o : Option ToolOutcome)
      → after_run none o ≡ paused payload
      → Waits db (o, db')
      → (row : PendingAction) × (db'.pending_actions ≡ row ∷ db.pending_actions)
        × (row.status ≡ PendingStatus.pending)
  unfolding after_run
  after_run-again db db' payload none h w = cc
  after_run-again db db' payload (some o) h w = elim (Bool-cases (is_waiting o.status)) [
    | inl waits ↦ Waits-row db o db' waits w
    | inr ends ↦ cc (rw ends at h)
  ]

  run_as-Pauses :
      (state : AgentState) (db : Db H) (r : Option Principal)
      → Pauses db (run_as hashing ext state none db r)
  unfolding run_as
  run_as-Pauses state db none = tt
  run_as-Pauses state db (some p) =
      after_run-Pauses db _ _ (run_tool-Waits p state.tool state.arguments (context_of state) db)

  -- A tool's node that pauses has stored one new pending action, and its interrupt names that action
  -- and its hash.
  pub tool_node-Pauses :
      (state : AgentState) (db : Db H) → Pauses db (tool_node hashing ext state none db)
  unfolding tool_node
  tool_node-Pauses state db = run_as-Pauses state db (load_principal db.users state.user_id)

  run_as-again :
      (state : AgentState) (answer : Resumption) (db : Db H) (payload : Payload)
      (r : Option Principal)
      → (run_as hashing ext state none db r).0 ≡ paused payload
      → (row : PendingAction) × ((run_as hashing ext state (some answer) db r).1.pending_actions
          ≡ row ∷ db.pending_actions)
        × (row.status ≡ PendingStatus.pending)
  unfolding run_as
  run_as-again state answer db payload none h = cc
  run_as-again state answer db payload (some p) h =
      after_run-again db _ payload _ h
        (run_tool-Waits p state.tool state.arguments (context_of state) db)

  -- A tool's node that would pause, when it is resumed with an answer, proposes its action again: one
  -- more pending action is stored, whatever the answer says.
  pub tool_node-again :
      (state : AgentState) (answer : Resumption) (db : Db H) (payload : Payload)
      → (tool_node hashing ext state none db).0 ≡ paused payload
      → (row : PendingAction) × ((tool_node hashing ext state (some answer) db).1.pending_actions
          ≡ row ∷ db.pending_actions)
        × (row.status ≡ PendingStatus.pending)
  unfolding tool_node
  tool_node-again state answer db payload h =
      run_as-again state answer db payload (load_principal db.users state.user_id) h
