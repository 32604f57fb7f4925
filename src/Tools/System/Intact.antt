-- ===== src/Tools/System/Intact.antt =====
-- The audit chain of src/opsassist/policy/audit.py under every sequence of the executor's calls.
use novax_ai_assignment.Base.{ℕ, ◌≡◌, sym, ap, inl, inr, true, Option, List, [], ◌∷◌, subst}
use novax_ai_assignment.Policy.Auth.{Principal}
use novax_ai_assignment.Policy.Audit.{
  Hashing, AuditEntry, AuditRow, ChainStatus, append, verify_chain,
}
use novax_ai_assignment.Policy.Audit.Chain.{Compares, verify_chain-append}
use novax_ai_assignment.Tools.Store.{Db}
use novax_ai_assignment.Tools.Handlers.{Externals}
use novax_ai_assignment.Tools.Execute.{ToolOutcome, ToolContext, run_tool}
use novax_ai_assignment.Tools.Approve.{approve_pending}
use novax_ai_assignment.Tools.System.{
  Event, runs, approves, rejects, time_passes, users_become, step, run,
}
use novax_ai_assignment.Tools.System.Trail.{
  Logged, answered, raised, run_tool-Logged, approve_pending-Logged, reject_pending-log,
}

module _ {H : Type 0} (hashing : Hashing H) (compares : Compares hashing) where
  abbrev pub Intact : List (AuditRow H) → Type 0
  Intact rows = (verify_chain hashing rows).intact ≡ true

  append-Intact :
      (rows rows' : List (AuditRow H)) (e : AuditEntry) (now : ℕ)
      → rows' ≡ append hashing rows e now
      → Intact rows
      → Intact rows'
  append-Intact rows rows' e now eq h =
      subst Intact (sym eq)
        (ap (λ (s : ChainStatus). s.intact) (verify_chain-append hashing compares rows e now h))

  Logged-Intact :
      (p : Principal) (ctx : ToolContext) (db : Db H) (r : Option ToolOutcome × Db H)
      → Logged hashing p ctx db r
      → Intact db.audit_log
      → Intact r.1.audit_log
  Logged-Intact p ctx db _ (answered outcome db' e a b c eq) h =
      append-Intact db.audit_log db'.audit_log e db.now eq h
  Logged-Intact p ctx db _ raised h = h

  module _ (ext : Externals) where
    step-Intact :
        (db : Db H) (e : Event) → Intact db.audit_log → Intact (step hashing ext db e).audit_log
    unfolding step
    step-Intact db (runs p name raw ctx) h =
        Logged-Intact p ctx db (run_tool hashing ext p name raw ctx db)
          (run_tool-Logged hashing ext p name raw ctx db) h
    step-Intact db (approves p id hash ctx) h =
        Logged-Intact p ctx db (approve_pending hashing ext p id hash ctx db)
          (approve_pending-Logged hashing ext p id hash ctx db) h
    step-Intact db (rejects p id reason ctx) h =
        elim (reject_pending-log hashing ext p id reason ctx db) [
          | inl same ↦ subst Intact (sym same) h
          | inr (e, eq) ↦ append-Intact db.audit_log _ e db.now eq h
        ]
    step-Intact db (time_passes t) h = h
    step-Intact db (users_become users) h = h

    -- A log that `verify_chain` accepts is still accepted after every sequence of runs of tools,
    -- approvals and rejections, where hashes are compared by what they are.
    pub run-Intact :
        (db : Db H) (events : List Event)
        → (verify_chain hashing db.audit_log).intact ≡ true
        → (verify_chain hashing (run hashing ext db events).audit_log).intact ≡ true
    unfolding run
    run-Intact db [] h = h
    run-Intact db (e ∷ events) h = run-Intact (step hashing ext db e) events (step-Intact db e h)
