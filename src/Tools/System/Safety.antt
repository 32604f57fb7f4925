-- ===== src/Tools/System/Safety.antt =====
-- What stays true of the pending actions and the VPN profiles over every sequence of events.
use novax_ai_assignment.Base.{
  ℕ, ◌≤◌, ◌<◌, ◌≡◌, ◌≢◌, refl, sym, subst, ◌∙◌, ap, inl, inr, false, some, List, [], ◌∷◌, arith,
  All,
}
use novax_ai_assignment.Policy.Audit.{Hashing}
use novax_ai_assignment.Tools.Store.{
  Db, PendingAction, PendingStatus, VpnProfile, find_pending, replace_pending,
}
use novax_ai_assignment.Tools.System.Rows.{
  found-cons, lookup-replace, found-replace, was_found, was_found-cons, other_row,
}
use novax_ai_assignment.Tools.Handlers.{Externals}
use novax_ai_assignment.Tools.Approve.{is_pending}
use novax_ai_assignment.Tools.Moves.{Move, idle, propose, settle, execute}
use novax_ai_assignment.Tools.Moves.Runs.{run_tool-Move}
use novax_ai_assignment.Tools.Moves.Calls.{approve_pending-Move, reject_pending-Move}
use novax_ai_assignment.Tools.System.{
  Event, runs, approves, rejects, time_passes, users_become, step, run,
}

module _ {H : Type 0} where
  -- Ids are drawn fresh: every action has one below the next.
  abbrev pub Fresh : Db H → Type 0
  Fresh db =
      (k : ℕ) (p : PendingAction) → find_pending k db.pending_actions ≡ some p → k < db.next_uuid

  -- The executed action behind a profile, with two different people.
  pub record Approved (db : Db H) (profile : VpnProfile) : Type 0 where
    pub action : PendingAction
    pub found : find_pending profile.pending_action_id db.pending_actions ≡ some action
    pub executed : action.status ≡ PendingStatus.executed
    pub requester : action.requester_id ≡ profile.requested_by
    pub approver : action.approver_id ≡ some profile.approved_by
    pub apart : profile.approved_by ≢ profile.requested_by

  abbrev pub Sound : Db H → Type 0
  Sound db = Fresh db × All (Approved db) db.vpn_profiles

  step-Move :
      (hashing : Hashing H) (ext : Externals) (db : Db H) (e : Event)
      → Move db (step hashing ext db e)
  unfolding step
  step-Move hashing ext db (runs p name raw ctx) = run_tool-Move hashing ext p name raw ctx db
  step-Move hashing ext db (approves p id hash ctx) =
      approve_pending-Move hashing ext p id hash ctx db
  step-Move hashing ext db (rejects p id reason ctx) =
      reject_pending-Move hashing ext p id reason ctx db
  step-Move hashing ext db (time_passes t) = idle refl refl (omega arith)
  step-Move hashing ext db (users_become users) = idle refl refl (omega arith)

  replaced-Fresh :
      (db db' : Db H) (row row' : PendingAction)
      → Fresh db
      → find_pending row.id db.pending_actions ≡ some row
      → row'.id ≡ row.id
      → db'.pending_actions ≡ replace_pending row' db.pending_actions
      → db.next_uuid ≤ db'.next_uuid
      → Fresh db'
  replaced-Fresh db db' row row' fresh at same actions more k p found =
      elim (was_found k row row' p db.pending_actions at same
        (subst (λ ps. find_pending k ps ≡ some p) actions found)) [
          | inl eq ↦ let below = fresh row.id row at in omega arith
          | inr old ↦ let below = fresh k p old in omega arith
        ]

  step-Fresh : (db db' : Db H) → Fresh db → Move db db' → Fresh db'
  step-Fresh db db' fresh (idle actions profiles more) k p found =
      let below = fresh k p (subst (λ ps. find_pending k ps ≡ some p) actions found) in omega arith
  step-Fresh db db' fresh (propose row id open_ actions profiles more) k p found =
      elim (was_found-cons k row p db.pending_actions
        (subst (λ ps. find_pending k ps ≡ some p) actions found)) [
          | inl eq ↦ omega arith
          | inr old ↦ let below = fresh k p old in omega arith
        ]
  step-Fresh db db' fresh (settle row row' at open_ same ends actions profiles more) k p found =
      replaced-Fresh db db' row row' fresh at same actions more k p found
  step-Fresh db db' fresh (execute row row' a at open_ same rid ex ap_ apart actions profiles more)
        k p found =
      replaced-Fresh db db' row row' fresh at same actions more k p found

  step-keeps :
      (db db' : Db H)
      → Fresh db
      → Move db db'
      → (k : ℕ) (p : PendingAction) → find_pending k db.pending_actions ≡ some p
      → is_pending p.status ≡ false
      → find_pending k db'.pending_actions ≡ some p
  step-keeps db db' fresh (idle actions profiles more) k p found closed =
      ap (find_pending k) actions ∙ found
  step-keeps db db' fresh (propose row id open_ actions profiles more) k p found closed =
      let below = fresh k p found in
      ap (find_pending k) actions ∙ found-cons k row p db.pending_actions found (λ e. omega arith)
  step-keeps db db' fresh (settle row row' at open_ same ends actions profiles more) k p found
        closed =
      ap (find_pending k) actions
      ∙ found-replace k row row' p db.pending_actions at same found
          (other_row k row p db.pending_actions at open_ found closed)
  step-keeps db db' fresh (execute row row' a at open_ same rid ex ap_ apart actions profiles more)
        k p found closed =
      ap (find_pending k) actions
      ∙ found-replace k row row' p db.pending_actions at same found
          (other_row k row p db.pending_actions at open_ found closed)

  step-Approved :
      (db db' : Db H)
      → Fresh db
      → Move db db'
      → (profile : VpnProfile) → Approved db profile
      → Approved db' profile
  step-Approved db db' fresh move profile a = record {
    action = a.action;
    found =
        step-keeps db db' fresh move profile.pending_action_id a.action a.found
          (ap is_pending a.executed);
    executed = a.executed;
    requester = a.requester;
    approver = a.approver;
    apart = a.apart;
  }

  All-step :
      (db db' : Db H)
      → Fresh db
      → Move db db'
      → (profiles : List VpnProfile) → All (Approved db) profiles
      → All (Approved db') profiles
  All-step db db' fresh move [] h = tt
  All-step db db' fresh move (p ∷ ps) h =
      (step-Approved db db' fresh move p h.0, All-step db db' fresh move ps h.1)

  step-profiles :
      (db db' : Db H)
      → Fresh db
      → (move : Move db db') → All (Approved db') db.vpn_profiles
      → All (Approved db') db'.vpn_profiles
  step-profiles db db' fresh (idle actions profiles more) kept =
      subst (All (Approved db')) (sym profiles) kept
  step-profiles db db' fresh (propose row id open_ actions profiles more) kept =
      subst (All (Approved db')) (sym profiles) kept
  step-profiles db db' fresh (settle row row' at open_ same ends actions profiles more) kept =
      subst (All (Approved db')) (sym profiles) kept
  step-profiles db db' fresh
        (execute row row' a at open_ same rid ex ap_ apart actions (inl profiles) more) kept =
      subst (All (Approved db')) (sym profiles) kept
  step-profiles db db' fresh
        (execute row row' a at open_ same rid ex ap_ apart actions
          (inr (profile, profiles, by, approver, id))
          more)
        kept =
      subst (All (Approved db')) (sym profiles) (
        record {
          action = row';
          found =
              rw (id, actions, lookup-replace row.id row row' db.pending_actions at same)
                (ground arith);
          executed = ex;
          requester = rid ∙ sym by;
          approver = rw approver ap_;
          apart = rw (approver, by) apart;
        },
        kept,
      )

  step-Sound : (db db' : Db H) → Sound db → Move db db' → Sound db'
  step-Sound db db' (fresh, approved) move = (
    step-Fresh db db' fresh move,
    step-profiles db db' fresh move (All-step db db' fresh move db.vpn_profiles approved),
  )

-- Whatever the requests and decisions, in whatever order, with time passing and employees' rows
-- changing in between: in a database that starts sound, each VPN profile has an executed action
-- behind it, whose requester the profile was made for and whose approver, as both record, is
-- another person; and the ids of actions stay fresh.
pub run-Sound :
    {H : Type 0} (hashing : Hashing H) (ext : Externals) (db : Db H) (events : List Event)
    → Sound db
    → Sound (run hashing ext db events)
unfolding run
run-Sound hashing ext db [] sound = sound
run-Sound hashing ext db (e ∷ events) sound =
    run-Sound hashing ext (step hashing ext db e) events
      (step-Sound db (step hashing ext db e) sound (step-Move hashing ext db e))

-- An action that was decided, in whichever way, is found unchanged after every sequence of events,
-- where the ids of the actions are fresh at its start: it is never executed again, and no second
-- decision replaces the first.
pub decided_stays :
    {H : Type 0} (hashing : Hashing H) (ext : Externals) (db : Db H) (events : List Event) (k : ℕ)
    (p : PendingAction)
    → Fresh db
    → find_pending k db.pending_actions ≡ some p
    → is_pending p.status ≡ false
    → find_pending k (run hashing ext db events).pending_actions ≡ some p
unfolding run
decided_stays hashing ext db [] k p fresh found closed = found
decided_stays hashing ext db (e ∷ events) k p fresh found closed =
    let move = step-Move hashing ext db e in
    let next = step hashing ext db e in
    decided_stays hashing ext next events k p (step-Fresh db next fresh move)
      (step-keeps db next fresh move k p found closed) closed
