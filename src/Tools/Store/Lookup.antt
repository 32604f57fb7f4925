-- ===== src/Tools/Store/Lookup.antt =====
-- The table of pending actions: what a lookup finds after an insertion or an update.
use novax_ai_assignment.Base.{
  ℕ, String, ◌≡◌, some, List, [], ◌∷◌, arith, eqb, eq_refl, if◌then◌else◌,
}
use novax_ai_assignment.Tools.Store.{
  PendingAction, VpnProfile, find_pending, replace_pending, approve_profile,
}

pub find_pending-id :
    (id : ℕ) (ps : List PendingAction) (p : PendingAction) → find_pending id ps ≡ some p → p.id ≡ id
unfolding find_pending
find_pending-id id [] p h = cc
find_pending-id id (q ∷ ps) p h = ground (arith, find_pending-id id ps p)

-- An update of a row that is there is found, and no other row changes.
pub find_pending-replace_pending :
    (id : ℕ) (q p : PendingAction) (ps : List PendingAction)
    → find_pending q.id ps ≡ some p
    → find_pending id (replace_pending q ps) ≡ (if eqb q.id id then some q else find_pending id ps)
unfolding find_pending replace_pending
find_pending-replace_pending id q p [] h = cc
find_pending-replace_pending id q p (r ∷ ps) h =
    ground (arith, find_pending-replace_pending id q p ps)

pub approve_profile-first :
    (p : VpnProfile) (approver : String) (action : ℕ) (ps : List VpnProfile)
    → approve_profile p.id approver action (p ∷ ps)
      ≡ record p { approved_by = approver; pending_action_id = action } ∷ ps
unfolding approve_profile
approve_profile-first p approver action ps = rw (eq_refl p.id)
