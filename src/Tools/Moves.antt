-- ===== src/Tools/Moves.antt =====
-- The executor as an abstract machine over the pending actions and the VPN profiles: each call makes
-- one of four moves.
pub mod Runs
pub mod Calls
use novax_ai_assignment.Base.{
  ℕ, ◌+◌, ◌≤◌, String, ◌≡◌, ◌≢◌, ◌⊎◌, Bool, true, false, Option, none, some, List, [], ◌∷◌,
}
use novax_ai_assignment.Tools.Store.{
  Db, PendingAction, PendingStatus, VpnProfile, find_pending, replace_pending,
}

-- A status that ends an action without its effect.
abbrev pub ends_without_effect : PendingStatus → Bool
ends_without_effect PendingStatus.rejected = true
ends_without_effect PendingStatus.failed = true
ends_without_effect PendingStatus.expired = true
ends_without_effect _ = false

-- The profiles after an execution: as they were, or with one more, which the approver has approved for
-- the requester.
abbrev pub ProfilesAfter : List VpnProfile → List VpnProfile → PendingAction → String → Type 0
ProfilesAfter before after row approver =
    (after ≡ before)
    ⊎ ((profile : VpnProfile) × (after ≡ profile ∷ before)
        × (profile.requested_by ≡ row.requester_id)
        × (profile.approved_by ≡ approver)
        × (profile.pending_action_id ≡ row.id))

pub data Move {H : Type 0} (db db' : Db H) : Type 0 where
  idle :
      db'.pending_actions ≡ db.pending_actions
      → db'.vpn_profiles ≡ db.vpn_profiles
      → db.next_uuid ≤ db'.next_uuid
      → Move db db'
  propose :
      (row : PendingAction)
      → row.id ≡ db.next_uuid
      → row.status ≡ PendingStatus.pending
      → db'.pending_actions ≡ row ∷ db.pending_actions
      → db'.vpn_profiles ≡ db.vpn_profiles
      → db.next_uuid + 1 ≤ db'.next_uuid
      → Move db db'
  settle :
      (row row' : PendingAction)
      → find_pending row.id db.pending_actions ≡ some row
      → row.status ≡ PendingStatus.pending
      → row'.id ≡ row.id
      → ends_without_effect row'.status ≡ true
      → db'.pending_actions ≡ replace_pending row' db.pending_actions
      → db'.vpn_profiles ≡ db.vpn_profiles
      → db.next_uuid ≤ db'.next_uuid
      → Move db db'
  execute :
      (row row' : PendingAction) (approver : String)
      → find_pending row.id db.pending_actions ≡ some row
      → row.status ≡ PendingStatus.pending
      → row'.id ≡ row.id
      → row'.requester_id ≡ row.requester_id
      → row'.status ≡ PendingStatus.executed
      → row'.approver_id ≡ some approver
      → approver ≢ row.requester_id
      → db'.pending_actions ≡ replace_pending row' db.pending_actions
      → ProfilesAfter db.vpn_profiles db'.vpn_profiles row approver
      → db.next_uuid ≤ db'.next_uuid
      → Move db db'
