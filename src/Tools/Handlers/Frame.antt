-- ===== src/Tools/Handlers/Frame.antt =====
-- What the handlers of the tools change in the database.
use novax_ai_assignment.Base.{
  ℕ, ◌+◌, ◌≤◌, String, ◌≡◌, ◌≢◌, refl, ◌⊎◌, inl, inr, Option, ◌∷◌, arith, Bool-cases, Option-cases,
  Result, ok, err, ◌>>=◌, ◌*◌,
}
use novax_ai_assignment.Policy.Redact.{Value, Fields, obj, text, num, field, end}
use novax_ai_assignment.Policy.Auth.{Principal}
use novax_ai_assignment.Tools.Registry.{
  Tool, ToolArgs, search_args, server_args, ticket_args, ticket_id_args, vpn_args,
}
use novax_ai_assignment.Tools.Store.{Db, VpnProfile}
use novax_ai_assignment.Tools.Handlers
use novax_ai_assignment.Tools.Handlers.{
  Externals, Failure, handle, create_vpn_profile, create_support_ticket, get_support_ticket,
}

-- A handler leaves alone what the executor decides by.
pub record Leaves {H : Type 0} (db db' : Db H) : Type 0 where
  pub now : db'.now ≡ db.now
  pub users : db'.users ≡ db.users
  pub pending_actions : db'.pending_actions ≡ db.pending_actions
  pub audit_log : db'.audit_log ≡ db.audit_log
  pub next_uuid : db.next_uuid ≤ db'.next_uuid

pub Leaves-refl : {H : Type 0} (db : Db H) → Leaves db db
Leaves-refl db = record {
  now = refl;
  users = refl;
  pending_actions = refl;
  audit_log = refl;
  next_uuid = omega arith;
}

module _ {H : Type 0} (ext : Externals) (db : Db H) (p : Principal) where
  -- A profile made for `p`, first in its table, and named by the result.
  pub record MakesProfile (v : Value) (db' : Db H) : Type 0 where
    pub profile : VpnProfile
    pub rest : Fields
    pub first : db'.vpn_profiles ≡ profile ∷ db.vpn_profiles
    pub shape : v ≡ obj (field "profile_id" (text profile.id) rest)
    pub requested_by : profile.requested_by ≡ p.user_id
    pub leaves : Leaves db db'

  abbrev pub OnOk : (Value → Db H → Type 0) → Result Failure (Value × Db H) → Type 0
  OnOk P (ok (v, db')) = P v db'
  OnOk P (err e) = Unit

  -- Only the VPN tool touches the profiles.
  abbrev pub Unchanged : Value → Db H → Type 0
  Unchanged v db' = Leaves db db' × (db'.vpn_profiles ≡ db.vpn_profiles)

  create_support_ticket-Unchanged :
      (title severity details : String) (request : Option String)
      → Unchanged
          (create_support_ticket ext db p title severity details request).0
          (create_support_ticket ext db p title severity details request).1
  unfolding create_support_ticket
  create_support_ticket-Unchanged title severity details request = (
    record {
      now = ground arith;
      users = ground arith;
      pending_actions = ground arith;
      audit_log = ground arith;
      next_uuid = ground arith;
    },
    ground arith,
  )

  get_support_ticket-Unchanged : (id : String) → OnOk Unchanged (get_support_ticket ext db p id)
  unfolding get_support_ticket
  get_support_ticket-Unchanged id = elim (Option-cases (Handlers.find_ticket id db.tickets)) [
    | inl missing ↦ rw missing tt
    | inr (t, found) ↦ elim (Bool-cases (Handlers.may_read_ticket ext db p t)) [
      | inl may ↦ rw (found, may) (Leaves-refl db, refl)
      | inr may_not ↦ rw (found, may_not) tt
    ]
  ]

  pub handle-Unchanged :
      (request : Option String) (tool : Tool) (args : ToolArgs)
      → tool ≢ Tool.create_vpn_profile
      → OnOk Unchanged (handle ext db p request tool args)
  unfolding handle
  handle-Unchanged request Tool.search_internal_docs (search_args query department) h =
      elim (Option-cases (ext.search (Handlers.scope_for p) query)) [
        | inl failed ↦ rw failed tt
        | inr (chunks, found) ↦ rw found (Leaves-refl db, refl)
      ]
  handle-Unchanged request Tool.get_server_status (server_args id) h =
      elim (Option-cases (Handlers.find_server id db.servers)) [
        | inl missing ↦ rw missing tt
        | inr (s, found) ↦ rw found (Leaves-refl db, refl)
      ]
  handle-Unchanged request Tool.create_support_ticket (ticket_args title severity details) h =
      create_support_ticket-Unchanged title severity details request
  handle-Unchanged request Tool.get_support_ticket (ticket_id_args id) h =
      get_support_ticket-Unchanged id
  handle-Unchanged request Tool.create_vpn_profile args h = absurd (h refl)
  handle-Unchanged request _ _ h = tt

  create_vpn_profile-Makes :
      (id name : Option String) (days : ℕ)
      → OnOk MakesProfile (create_vpn_profile ext db p id name days)
  unfolding create_vpn_profile
  create_vpn_profile-Makes id name days = go (Handlers.resolve_employee ext db id name)
    where
      go :
          (r : Result Failure Handlers.User)
          → OnOk MakesProfile
              (r >>= λ u. ok (Handlers.add_profile ext db (Handlers.new_profile ext db p days u)))
      go (err e) = tt
      go (ok u) = record {
        profile = Handlers.new_profile ext db p days u;
        rest =
            field "employee_id" (text u.id)
              (field "expires_at" (num (db.now + days * Handlers.day)) end);
        first = refl;
        shape = refl;
        requested_by = refl;
        leaves = record {
          now = refl;
          users = refl;
          pending_actions = refl;
          audit_log = refl;
          next_uuid = omega arith;
        };
      }

  -- A successful run of a tool either leaves the profiles alone, or is the VPN tool's and makes one.
  abbrev pub Effects : Tool → Value → Db H → Type 0
  Effects tool v db' =
      ((tool ≢ Tool.create_vpn_profile) × Unchanged v db')
      ⊎ ((tool ≡ Tool.create_vpn_profile) × MakesProfile v db')

  OnOk-map :
      (P Q : Value → Db H → Type 0)
      → ((v : Value) (db' : Db H) → P v db' → Q v db')
      → (r : Result Failure (Value × Db H)) → OnOk P r
      → OnOk Q r
  OnOk-map P Q f (ok (v, db')) h = f v db' h
  OnOk-map P Q f (err e) h = tt

  pub handle-Effects :
      (request : Option String) (tool : Tool) (args : ToolArgs)
      → OnOk (Effects tool) (handle ext db p request tool args)
  handle-Effects request Tool.create_vpn_profile (vpn_args id name days) =
      OnOk-map MakesProfile (Effects Tool.create_vpn_profile) (λ v db' m. inr (refl, m)) _
        (unfold handle in create_vpn_profile-Makes id name days)
  handle-Effects request Tool.create_vpn_profile args = unfold handle in tt
  handle-Effects request tool args =
      OnOk-map Unchanged (Effects tool) (λ v db' u. inl ((λ e. cc), u)) _
        (handle-Unchanged request tool args (λ e. cc))
