-- ===== src/Policy/Auth.antt =====
-- src/opsassist/auth.py: the principal of a request. `decode` stands for `jwt.decode` with the
-- application's secret, algorithm, audience and issuer, and `none` for its `InvalidTokenError`.
pub mod Laws
use novax_ai_assignment.Base.{
  ℕ, String, ◌≡◌, Bool, true, false, not, ◌||◌, Option, none, some, List, [], ◌∷◌, ◌==◌, contains,
  Result, ok, err, if◌then◌else◌,
}

pub record User : Type 0 where
  pub id : String
  pub name : String
  pub department : String
  pub role : String
  pub permissions : List String
  pub is_active : Bool

pub record Principal : Type 0 where
  pub user_id : String
  pub name : String
  pub department : String
  pub role : String
  pub permissions : List String

-- `Principal.has`
unfoldable pub has : Principal → String → Bool
has p permission = contains p.permissions permission

pub record TokenClaims : Type 0 where
  pub user_id : String
  pub role : String

pub record Credentials : Type 0 where
  pub scheme : String
  pub credentials : String

-- The two details of the 401 answer.
pub data Unauthorized : Type 0 where
  invalid_credentials role_changed : Unauthorized

-- `session.get(User, user_id)`
unfoldable pub find_user : String → List User → Option User
find_user user_id [] = none
find_user user_id (u ∷ users) = if u.id == user_id then some u else find_user user_id users

active_principal : Option User → Option Principal
active_principal none = none
active_principal (some u) =
    if not u.is_active
    then none
    else some (record {
      user_id = u.id;
      name = u.name;
      department = u.department;
      role = u.role;
      permissions = u.permissions;
    })

-- `load_principal`, and `principal_of` of the tools.
unfoldable pub load_principal : List User → String → Option Principal
unfolding active_principal
load_principal users user_id = active_principal (find_user user_id users)

check_role : TokenClaims → Option Principal → Result Unauthorized Principal
check_role claims none = err Unauthorized.invalid_credentials
check_role claims (some p) =
    if not (p.role == claims.role) then err Unauthorized.role_changed else ok p

check_claims : List User → Option TokenClaims → Result Unauthorized Principal
unfolding check_role
check_claims users none = err Unauthorized.invalid_credentials
check_claims users (some claims) = check_role claims (load_principal users claims.user_id)

-- `get_principal`; `lower` is Python's.
unfoldable pub get_principal :
    (String → Option TokenClaims)
    → (String → String)
    → List User
    → Option Credentials
    → Result Unauthorized Principal
unfolding check_claims
get_principal decode lower users none = err Unauthorized.invalid_credentials
get_principal decode lower users (some c) =
    if not (lower c.scheme == "bearer")
    then err Unauthorized.invalid_credentials
    else check_claims users (decode c.credentials)
