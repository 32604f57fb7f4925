-- ===== src/Policy/Auth/Laws.antt =====
-- What an accepted request's principal is: the database's user, not the token's.
use novax_ai_assignment.Base.{
  String, ◌≡◌, ◌↔◌, refl, sym, ap, ◌∙◌, inl, inr, true, Option, none, some, List, [], ◌∷◌, eq_iff,
  arith, Option-cases, ok,
}
use novax_ai_assignment.Policy.Auth.{
  User, Principal, TokenClaims, Credentials, find_user, load_principal, get_principal,
}

-- A principal that reads off a user.
pub record IsOf (u : User) (p : Principal) : Type 0 where
  pub active : u.is_active ≡ true
  pub same_id : p.user_id ≡ u.id
  pub same_name : p.name ≡ u.name
  pub same_department : p.department ≡ u.department
  pub same_role : p.role ≡ u.role
  pub same_permissions : p.permissions ≡ u.permissions

pub find_user-id :
    (id : String) (users : List User) (u : User) → find_user id users ≡ some u → u.id ≡ id
unfolding find_user
find_user-id id [] u h = cc
find_user-id id (v ∷ users) u h = ground (arith, find_user-id id users u, eq_iff v.id id)

pub load_principal-IsOf :
    (users : List User) (id : String) (p : Principal)
    → load_principal users id ≡ some p
    → (u : User) × (find_user id users ≡ some u) × IsOf u p
unfolding load_principal
load_principal-IsOf users id p h = elim (Option-cases (find_user id users)) [
  | inl missing ↦ cc (rw (missing, load_principal) at h)
  | inr (u, found) ↦ (
    u,
    found,
    record {
      active = ground (arith, found, h);
      same_id = ground (arith, found, h);
      same_name = ground (arith, found, h);
      same_department = ground (arith, found, h);
      same_role = ground (arith, found, h);
      same_permissions = ground (arith, found, h);
    },
  )
]

-- A principal that reads off an active user is what is loaded of that user.
pub IsOf-load_principal :
    (users : List User) (id : String) (u : User) (p : Principal)
    → find_user id users ≡ some u
    → IsOf u p
    → load_principal users id ≡ some p
unfolding load_principal
IsOf-load_principal users id u p found of_ =
    rw (found, of_.active)
      (ap some (
        sym (λ i. record {
          user_id = of_.same_id i;
          name = of_.same_name i;
          department = of_.same_department i;
          role = of_.same_role i;
          permissions = of_.same_permissions i;
        })))

-- What an accepted request has, and who its principal is.
pub record Accepted (decode : String → Option TokenClaims) (lower : String → String)
    (users : List User) (credentials : Option Credentials) (p : Principal) : Type 0 where
  pub sent : Credentials
  pub claims : TokenClaims
  pub user : User
  pub has_credentials : credentials ≡ some sent
  pub is_bearer : lower sent.scheme ≡ "bearer"
  pub verifies : decode sent.credentials ≡ some claims
  pub is_known : find_user claims.user_id users ≡ some user
  pub same_role : user.role ≡ claims.role
  pub of_user : IsOf user p

get_principal-Accepted :
    (decode : String → Option TokenClaims) (lower : String → String) (users : List User)
    (credentials : Option Credentials) (p : Principal)
    → get_principal decode lower users credentials ≡ ok p
    → Accepted decode lower users credentials p
unfolding get_principal
get_principal-Accepted decode lower users none p h = cc
get_principal-Accepted decode lower users (some c) p h =
    elim (Option-cases (decode c.credentials)) [
      | inl invalid ↦ absurd (ground (arith, invalid, h))
      | inr (claims, valid) ↦ elim (Option-cases (load_principal users claims.user_id)) [
        | inl unknown ↦ absurd (ground (arith, valid, unknown, h))
        | inr (q, loaded) ↦
            let same : q ≡ p = ground (arith, valid, loaded, h) in
            let (u, found, of_) =
              load_principal-IsOf users claims.user_id p (loaded ∙ ap some same) in
            let role : q.role ≡ claims.role =
              ground (arith, valid, loaded, h, eq_iff q.role claims.role) in
            record {
              sent = c;
              claims = claims;
              user = u;
              has_credentials = refl;
              is_bearer = ground (arith, h, eq_iff (lower c.scheme) "bearer");
              verifies = valid;
              is_known = found;
              same_role = sym of_.same_role ∙ ap (λ x. x.role) (sym same) ∙ role;
              of_user = of_;
            }
      ]
    ]

Accepted-get_principal :
    (decode : String → Option TokenClaims) (lower : String → String) (users : List User)
    (credentials : Option Credentials) (p : Principal)
    → Accepted decode lower users credentials p
    → get_principal decode lower users credentials ≡ ok p
unfolding get_principal
Accepted-get_principal decode lower users credentials p a =
    rw
      (
        a.has_credentials,
        (eq_iff (lower a.sent.scheme) "bearer").1 a.is_bearer,
        a.verifies,
        IsOf-load_principal users a.claims.user_id a.user p a.is_known a.of_user,
        (eq_iff p.role a.claims.role).1 (a.of_user.same_role ∙ a.same_role),
      )
      refl

-- A request is accepted exactly when it has credentials of the bearer scheme whose token verifies and
-- names an active user of the database whose role is still the token's; and its principal is exactly
-- that user of the database, with the database's name, department, role and permissions.
pub get_principal-iff-Accepted :
    (decode : String → Option TokenClaims) (lower : String → String) (users : List User)
    (credentials : Option Credentials) (p : Principal)
    → (get_principal decode lower users credentials ≡ ok p)
      ↔ Accepted decode lower users credentials p
get_principal-iff-Accepted decode lower users credentials p = (
  get_principal-Accepted decode lower users credentials p,
  Accepted-get_principal decode lower users credentials p,
)
