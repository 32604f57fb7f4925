-- ===== src/Policy/Tests.antt =====
-- An employee of engineering with a token, and the theorems on redaction, identity and access at them.
use novax_ai_assignment.Base.{
  String, ◌≡◌, ◌↔◌, refl, true, Option, none, some, [], ◌∷◌, ok, ◌==◌, if◌then◌else◌,
}
use novax_ai_assignment.Policy.Auth
use novax_ai_assignment.Policy.Auth.{
  User, Principal, TokenClaims, Credentials, find_user, get_principal,
}
use novax_ai_assignment.Policy.Auth.Laws.{Accepted, get_principal-iff-Accepted}
use novax_ai_assignment.Policy.Access.{can_read, scope_for}
use novax_ai_assignment.Policy.Access.Laws.{permits, can_read-scope_for}

abbrev ada : User
ada = record {
  id = "u1";
  name = "Ada";
  department = "engineering";
  role = "engineer";
  permissions = "docs:engineering" ∷ "docs:engineering:confidential" ∷ [];
  is_active = true;
}

abbrev principal : Principal
principal = record {
  user_id = "u1";
  name = "Ada";
  department = "engineering";
  role = "engineer";
  permissions = "docs:engineering" ∷ "docs:engineering:confidential" ∷ [];
}

abbrev claims_of : String → Option TokenClaims
claims_of s = if s == "token" then some (record { user_id = "u1"; role = "engineer" }) else none

abbrev credentials : Credentials
credentials = record { scheme = "bearer"; credentials = "token" }

get_principal-iff-Accepted_example :
    (get_principal claims_of (λ s. s) (ada ∷ []) (some credentials) ≡ ok principal)
    ↔ Accepted claims_of (λ s. s) (ada ∷ []) (some credentials) principal
get_principal-iff-Accepted_example =
    get_principal-iff-Accepted claims_of (λ s. s) (ada ∷ []) (some credentials) principal

accepted : get_principal claims_of (λ s. s) (ada ∷ []) (some credentials) ≡ ok principal
unfolding get_principal Auth.load_principal Auth.find_user
accepted = refl

can_read-scope_for_example :
    can_read (scope_for principal) "engineering" "confidential"
    ≡ permits principal "engineering" "confidential"
can_read-scope_for_example = can_read-scope_for principal "engineering" "confidential"
