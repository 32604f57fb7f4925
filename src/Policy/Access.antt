-- ===== src/Policy/Access.antt =====
-- src/opsassist/policy/access.py: which documents a principal may read.
pub mod Laws
use novax_ai_assignment.Base.{
  String, Bool, true, false, List, [], ◌∷◌, ◌==◌, contains, keep, join, if◌then◌else◌,
}
use novax_ai_assignment.Policy.Auth.{Principal, has}

-- `DOC_PERMISSION_DEPARTMENTS`
unfoldable pub doc_permission_departments : List (String × String)
doc_permission_departments =
    ("docs:engineering", "engineering")
    ∷ ("docs:hr", "hr")
    ∷ ("docs:it", "it_ops")
    ∷ ("docs:finance", "finance")
    ∷ ("docs:ai_platform", "ai_platform")
    ∷ []

pub record AccessScope : Type 0 where
  pub user_id : String
  pub internal_departments : List String
  pub confidential_departments : List String

unfoldable pub can_read : AccessScope → String → String → Bool
can_read scope department classification =
    if classification == "public"
    then true
    else if classification == "internal"
    then contains scope.internal_departments department
    else if classification == "confidential"
    then contains scope.confidential_departments department
    else false

-- `{dept for perm, dept in table if principal.has(perm)}`
unfoldable pub departments_of : Principal → List (String × String) → List String
departments_of p [] = []
departments_of p ((permission, department) ∷ rows) =
    let rest = departments_of p rows in if has p permission then department ∷ rest else rest

unfoldable pub scope_for : Principal → AccessScope
unfolding departments_of doc_permission_departments
scope_for p =
    let internal = departments_of p doc_permission_departments in
    record {
      user_id = p.user_id;
      internal_departments = internal;
      confidential_departments = keep (λ d. has p (join d ":confidential")) internal;
    }
