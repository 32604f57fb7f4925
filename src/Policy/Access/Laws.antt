-- ===== src/Policy/Access/Laws.antt =====
-- The scope against the permissions that it comes from.
use novax_ai_assignment.Base.{
  String, ◌≡◌, refl, ap, ◌∙◌, inl, inr, Bool, true, false, ◌&&◌, ◌||◌, List, [], ◌∷◌, ◌==◌, eq_iff,
  arith, any, keep, contains, join, Bool-cases, if◌then◌else◌,
}
use novax_ai_assignment.Policy.Auth.{Principal, has}
use novax_ai_assignment.Policy.Access.{
  doc_permission_departments, can_read, departments_of, scope_for,
}

-- The principal holds a permission of the table that stands for the department.
abbrev pub reads_department : Principal → String → List (String × String) → Bool
reads_department p d rows = any (λ r. has p (r.0) && (r.1 == d)) rows

contains-departments_of :
    (p : Principal) (d : String) (rows : List (String × String))
    → contains (departments_of p rows) d ≡ reads_department p d rows
unfolding departments_of
contains-departments_of p d [] = refl
contains-departments_of p d ((permission, department) ∷ rows) =
    ground (arith, contains-departments_of p d rows)

contains-keep :
    (q : String → Bool) (d : String) (xs : List String)
    → contains (keep q xs) d ≡ (q d && contains xs d)
contains-keep q d [] = ground arith
contains-keep q d (x ∷ xs) = elim (Bool-cases (x == d)) [
  | inl same ↦ rw ((eq_iff x d).0 same) (ground (arith, contains-keep q d xs, eq_iff d d))
  | inr other ↦ ground (arith, contains-keep q d xs, other)
]

-- What the permissions say, with no scope in between.
unfoldable pub permits : Principal → String → String → Bool
permits p department classification =
    let reads = reads_department p department doc_permission_departments in
    (classification == "public")
    || ((classification == "internal") && reads)
    || ((classification == "confidential") && (has p (join department ":confidential") && reads))

internal-scope_for :
    (p : Principal) (d : String)
    → contains (scope_for p).internal_departments d
      ≡ reads_department p d doc_permission_departments
unfolding scope_for
internal-scope_for p d = contains-departments_of p d doc_permission_departments

confidential-scope_for :
    (p : Principal) (d : String)
    → contains (scope_for p).confidential_departments d
      ≡ (has p (join d ":confidential") && reads_department p d doc_permission_departments)
unfolding scope_for
confidential-scope_for p d =
    contains-keep (λ x. has p (join x ":confidential")) d
      (departments_of p doc_permission_departments)
    ∙ ap (λ b. has p (join d ":confidential") && b)
        (contains-departments_of p d doc_permission_departments)

-- Which of the three names a classification is, at most.
can_read_cases :
    (a b c i k r s : Bool)
    → i ≡ r
    → k ≡ s
    → (a ≡ true → b ≡ false)
    → (a ≡ true → c ≡ false)
    → (b ≡ true → c ≡ false)
    → (if a then true else if b then i else if c then k else false) ≡ (a || (b && r) || (c && s))
can_read_cases a b c i k r s e f g h j = ground arith

distinct_names : (x s t : String) → (s == t) ≡ false → (x == s) ≡ true → (x == t) ≡ false
distinct_names x s t apart h = ground (arith, eq_iff x s, eq_iff x t, eq_iff s t)

-- A principal may read a document exactly when it is public, or internal and the principal holds a
-- `docs:` permission of its department, or confidential and the principal also holds the department's
-- `:confidential` permission. Any other classification is denied.
pub can_read-scope_for :
    (p : Principal) (department classification : String)
    → can_read (scope_for p) department classification ≡ permits p department classification
unfolding can_read permits
can_read-scope_for p department classification =
    can_read_cases (classification == "public") (classification == "internal")
      (classification == "confidential") _ _ _ _ (internal-scope_for p department)
      (confidential-scope_for p department) (distinct_names classification "public" "internal" refl)
      (distinct_names classification "public" "confidential" refl)
      (distinct_names classification "internal" "confidential" refl)
