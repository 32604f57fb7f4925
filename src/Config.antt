-- ===== src/Config.antt =====
-- src/opsassist/config.py: the order of classifications and the rule on egress.
use novax_ai_assignment.Base.{
  ℕ, String, Bool, true, Option, none, some, List, [], ◌∷◌, ◌==◌, leb, ltb, if◌then◌else◌,
}

-- `_RANK.get(classification, 2)`
unfoldable pub rank : String → ℕ
rank c = if c == "public" then 0 else if c == "internal" then 1 else 2

-- `max(present, key=rank)`, the first of the highest.
unfoldable pub highest : String → List String → String
unfolding rank
highest c [] = c
highest c (d ∷ ds) = highest (if ltb (rank c) (rank d) then d else c) ds

-- `most_sensitive` of two classifications.
unfoldable pub most_sensitive : Option String → Option String → Option String
unfolding highest
most_sensitive none none = none
most_sensitive (some c) none = some c
most_sensitive none (some d) = some d
most_sensitive (some c) (some d) = some (highest c (d ∷ []))

-- `allows_egress`, for the setting `egress_max_classification`.
unfoldable pub allows_egress : String → Option String → Bool
unfolding rank
allows_egress limit none = true
allows_egress limit (some c) = leb (rank c) (rank limit)
