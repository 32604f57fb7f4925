-- ===== src/Knowledge/Chunking/Packing.antt =====
-- What `pack_units` of src/opsassist/knowledge/chunking.py makes of a sequence of units.
use novax_ai_assignment.Base.{
  ℕ, String, ◌≡◌, refl, ap, ap₂, ◌∙◌, ◌⊎◌, inl, inr, true, false, not, ◌||◌, List, [], ◌∷◌, ◌++◌,
  All, All-append, Bool-cases, ◌==◌, eq_iff,
}
use novax_ai_assignment.Knowledge.Chunking.{
  TextUnit, same_path, last_unit, too_big, pack_from, pack_units,
}

abbrev pub concat {ℓ} : {A : Type ℓ} → List (List A) → List A
concat [] = []
concat (xs ∷ xss) = xs ++ concat xss

append_assoc {ℓ} : {A : Type ℓ} (xs ys zs : List A) → (xs ++ ys) ++ zs ≡ xs ++ (ys ++ zs)
append_assoc [] ys zs = refl
append_assoc (x ∷ xs) ys zs = ap (λ t. x ∷ t) (append_assoc xs ys zs)

append-nil {ℓ} : {A : Type ℓ} (xs : List A) → xs ++ [] ≡ xs
append-nil [] = refl
append-nil (x ∷ xs) = ap (λ t. x ∷ t) (append-nil xs)

-- A group of units: not empty, of one section, and within the limit unless it is one unit.
pub record Group (limit : ℕ) (first : TextUnit) (rest : List TextUnit) : Type 0 where
  pub one_section : All (λ (u : TextUnit). u.headings ≡ first.headings) rest
  pub fits : (rest ≡ []) ⊎ (too_big limit (first ∷ rest) ≡ false)

abbrev pub IsGroup : ℕ → List TextUnit → Type 0
IsGroup limit [] = ⊥
IsGroup limit (u ∷ us) = Group limit u us

same_path-eq : (xs ys : List String) → same_path xs ys ≡ true → xs ≡ ys
same_path-eq [] [] h = refl
same_path-eq [] (y ∷ ys) h = cc
same_path-eq (x ∷ xs) [] h = cc
same_path-eq (x ∷ xs) (y ∷ ys) h = elim (Bool-cases (x == y)) [
  | inl same ↦ ap₂ (λ a b. a ∷ b) ((eq_iff x y).0 same) (same_path-eq xs ys (rw same at h))
  | inr other ↦ cc (rw other at h)
]

last_unit-All :
    (P : TextUnit → Type 0) (u : TextUnit) (us : List TextUnit)
    → P u
    → All P us
    → P (last_unit u us)
last_unit-All P u [] hu hus = hu
last_unit-All P u (v ∷ us) hu hus = last_unit-All P v us hus.0 hus.1

single : (limit : ℕ) (u : TextUnit) → Group limit u []
single limit u = record { one_section = tt; fits = inl refl }

-- a unit of the same section, with which the group still fits
grow :
    (limit : ℕ) (c u : TextUnit) (current : List TextUnit)
    → Group limit c current
    → same_path u.headings (last_unit c current).headings ≡ true
    → too_big limit (c ∷ current ++ (u ∷ [])) ≡ false
    → Group limit c (current ++ (u ∷ []))
grow limit c u current g same fits = record {
  one_section =
      All-append (λ (v : TextUnit). v.headings ≡ c.headings) current (u ∷ []) g.one_section
        (
          same_path-eq _ _ same
              ∙ last_unit-All (λ (v : TextUnit). v.headings ≡ c.headings) c current refl
                  g.one_section,
          tt,
        );
  fits = inr fits;
}

module _ (limit : ℕ) where
  pack_from-concat :
      (current units : List TextUnit) → concat (pack_from limit current units) ≡ current ++ units
  unfolding pack_from
  pack_from-concat [] [] = refl
  pack_from-concat (c ∷ current) [] = refl
  pack_from-concat [] (u ∷ units) = pack_from-concat (u ∷ []) units
  pack_from-concat (c ∷ current) (u ∷ units) =
      elim (Bool-cases (
        not (same_path u.headings (last_unit c current).headings)
        || too_big limit (c ∷ current ++ (u ∷ [])))) [
          | inl cut ↦ rw cut (ap (λ t. c ∷ current ++ t) (pack_from-concat (u ∷ []) units))
          | inr grows ↦ rw grows (
              pack_from-concat (c ∷ current ++ (u ∷ [])) units
              ∙ ap (λ t. c ∷ t) (append_assoc current (u ∷ []) units))
        ]

  pack_from-Groups :
      (c : TextUnit) (current units : List TextUnit)
      → Group limit c current
      → All (IsGroup limit) (pack_from limit (c ∷ current) units)
  unfolding pack_from
  pack_from-Groups c current [] g = (g, tt)
  pack_from-Groups c current (u ∷ units) g =
      elim (Bool-cases (same_path u.headings (last_unit c current).headings)) [
        | inr other ↦ rw other (g, pack_from-Groups u [] units (single limit u))
        | inl same ↦ elim (Bool-cases (too_big limit (c ∷ current ++ (u ∷ [])))) [
          | inl big ↦ rw (same, big) (g, pack_from-Groups u [] units (single limit u))
          | inr fits ↦
              rw (same, fits)
                (pack_from-Groups c (current ++ (u ∷ [])) units
                  (grow limit c u current g same fits))
        ]
      ]

  -- Packing loses no unit, doubles none and keeps their order, and each group is of one section and
  -- within the limit, unless it is a single unit.
  pub pack_units-IsPacking :
      (units : List TextUnit)
      → (concat (pack_units units limit) ≡ units) × All (IsGroup limit) (pack_units units limit)
  unfolding pack_units
  pack_units-IsPacking units = (pack_from-concat [] units, groups units)
    where
      groups : (units : List TextUnit) → All (IsGroup limit) (pack_from limit [] units)
      groups [] = unfold pack_from in tt
      groups (u ∷ units) = unfold pack_from in pack_from-Groups u [] units (single limit u)
