-- ===== src/Knowledge/Retrieval/Sections.antt =====
-- `_distinct_sections` of src/opsassist/knowledge/retrieval.py: the best match of each section, best first.
use novax_ai_assignment.Base.{
  ℕ, zero, suc, sym, subst, All-both, ◌≤◌, String, ◌≡◌, refl, Bool, true, false, ◌&&◌, Option, none,
  some, List, [], ◌∷◌, eqb, leb, ltb, any, take, All, All-imp, All-take, eq_refl, arith, ◌⊎◌, inl,
  inr, Bool-cases,
}
use novax_ai_assignment.Knowledge.Retrieval.{
  Table, same_table, same_index, same_locator, RetrievedChunk, insert, by_score, same_section,
  first_of_each, distinct_sections, no_misses,
}

-- What holds of all chunks holds of the distinct sections.
module _ (P : RetrievedChunk → Type 0) where
  insert-All :
      (x : RetrievedChunk) (ys : List RetrievedChunk) → P x → All P ys → All P (insert x ys)
  unfolding insert
  insert-All x [] h all = (h, tt)
  insert-All x (y ∷ ys) h all = elim (Bool-cases (ltb x.score y.score)) [
    | inl below ↦ rw below (all.0, insert-All x ys h all.1)
    | inr above ↦ rw above (h, all)
  ]

  by_score-All : (xs : List RetrievedChunk) → All P xs → All P (by_score xs)
  unfolding by_score
  by_score-All [] h = tt
  by_score-All (x ∷ xs) h = insert-All x (by_score xs) h.0 (by_score-All xs h.1)

  pub first_of_each-All : (seen xs : List RetrievedChunk) → All P xs → All P (first_of_each seen xs)
  unfolding first_of_each
  first_of_each-All seen [] h = tt
  first_of_each-All seen (x ∷ xs) h = elim (Bool-cases (any (same_section x) seen)) [
    | inl old ↦ rw old (first_of_each-All seen xs h.1)
    | inr new ↦ rw new (h.0, first_of_each-All (x ∷ seen) xs h.1)
  ]

  pub distinct_sections-All : (xs : List RetrievedChunk) → All P xs → All P (distinct_sections xs)
  unfolding distinct_sections
  distinct_sections-All xs h = first_of_each-All [] (by_score xs) (by_score-All xs h)

  pub no_misses-All :
      (sections near : List RetrievedChunk) → All P near → All P (no_misses sections near)
  no_misses-All [] near h = h
  no_misses-All (c ∷ sections) near h = tt

-- The best score comes first.
abbrev pub IsSorted : List RetrievedChunk → Type 0
IsSorted [] = Unit
IsSorted (x ∷ xs) = All (λ (y : RetrievedChunk). y.score ≤ x.score) xs × IsSorted xs

abbrev pub Distinct : List RetrievedChunk → Type 0
Distinct [] = Unit
Distinct (x ∷ xs) = All (λ y. same_section y x ≡ false) xs × Distinct xs

-- A chunk of the same section that scores as well stands in a list.
abbrev pub covers : List RetrievedChunk → RetrievedChunk → Bool
covers ys x = any (λ y. same_section x y && leb x.score y.score) ys

insert-IsSorted :
    (x : RetrievedChunk) (ys : List RetrievedChunk) → IsSorted ys → IsSorted (insert x ys)
unfolding insert
insert-IsSorted x [] h = (tt, tt)
insert-IsSorted x (y ∷ ys) h = elim (Bool-cases (ltb x.score y.score)) [
  | inl below ↦
      rw below
        (insert-All (λ z. z.score ≤ y.score) x ys (ground arith) h.0, insert-IsSorted x ys h.1)
  | inr above ↦ rw above (
    (
      ground arith,
      All-imp (λ z. z.score ≤ y.score) (λ z. z.score ≤ x.score) (λ z p. ground arith) ys h.0,
    ),
    h,
  )
]

by_score-IsSorted : (xs : List RetrievedChunk) → IsSorted (by_score xs)
unfolding by_score
by_score-IsSorted [] = tt
by_score-IsSorted (x ∷ xs) = insert-IsSorted x (by_score xs) (by_score-IsSorted xs)

module _ (P : RetrievedChunk → Type 0) where
  All-insert :
      (x : RetrievedChunk) (ys : List RetrievedChunk) → All P (insert x ys) → P x × All P ys
  unfolding insert
  All-insert x [] h = (h.0, tt)
  All-insert x (y ∷ ys) h = elim (Bool-cases (ltb x.score y.score)) [
    | inl below ↦
        let (hy, rest) : P y × All P (insert x ys) = rw below at h in
        let (hx, hys) = All-insert x ys rest in (hx, (hy, hys))
    | inr above ↦ rw above at h
  ]

  All-by_score : (xs : List RetrievedChunk) → All P (by_score xs) → All P xs
  unfolding by_score
  All-by_score [] h = tt
  All-by_score (x ∷ xs) h =
      let (hx, rest) = All-insert x (by_score xs) h in (hx, All-by_score xs rest)

same_table_refl : (t : Table) → same_table t t ≡ true
same_table_refl Table.chunks = refl
same_table_refl Table.confidential_chunks = refl

eqb_refl : (n : ℕ) → eqb n n ≡ true
eqb_refl n = ground arith

same_index_refl : (o : Option ℕ) → same_index o o ≡ true
same_index_refl none = refl
same_index_refl (some n) = eqb_refl n

same_locator_refl : (o : Option ℕ) (s : String) → same_locator o s s ≡ true
same_locator_refl none s = eq_refl s
same_locator_refl (some n) s = refl

same_section_refl : (x : RetrievedChunk) → same_section x x ≡ true
unfolding same_section
same_section_refl x =
    rw (same_table_refl x.table, eqb_refl x.parent_id.0, same_index_refl x.parent_id.1)
      (same_locator_refl x.parent_id.1 x.locator)

first_of_each-IsSorted :
    (seen xs : List RetrievedChunk) → IsSorted xs → IsSorted (first_of_each seen xs)
unfolding first_of_each
first_of_each-IsSorted seen [] h = tt
first_of_each-IsSorted seen (x ∷ xs) h = elim (Bool-cases (any (same_section x) seen)) [
  | inl old ↦ rw old (first_of_each-IsSorted seen xs h.1)
  | inr new ↦ rw new (
    first_of_each-All (λ y. y.score ≤ x.score) (x ∷ seen) xs h.0,
    first_of_each-IsSorted (x ∷ seen) xs h.1,
  )
]

first_of_each-fresh :
    (seen xs : List RetrievedChunk)
    → All (λ y. any (same_section y) seen ≡ false) (first_of_each seen xs)
unfolding first_of_each
first_of_each-fresh seen [] = tt
first_of_each-fresh seen (x ∷ xs) = elim (Bool-cases (any (same_section x) seen)) [
  | inl old ↦ rw old (first_of_each-fresh seen xs)
  | inr new ↦ rw new (
    new,
    All-imp (λ y. any (same_section y) (x ∷ seen) ≡ false) (λ y. any (same_section y) seen ≡ false)
        (λ y p. ground arith) (first_of_each (x ∷ seen) xs) (first_of_each-fresh (x ∷ seen) xs),
  )
]

first_of_each-Distinct : (seen xs : List RetrievedChunk) → Distinct (first_of_each seen xs)
unfolding first_of_each
first_of_each-Distinct seen [] = tt
first_of_each-Distinct seen (x ∷ xs) = elim (Bool-cases (any (same_section x) seen)) [
  | inl old ↦ rw old (first_of_each-Distinct seen xs)
  | inr new ↦ rw new (
    All-imp (λ y. any (same_section y) (x ∷ seen) ≡ false) (λ y. same_section y x ≡ false)
        (λ y p. ground arith) (first_of_each (x ∷ seen) xs) (first_of_each-fresh (x ∷ seen) xs),
    first_of_each-Distinct (x ∷ seen) xs,
  )
]

-- A chunk's section is among those seen, or covered by the result.
abbrev Held : List RetrievedChunk → List RetrievedChunk → RetrievedChunk → Type 0
Held seen zs x = (any (same_section x) seen ≡ true) ⊎ (covers zs x ≡ true)

first_of_each-skip :
    (seen xs : List RetrievedChunk) (x : RetrievedChunk)
    → any (same_section x) seen ≡ true
    → first_of_each seen (x ∷ xs) ≡ first_of_each seen xs
unfolding first_of_each
first_of_each-skip seen xs x old = rw old refl

first_of_each-take :
    (seen xs : List RetrievedChunk) (x : RetrievedChunk)
    → any (same_section x) seen ≡ false
    → first_of_each seen (x ∷ xs) ≡ x ∷ first_of_each (x ∷ seen) xs
unfolding first_of_each
first_of_each-take seen xs x new = rw new refl

Held-cons :
    (seen zs : List RetrievedChunk) (x y : RetrievedChunk)
    → Held (x ∷ seen) zs y × (y.score ≤ x.score)
    → Held seen (x ∷ zs) y
Held-cons seen zs x y (inl h, le) = elim (Bool-cases (same_section y x)) [
  | inl same ↦ inr (ground arith)
  | inr other ↦ inl (ground arith)
]
Held-cons seen zs x y (inr h, le) = inr (ground arith)

first_of_each-Held :
    (seen xs : List RetrievedChunk) → IsSorted xs → All (Held seen (first_of_each seen xs)) xs
first_of_each-Held seen [] h = tt
first_of_each-Held seen (x ∷ xs) h = elim (Bool-cases (any (same_section x) seen)) [
  | inl old ↦
      subst (λ zs. All (Held seen zs) (x ∷ xs)) (sym (first_of_each-skip seen xs x old))
        (inl old, first_of_each-Held seen xs h.1)
  | inr new ↦
      let zs = first_of_each (x ∷ seen) xs in
      subst (λ zs. All (Held seen zs) (x ∷ xs)) (sym (first_of_each-take seen xs x new))
        (
          inr (rw (same_section_refl x) (ground arith)),
          All-imp (λ y. Held (x ∷ seen) zs y × (y.score ≤ x.score)) (Held seen (x ∷ zs))
              (Held-cons seen zs x) xs
              (All-both (Held (x ∷ seen) zs) (λ y. y.score ≤ x.score) xs
                (first_of_each-Held (x ∷ seen) xs h.1) h.0),
        )
]

module _ (xs : List RetrievedChunk) where
  pub distinct_sections-IsSorted : IsSorted (distinct_sections xs)
  unfolding distinct_sections
  distinct_sections-IsSorted = first_of_each-IsSorted [] (by_score xs) (by_score-IsSorted xs)

  pub distinct_sections-Distinct : Distinct (distinct_sections xs)
  unfolding distinct_sections
  distinct_sections-Distinct = first_of_each-Distinct [] (by_score xs)

  -- Every chunk is covered by the section's best match.
  pub distinct_sections-covers : All (λ x. covers (distinct_sections xs) x ≡ true) xs
  unfolding distinct_sections
  distinct_sections-covers =
      All-by_score (λ x. covers (distinct_sections xs) x ≡ true) xs
        (All-imp (Held [] (distinct_sections xs)) (λ x. covers (distinct_sections xs) x ≡ true) held
          (by_score xs) (first_of_each-Held [] (by_score xs) (by_score-IsSorted xs)))
    where
      held :
          (x : RetrievedChunk)
          → Held [] (distinct_sections xs) x
          → covers (distinct_sections xs) x ≡ true
      held x (inl h) = cc
      held x (inr h) = h

pub IsSorted-take : (n : ℕ) (xs : List RetrievedChunk) → IsSorted xs → IsSorted (take n xs)
IsSorted-take zero xs h = tt
IsSorted-take (suc n) [] h = tt
IsSorted-take (suc n) (x ∷ xs) h = (All-take _ n xs h.0, IsSorted-take n xs h.1)

pub Distinct-take : (n : ℕ) (xs : List RetrievedChunk) → Distinct xs → Distinct (take n xs)
Distinct-take zero xs h = tt
Distinct-take (suc n) [] h = tt
Distinct-take (suc n) (x ∷ xs) h = (All-take _ n xs h.0, Distinct-take n xs h.1)
