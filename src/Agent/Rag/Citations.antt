-- ===== src/Agent/Rag/Citations.antt =====
-- The citations that `finalize` of src/opsassist/rag.py gives an answer.
use novax_ai_assignment.Base.{
  ℕ, zero, suc, ◌-◌, ◌≤◌, ◌<◌, String, ◌≡◌, refl, subst, ◌∙◌, Bool, true, false, ◌&&◌, ◌||◌, some,
  List, [], ◌∷◌, ◌++◌, eqb, length, any, take_chars, All, All-append, arith, inl, inr, Bool-cases,
}
use novax_ai_assignment.Knowledge.Retrieval.{RetrievedChunk}
use novax_ai_assignment.Agent.Rag.{
  abstain, Wording, stable_ref, Citation, GroundedAnswer, Piece, plain, marker, pieces,
  is_abstention, is_source, used, check, get_elem?, citations_of, finalize,
}

-- A citation shows the source of its number.
pub record PointsAt (chunks : List RetrievedChunk) (c : Citation) : Type 0 where
  pub source : RetrievedChunk
  pub given : get_elem? chunks (c.number - 1) ≡ some source
  pub positive : 1 ≤ c.number
  pub doc_key : c.doc_key ≡ source.doc_key
  pub version : c.version ≡ source.version
  pub title : c.title ≡ source.title
  pub locator : c.locator ≡ source.locator
  pub ref : c.ref ≡ stable_ref source
  pub snippet : c.snippet ≡ take_chars 300 source.content

abbrev pub Distinct : List ℕ → Type 0
Distinct [] = Unit
Distinct (n ∷ ns) = (any (eqb n) ns ≡ false) × Distinct ns

abbrev pub numbers : List Citation → List ℕ
numbers [] = []
numbers (c ∷ cs) = c.number ∷ numbers cs

-- A marker of this number stands in a text.
abbrev pub mentions : ℕ → List Piece → Bool
mentions n [] = false
mentions n (plain c ∷ ps) = mentions n ps
mentions n (marker m raw ∷ ps) = eqb n m || mentions n ps

any-append :
    (n m : ℕ) (order : List ℕ) → any (eqb n) (order ++ (m ∷ [])) ≡ (any (eqb n) order || eqb n m)
any-append n m [] = ground arith
any-append n m (k ∷ order) = ground (arith, any-append n m order)

any-used : (n m : ℕ) (order : List ℕ) → any (eqb n) (used m order) ≡ (any (eqb n) order || eqb n m)
any-used n m order = elim (Bool-cases (any (eqb m) order)) [
  | inl old ↦ rw old (elim (Bool-cases (eqb n m)) [
    | inl same ↦ rw (same) (rw (any_same n m order same) (rw old refl))
    | inr other ↦ rw other (ground arith)
  ])
  | inr new ↦ rw new (any-append n m order)
]
  where
    any_same : (n m : ℕ) (order : List ℕ) → eqb n m ≡ true → any (eqb n) order ≡ any (eqb m) order
    any_same n m order same =
        subst (λ k. any (eqb n) order ≡ any (eqb k) order) {x = n} {y = m} (ground arith) refl

Distinct-snoc :
    (n : ℕ) (order : List ℕ)
    → Distinct order
    → any (eqb n) order ≡ false
    → Distinct (order ++ (n ∷ []))
Distinct-snoc n [] h new = (refl, tt)
Distinct-snoc n (k ∷ order) h new =
    (rw (any-append k n order) (ground arith), Distinct-snoc n order h.1 (ground arith))

Distinct-used : (n : ℕ) (order : List ℕ) → Distinct order → Distinct (used n order)
Distinct-used n order h = elim (Bool-cases (any (eqb n) order)) [
  | inl old ↦ rw old h
  | inr new ↦ rw new (Distinct-snoc n order h new)
]

module _ (sources : ℕ) where
  abbrev Valid : ℕ → Type 0
  Valid n = is_source sources n ≡ true

  Valid-used : (n : ℕ) (order : List ℕ) → Valid n → All Valid order → All Valid (used n order)
  Valid-used n order v h = elim (Bool-cases (any (eqb n) order)) [
    | inl old ↦ rw old h
    | inr new ↦ rw new (All-append Valid order (n ∷ []) h (v, tt))
  ]

  check-order :
      (n : ℕ) (order : List ℕ) (ps : List Piece)
      → any (eqb n) (check sources order ps).order
        ≡ (any (eqb n) order || (is_source sources n && mentions n ps))
  unfolding check
  check-order n order [] = ground arith
  check-order n order (plain c ∷ ps) = check-order n order ps
  check-order n order (marker m raw ∷ ps) = elim (Bool-cases (is_source sources m)) [
    | inl on ↦ rw on (check-order n (used m order) ps ∙ rw (any-used n m order) (valid_marker on))
    | inr off ↦ rw off (check-order n order ps ∙ other_marker off)
  ]
    where
      valid_marker :
          is_source sources m ≡ true
          → ((any (eqb n) order || eqb n m) || (is_source sources n && mentions n ps))
            ≡ (any (eqb n) order || (is_source sources n && (eqb n m || mentions n ps)))
      valid_marker on = ground arith

      other_marker :
          is_source sources m ≡ false
          → (any (eqb n) order || (is_source sources n && mentions n ps))
            ≡ (any (eqb n) order || (is_source sources n && (eqb n m || mentions n ps)))
      other_marker off = ground arith

  check-Distinct :
      (order : List ℕ) (ps : List Piece)
      → Distinct order
      → All Valid order
      → Distinct (check sources order ps).order × All Valid (check sources order ps).order
  unfolding check
  check-Distinct order [] d v = (d, v)
  check-Distinct order (plain c ∷ ps) d v = check-Distinct order ps d v
  check-Distinct order (marker m raw ∷ ps) d v = elim (Bool-cases (is_source sources m)) [
    | inl on ↦
        rw on (check-Distinct (used m order) ps (Distinct-used m order d) (Valid-used m order on v))
    | inr off ↦ rw off (check-Distinct order ps d v)
  ]

get_elem?-some :
    (xs : List RetrievedChunk) (i : ℕ)
    → i < length xs
    → (x : RetrievedChunk) × (get_elem? xs i ≡ some x)
get_elem?-some [] i h = absurd (omega arith)
get_elem?-some (x ∷ xs) zero h = (x, refl)
get_elem?-some (x ∷ xs) (suc i) h = get_elem?-some xs i (omega arith)

module _ (chunks : List RetrievedChunk) where
  given :
      (n : ℕ)
      → is_source (length chunks) n ≡ true
      → (x : RetrievedChunk) × (get_elem? chunks (n - 1) ≡ some x)
  given n v = get_elem?-some chunks (n - 1) (ground arith)

  numbers-citations_of :
      (order : List ℕ)
      → All (λ n. is_source (length chunks) n ≡ true) order
      → numbers (citations_of chunks order) ≡ order
  unfolding citations_of
  numbers-citations_of [] v = refl
  numbers-citations_of (n ∷ order) v =
      let (x, is) = given n v.0 in rw is (ground (arith, numbers-citations_of order v.1))

  citations_of-PointsAt :
      (order : List ℕ)
      → All (λ n. is_source (length chunks) n ≡ true) order
      → All (PointsAt chunks) (citations_of chunks order)
  unfolding citations_of
  citations_of-PointsAt [] v = tt
  citations_of-PointsAt (n ∷ order) v =
      let (x, is) = given n v.0 in
      rw is (
        record {
          source = x;
          given = is;
          positive = ground arith;
          doc_key = refl;
          version = refl;
          title = refl;
          locator = refl;
          ref = refl;
          snippet = refl;
        },
        citations_of-PointsAt order v.1,
      )

-- The answer's text as its markers are checked.
abbrev pub checked_text : Wording → String → List RetrievedChunk → String
checked_text wording raw chunks =
    (wording.repoint_citations (wording.normalize_markers raw (length chunks)) chunks).0

-- An answer whose citations are right: those of an abstention are none.
pub record IsCited (wording : Wording) (raw : String) (chunks : List RetrievedChunk)
    (a : GroundedAnswer) : Type 0 where
  pub points : All (PointsAt chunks) a.citations
  pub distinct : Distinct (numbers a.citations)
  pub abstains : a.abstained ≡ true → (a.text ≡ abstain) × (a.citations ≡ [])
  pub exact :
      a.abstained ≡ false
      → (n : ℕ)
      → any (eqb n) (numbers a.citations)
        ≡ (is_source (length chunks) n && mentions n (pieces 0 (checked_text wording raw chunks)))

-- The citations of an answer, whatever the model wrote: each shows the source of its number, no number
-- twice; a number is cited exactly when it is that of a source and a marker of the rewritten text has
-- it; and an abstention has the fixed text and no citation.
pub finalize-IsCited :
    (wording : Wording) (raw : String) (chunks : List RetrievedChunk)
    → IsCited wording raw chunks (finalize wording raw chunks)
unfolding finalize
finalize-IsCited wording raw chunks =
    elim (Bool-cases (is_abstention wording (wording.normalize_markers raw (length chunks)))) [
      | inl abstains ↦ rw abstains (record {
        points = tt;
        distinct = tt;
        abstains = λ e. (refl, refl);
        exact = λ e n. cc (e);
      })
      | inr answers ↦ rw answers (record {
        points = citations_of-PointsAt chunks order valid;
        distinct = rw (numbers-citations_of chunks order valid) distinct;
        abstains = λ e. cc (e);
        exact = λ e n.
            rw (numbers-citations_of chunks order valid) (check-order (length chunks) n [] ps);
      })
    ]
  where
    ps : List Piece
    ps = pieces 0 (checked_text wording raw chunks)

    order : List ℕ
    order = (check (length chunks) [] ps).order

    distinct : Distinct order
    distinct = (check-Distinct (length chunks) [] ps tt tt).0

    valid : All (λ n. is_source (length chunks) n ≡ true) order
    valid = (check-Distinct (length chunks) [] ps tt tt).1
