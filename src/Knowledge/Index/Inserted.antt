-- ===== src/Knowledge/Index/Inserted.antt =====
-- A new version in the index of src/opsassist/knowledge/ingest.py.
use mathlib.Core.List.{append-nil}
use novax_ai_assignment.Base.{
  ℕ, suc, ◌+◌, ◌≤◌, String, ◌≡◌, refl, Bool, true, false, none, some, List, [], ◌∷◌, ◌++◌, ◌==◌,
  eqb, length, All, All-append, All-imp, eq_iff, eq_refl, arith, if◌then◌else◌, subst, inl, inr,
  Bool-cases,
}
use novax_ai_assignment.Knowledge.Chunking.{Chunk}
use novax_ai_assignment.Knowledge.Index.{
  Document, ChunkRow, Store, Prepared, is_confidential, active_doc, latest, document_of, row_of,
  rows_of, insert_version,
}
use novax_ai_assignment.Knowledge.Index.Rows.{
  Facts, facts_of, current, actives, Below, actives-none,
}
use novax_ai_assignment.Knowledge.Index.Passages.{
  visible, shown, texts, length-texts, visible-append, visible-rows_of, All-rows_of,
}
use novax_ai_assignment.Knowledge.Index.Invariant.{Backs, IsLive, Placed, count_of, IsIndex}

Below-fresh : (n : ℕ) (ds : List Document) → Below n ds → All (λ e. eqb e.id n ≡ false) ds
Below-fresh n [] h = tt
Below-fresh n (d ∷ ds) h = (ground arith, Below-fresh n ds h.1)

Below-suc : (n : ℕ) (ds : List Document) → Below n ds → Below (suc n) ds
Below-suc n [] h = tt
Below-suc n (d ∷ ds) h = (omega arith, Below-suc n ds h.1)

-- The rows of a new version stand before the others of one table.
put_in :
    (b : Bool) (k : String) (new xs ys : List ChunkRow)
    → visible k (if b then xs else new ++ xs) ++ visible k (if b then new ++ ys else ys) ≡ (
        if b
        then visible k xs ++ (visible k new ++ visible k ys)
        else (visible k new ++ visible k xs) ++ visible k ys)
put_in true k new xs ys = rw visible-append
put_in false k new xs ys = rw visible-append

into_nothing :
    (b : Bool) (new xs ys : List String)
    → xs ++ ys ≡ []
    → (if b then xs ++ (new ++ ys) else (new ++ xs) ++ ys) ≡ new
into_nothing true new [] [] e = append-nil new
into_nothing false new [] [] e = simp append-nil
into_nothing b new [] (y ∷ ys) e = cc
into_nothing b new (x ∷ xs) ys e = cc

nothing_into :
    (b : Bool) (xs ys : List String) → (if b then xs ++ ([] ++ ys) else ([] ++ xs) ++ ys) ≡ xs ++ ys
nothing_into true xs ys = refl
nothing_into false xs ys = refl

-- The row of a new version becomes the active one of its key, where there was none.
pub current-insert :
    (p : Prepared) (id version : ℕ) (k : String) (ds : List Document)
    → current k (document_of p id version ∷ ds)
      ≡ (if p.document_id == k then some (facts_of (document_of p id version)) else current k ds)
unfolding active_doc document_of
current-insert p id version k ds = ground arith

module _ (p : Prepared) (st : Store) (h : IsIndex st)
    (absent : active_doc p.document_id st.documents ≡ none) where
  abbrev version : ℕ
  version = latest p.document_id st.documents + 1

  abbrev document : Document
  document = document_of p st.next_document version

  abbrev docs : List Document
  docs = document ∷ st.documents

  gone :
      (c : ChunkRow)
      → p.document_id == c.doc_key ≡ true
      → (f : Facts) × (current c.doc_key st.documents ≡ some f) × Backs f c
      → (f : Facts) × (current c.doc_key docs ≡ some f) × Backs f c
  gone c same (f, is, backs) = cc (absent, is, (eq_iff p.document_id c.doc_key).0 same)

  old-IsLive : (c : ChunkRow) → IsLive st.documents c → IsLive docs c
  old-IsLive c live on = elim (Bool-cases (p.document_id == c.doc_key)) [
    | inl same ↦ gone c same (live on)
    | inr other ↦
        let (f, is, backs) = live on in
        (f, rw (current-insert p st.next_document version c.doc_key st.documents, other) is, backs)
  ]

  new_row :
      (n : ℕ) (c : Chunk) (vector : List ℕ)
      → Placed
          (is_confidential p.classification)
          docs
          (row_of p st.next_document version n c vector)
  unfolding row_of document_of
  new_row n c vector = (
    refl,
    λ on. (
      facts_of document,
      rw
          (
            current-insert p st.next_document version p.document_id st.documents,
            eq_refl p.document_id,
          )
          refl,
      record { id = refl; version = refl; department = refl; classification = refl; model = refl },
    ),
  )

  placed :
      (b : Bool) (rows : List ChunkRow)
      → All (Placed b st.documents) rows
      → All (Placed b docs) rows
  placed b rows =
      All-imp (Placed b st.documents) (Placed b docs) (λ c q. (q.0, old-IsLive c q.1)) rows

  with_new :
      (b : Bool)
      → is_confidential p.classification ≡ b
      → (rows : List ChunkRow) → All (Placed b st.documents) rows
      → All (Placed b docs) (rows_of p st.next_document version st.next_chunk p.chunks ++ rows)
  with_new b e rows all =
      All-append (Placed b docs) (rows_of p st.next_document version st.next_chunk p.chunks) rows
        (All-rows_of (Placed b docs) p st.next_document version st.next_chunk p.chunks
          (λ n c vector.
            subst (λ b. Placed b docs (row_of p st.next_document version n c vector)) e
              (new_row n c vector)))
        (placed b rows all)

  nothing_shown : shown p.document_id st ≡ []
  nothing_shown = empty (shown p.document_id st) (ground (arith, h.whole p.document_id))
    where
      empty : (l : List String) → length l ≡ 0 → l ≡ []
      empty [] e = refl
      empty (x ∷ l) e = absurd (omega arith)

  pub shown-insert_version :
      (k : String)
      → shown k (insert_version p version st)
        ≡ (if p.document_id == k then texts p.chunks else shown k st)
  unfolding insert_version
  shown-insert_version k = elim (Bool-cases (p.document_id == k)) [
    | inl same ↦
        rw
          (
            same,
            put_in (is_confidential p.classification) k new st.chunks st.confidential_chunks,
            visible-rows_of p k st.next_document version st.next_chunk p.chunks,
            same,
          )
          (into_nothing (is_confidential p.classification) (texts p.chunks) (visible k st.chunks)
            (visible k st.confidential_chunks)
            (cc (nothing_shown, (eq_iff p.document_id k).0 same)))
    | inr other ↦
        rw
          (
            other,
            put_in (is_confidential p.classification) k new st.chunks st.confidential_chunks,
            visible-rows_of p k st.next_document version st.next_chunk p.chunks,
            other,
          )
          (nothing_into (is_confidential p.classification) (visible k st.chunks)
            (visible k st.confidential_chunks))
  ]
    where
      new : List ChunkRow
      new = rows_of p st.next_document version st.next_chunk p.chunks

  single_version : (k : String) → actives k docs ≤ 1
  unfolding actives document_of
  single_version k =
      ground
        (arith, eq_iff p.document_id k, h.single k, actives-none p.document_id st.documents absent)

  newest_version : (k : String) (f : Facts) → current k docs ≡ some f → f.version ≡ latest k docs
  unfolding latest document_of
  newest_version k f is = ground (
    arith,
    eq_iff p.document_id k,
    current-insert p st.next_document version k st.documents,
    h.newest k f,
  )

  whole_version :
      (k : String) → length (shown k (insert_version p version st)) ≡ count_of (current k docs)
  unfolding document_of
  whole_version k = ground (
    arith,
    shown-insert_version k,
    current-insert p st.next_document version k st.documents,
    h.whole k,
    length-texts p.chunks,
  )

  pub insert_version-IsIndex : IsIndex (insert_version p version st)
  unfolding insert_version
  insert_version-IsIndex = record {
    distinct = (Below-fresh st.next_document st.documents h.below, h.distinct);
    below = (omega arith, Below-suc st.next_document st.documents h.below);
    single = single_version;
    newest = newest_version;
    shared = elim (Bool-cases (is_confidential p.classification)) [
      | inl e ↦ rw e (placed false st.chunks h.shared)
      | inr e ↦ rw e (with_new false e st.chunks h.shared)
    ];
    confidential = elim (Bool-cases (is_confidential p.classification)) [
      | inl e ↦ rw e (with_new true e st.confidential_chunks h.confidential)
      | inr e ↦ rw e (placed true st.confidential_chunks h.confidential)
    ];
    whole = whole_version;
  }
