-- ===== src/Knowledge/Index/Passages.antt =====
-- What the chunk tables of src/opsassist/knowledge/ingest.py show of a document, under the writes there.
use novax_ai_assignment.Base.{
  ℕ, suc, String, ◌≡◌, refl, Bool, true, false, ◌&&◌, List, [], ◌∷◌, ◌++◌, ◌==◌, eqb, length, All,
  eq_iff, arith, if◌then◌else◌, inl, inr, Bool-cases,
}
use novax_ai_assignment.Knowledge.Chunking.{Chunk}
use novax_ai_assignment.Knowledge.Index.{
  Document, ChunkRow, Store, Prepared, is_active, active_doc, latest, retire, row_of, rows_of,
  touch_provenance,
}
use novax_ai_assignment.Knowledge.Index.Rows.{Distinct, Below, actives, current}

-- The texts of the active chunks of a document.
unfoldable pub visible : String → List ChunkRow → List String
visible key [] = []
visible key (c ∷ cs) =
    if c.doc_key == key && c.is_active then c.content ∷ visible key cs else visible key cs

-- What a reader finds of a document in both tables.
abbrev pub shown : String → Store → List String
shown key st = visible key st.chunks ++ visible key st.confidential_chunks

-- The texts of the chunks that an ingestion writes.
abbrev pub texts : List (Chunk × List ℕ) → List String
texts [] = []
texts ((c, vector) ∷ rest) = c.text ∷ texts rest

pub length-texts : (l : List (Chunk × List ℕ)) → length (texts l) ≡ length l
length-texts [] = refl
length-texts ((c, vector) ∷ rest) = ap_suc (length-texts rest)
  where
    ap_suc : {m n : ℕ} → m ≡ n → suc m ≡ suc n
    ap_suc h = cc

pub visible-append :
    (k : String) (xs ys : List ChunkRow) → visible k (xs ++ ys) ≡ visible k xs ++ visible k ys
unfolding visible
visible-append k [] ys = refl
visible-append k (x ∷ xs) ys = ground (arith, visible-append k xs ys)

pub visible-retire :
    (key k : String) (rows : List ChunkRow)
    → visible k (retire key rows) ≡ (if key == k then [] else visible k rows)
unfolding visible retire
visible-retire key k [] = ground arith
visible-retire key k (c ∷ cs) =
    ground (arith, eq_iff c.doc_key key, eq_iff c.doc_key k, eq_iff key k, visible-retire key k cs)

pub visible-rows_of :
    (p : Prepared) (k : String) (document_id version id : ℕ) (l : List (Chunk × List ℕ))
    → visible k (rows_of p document_id version id l) ≡ (if p.document_id == k then texts l else [])
unfolding visible rows_of row_of
visible-rows_of p k document_id version id [] = ground arith
visible-rows_of p k document_id version id ((c, vector) ∷ rest) =
    ground (arith, visible-rows_of p k document_id version (suc id) rest)

module _ (P : ChunkRow → Type 0) where
  -- Retiring a document keeps what holds of its inactive rows and of the other rows.
  pub All-retire :
      (Q : ChunkRow → Type 0) (key : String)
      → ((c : ChunkRow) → P c → c.doc_key == key ≡ false → Q c)
      → ((c : ChunkRow) → P c → c.is_active ≡ false → Q c)
      → ((c : ChunkRow) → P c → Q (record c { is_active = false }))
      → (rows : List ChunkRow) → All P rows
      → All Q (retire key rows)
  unfolding retire
  All-retire Q key other inactive retired [] h = tt
  All-retire Q key other inactive retired (c ∷ cs) h = (
    pick (c.doc_key == key) c.is_active refl refl,
    All-retire Q key other inactive retired cs h.1,
  )
    where
      pick :
          (mine seen : Bool)
          → c.doc_key == key ≡ mine
          → c.is_active ≡ seen
          → Q (if mine && seen then record c { is_active = false } else c)
      pick true true a b = retired c h.0
      pick true false a b = inactive c h.0 b
      pick false seen a b = other c h.0 a

  pub All-rows_of :
      (p : Prepared) (document_id version id : ℕ) (l : List (Chunk × List ℕ))
      → ((n : ℕ) (c : Chunk) (vector : List ℕ) → P (row_of p document_id version n c vector))
      → All P (rows_of p document_id version id l)
  unfolding rows_of
  All-rows_of p document_id version id [] h = tt
  All-rows_of p document_id version id ((c, vector) ∷ rest) h =
      (h id c vector, All-rows_of p document_id version (suc id) rest h)

-- The name of an uploader changes nothing that readers use.
module _ (key user_id : String) where
  pub current-touch :
      (k : String) (ds : List Document) → current k (touch_provenance key user_id ds) ≡ current k ds
  unfolding active_doc touch_provenance
  current-touch k [] = refl
  current-touch k (d ∷ ds) = ground (arith, current-touch k ds)

  pub actives-touch :
      (k : String) (ds : List Document) → actives k (touch_provenance key user_id ds) ≡ actives k ds
  unfolding actives touch_provenance
  actives-touch k [] = refl
  actives-touch k (d ∷ ds) = ground (arith, actives-touch k ds)

  pub latest-touch :
      (k : String) (ds : List Document) → latest k (touch_provenance key user_id ds) ≡ latest k ds
  unfolding latest touch_provenance
  latest-touch k [] = refl
  latest-touch k (d ∷ ds) = ground (arith, latest-touch k ds)

  fresh-touch :
      (n : ℕ) (ds : List Document)
      → All (λ e. eqb e.id n ≡ false) ds
      → All (λ e. eqb e.id n ≡ false) (touch_provenance key user_id ds)
  unfolding touch_provenance
  fresh-touch n [] h = h
  fresh-touch n (d ∷ ds) h = ground (arith, fresh-touch n ds)

  pub Distinct-touch :
      (ds : List Document) → Distinct ds → Distinct (touch_provenance key user_id ds)
  unfolding touch_provenance
  Distinct-touch [] h = h
  Distinct-touch (d ∷ ds) h = elim (Bool-cases (d.doc_key == key && is_active d.status)) [
    | inl e ↦ rw e (fresh-touch d.id ds h.0, Distinct-touch ds h.1)
    | inr e ↦ rw e (fresh-touch d.id ds h.0, Distinct-touch ds h.1)
  ]

  pub Below-touch :
      (n : ℕ) (ds : List Document) → Below n ds → Below n (touch_provenance key user_id ds)
  unfolding touch_provenance
  Below-touch n [] h = h
  Below-touch n (d ∷ ds) h = ground (arith, Below-touch n ds)
