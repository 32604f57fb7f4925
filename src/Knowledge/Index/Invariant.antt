-- ===== src/Knowledge/Index/Invariant.antt =====
-- The index that src/opsassist/knowledge/ingest.py keeps: one active version for each document key, the
-- latest one, and exactly its chunks are active, in the table of its classification.
use novax_ai_assignment.Base.{
  ℕ, ◌+◌, ◌≤◌, String, ◌≡◌, refl, Bool, true, false, Option, none, some, List, ◌==◌, length, All,
  eq_iff, arith, if◌then◌else◌, inl, inr, Bool-cases,
}
use novax_ai_assignment.Knowledge.Index.{
  DocStatus, Document, ChunkRow, Store, is_active, is_confidential, active_doc, latest, mark,
  retire, retire_chunks,
}
use novax_ai_assignment.Knowledge.Index.Rows.{
  Facts, current, actives, Distinct, Below, active_doc-none, actives-mark, active_doc-mark,
  latest-mark, Distinct-mark, Below-mark,
}
use novax_ai_assignment.Knowledge.Index.Passages.{shown, visible-retire, All-retire}

-- A row and the active version that it belongs to.
pub record Backs (f : Facts) (c : ChunkRow) : Type 0 where
  pub id : f.id ≡ c.document_id
  pub version : f.version ≡ c.version
  pub department : f.department ≡ c.department
  pub classification : f.classification ≡ c.classification
  pub model : f.model ≡ c.embedding_model

-- An active row belongs to the active version of its key.
abbrev pub IsLive : List Document → ChunkRow → Type 0
IsLive ds c = c.is_active ≡ true → (f : Facts) × (current c.doc_key ds ≡ some f) × Backs f c

-- A row of the table for confidential documents, or of the other table.
abbrev pub Placed : Bool → List Document → ChunkRow → Type 0
Placed b ds c = (is_confidential c.classification ≡ b) × IsLive ds c

abbrev pub count_of : Option Facts → ℕ
count_of none = 0
count_of (some f) = f.count

pub record IsIndex (st : Store) : Type 0 where
  pub distinct : Distinct st.documents
  pub below : Below st.next_document st.documents
  pub single : (k : String) → actives k st.documents ≤ 1
  pub newest :
      (k : String) (f : Facts) → current k st.documents ≡ some f → f.version ≡ latest k st.documents
  pub shared : All (Placed false st.documents) st.chunks
  pub confidential : All (Placed true st.documents) st.confidential_chunks
  pub whole : (k : String) → length (shown k st) ≡ count_of (current k st.documents)

-- The documents once the active version of a key is gone.
pub record Cleared (key : String) (n : ℕ) (ds ds' : List Document) : Type 0 where
  pub distinct : Distinct ds'
  pub below : Below n ds'
  pub single : (k : String) → actives k ds' ≤ 1
  pub latest_same : (k : String) → latest k ds' ≡ latest k ds
  pub current_is : (k : String) → current k ds' ≡ (if key == k then none else current k ds)

eq_sym_false : (a b : String) → a == b ≡ false → b == a ≡ false
eq_sym_false a b h = ground (arith, eq_iff a b, eq_iff b a)

module _ (st : Store) (h : IsIndex st) (key : String) where
  pub mark-Cleared :
      (status : DocStatus) (d : Document)
      → is_active status ≡ false
      → active_doc key st.documents ≡ some d
      → Cleared key st.next_document st.documents (mark d.id status st.now st.documents)
  mark-Cleared status d off found = record {
    distinct = Distinct-mark status off st.now d.id st.documents h.distinct;
    below = Below-mark status off st.now d.id st.next_document st.documents h.below;
    single = λ k. omega (arith, h.single k, counts k);
    latest_same = λ k. latest-mark status off st.now d.id k st.documents;
    current_is = λ k. elim (Bool-cases (key == k)) [
      | inl same ↦ rw (same, active_doc-none k (mark d.id status st.now st.documents) (gone k same))
      | inr other ↦
          rw (other, active_doc-mark status off st.now key k st.documents h.distinct found other)
    ];
  }
    where
      counts :
          (k : String)
          → actives k (mark d.id status st.now st.documents) + (if key == k then 1 else 0)
            ≡ actives k st.documents
      counts k = actives-mark status off st.now key k st.documents h.distinct found

      gone : (k : String) → key == k ≡ true → actives k (mark d.id status st.now st.documents) ≡ 0
      gone k same = omega (arith, h.single k, rw same at (counts k))

  pub none-Cleared :
      active_doc key st.documents ≡ none → Cleared key st.next_document st.documents st.documents
  none-Cleared absent = record {
    distinct = h.distinct;
    below = h.below;
    single = h.single;
    latest_same = λ k. refl;
    current_is = λ k. elim (Bool-cases (key == k)) [
      | inl same ↦ rw (same, ← (eq_iff key k).0 same, absent)
      | inr other ↦ rw other
    ];
  }

  -- A store whose document of a key is gone, and the key's chunks with it.
  module _ (ds : List Document) (c : Cleared key st.next_document st.documents ds) where
    retired-Placed :
        (b : Bool) (rows : List ChunkRow)
        → All (Placed b st.documents) rows
        → All (Placed b ds) (retire key rows)
    retired-Placed b rows all =
        All-retire (Placed b st.documents) (Placed b ds) key
          (λ r p other. (p.0, λ live. keeps r other (p.1 live))) (λ r p off. (p.0, λ live. cc))
          (λ r p. (p.0, λ live. cc)) rows all
      where
        keeps :
            (r : ChunkRow)
            → r.doc_key == key ≡ false
            → (f : Facts) × (current r.doc_key st.documents ≡ some f) × Backs f r
            → (f : Facts) × (current r.doc_key ds ≡ some f) × Backs f r
        keeps r other (f, is, backs) =
            (f, rw (c.current_is r.doc_key, eq_sym_false r.doc_key key other) is, backs)

    pub retire_chunks-IsIndex : IsIndex (retire_chunks key (record st { documents = ds }))
    unfolding retire_chunks
    retire_chunks-IsIndex = record {
      distinct = c.distinct;
      below = c.below;
      single = c.single;
      newest = λ k f is. ground (arith, c.current_is k, c.latest_same k, h.newest k f);
      shared = retired-Placed false st.chunks h.shared;
      confidential = retired-Placed true st.confidential_chunks h.confidential;
      whole = λ k. ground (
        arith,
        visible-retire key k st.chunks,
        visible-retire key k st.confidential_chunks,
        h.whole k,
        c.current_is k,
      );
    }
