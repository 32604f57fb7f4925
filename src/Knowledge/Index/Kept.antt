-- ===== src/Knowledge/Index/Kept.antt =====
-- Every transaction of src/opsassist/knowledge/ingest.py keeps the index.

use novax_ai_assignment.Base.{
  All-imp, String, ◌≡◌, refl, Bool, true, false, Option, none, some, List, [], ◌∷◌, eq_refl, inl,
  inr, Bool-cases, Option-cases,
}
use novax_ai_assignment.Knowledge.Index.{
  DocStatus, Document, ChunkRow, Store, Prepared, active_doc, latest, mark, same_content, supersede,
  retire_chunks, swap, deactivate, touch_provenance, IndexEvent, swaps, deactivates, touches,
  time_passes, apply, apply_all,
}
use novax_ai_assignment.Knowledge.Index.Rows.{facts}
use novax_ai_assignment.Knowledge.Index.Passages.{
  current-touch, actives-touch, latest-touch, Distinct-touch, Below-touch,
}
use novax_ai_assignment.Knowledge.Index.Invariant.{
  Placed, IsIndex, Cleared, mark-Cleared, none-Cleared, retire_chunks-IsIndex,
}
use novax_ai_assignment.Knowledge.Index.Inserted.{insert_version-IsIndex}

module _ (st : Store) (h : IsIndex st) where
  -- The document of a key, whether or not there is an active version of it, once it is superseded.
  pub supersede-Cleared :
      (key : String)
      → Cleared key st.next_document st.documents
          (supersede (active_doc key st.documents) st).documents
  unfolding supersede
  supersede-Cleared key = elim (Option-cases (active_doc key st.documents)) [
    | inl absent ↦ rw absent (none-Cleared st h key absent)
    | inr (d, found) ↦ rw found (mark-Cleared st h key DocStatus.superseded d refl found)
  ]

  pub deactivate-IsIndex : (key : String) → IsIndex (deactivate key st).0
  unfolding deactivate
  deactivate-IsIndex key = elim (Option-cases (active_doc key st.documents)) [
    | inl absent ↦ rw absent h
    | inr (d, found) ↦ rw found (
        retire_chunks-IsIndex st h key (mark d.id DocStatus.deleted st.now st.documents)
          (mark-Cleared st h key DocStatus.deleted d refl found))
  ]

  touch-IsIndex :
      (key user_id : String)
      → IsIndex (record st { documents = touch_provenance key user_id st.documents })
  touch-IsIndex key user_id = record {
    distinct = Distinct-touch key user_id st.documents h.distinct;
    below = Below-touch key user_id st.next_document st.documents h.below;
    single = λ k. rw (actives-touch key user_id k st.documents) (h.single k);
    newest = λ k f is.
        rw (latest-touch key user_id k st.documents)
          (h.newest k f (rw (current-touch key user_id k st.documents) at is));
    shared =
        All-imp (Placed false st.documents) (Placed false touched) (still false) st.chunks h.shared;
    confidential =
        All-imp (Placed true st.documents) (Placed true touched) (still true) st.confidential_chunks
          h.confidential;
    whole = λ k. rw (current-touch key user_id k st.documents) (h.whole k);
  }
    where
      touched : List Document
      touched = touch_provenance key user_id st.documents

      still : (b : Bool) (c : ChunkRow) → Placed b st.documents c → Placed b touched c
      still b c p = (
        p.0,
        λ on.
            let (f, is, backs) = p.1 on in
            (f, rw (current-touch key user_id c.doc_key st.documents) is, backs),
      )

facts-none : (o : Option Document) → facts o ≡ none → o ≡ none
facts-none none e = refl
facts-none (some d) e = cc

module _ (st : Store) (h : IsIndex st) (p : Prepared) where
  -- The store between the two halves of the swap.
  abbrev pub cleared : Store
  cleared = retire_chunks p.document_id (supersede (active_doc p.document_id st.documents) st)

  pub cleared-IsIndex : IsIndex cleared
  unfolding supersede
  cleared-IsIndex = elim (Option-cases (active_doc p.document_id st.documents)) [
    | inl absent ↦ rw absent (
        retire_chunks-IsIndex st h p.document_id st.documents
          (none-Cleared st h p.document_id absent))
    | inr (d, found) ↦ rw found (
        retire_chunks-IsIndex st h p.document_id
          (mark d.id DocStatus.superseded st.now st.documents)
          (mark-Cleared st h p.document_id DocStatus.superseded d refl found))
  ]

  pub cleared-none : active_doc p.document_id cleared.documents ≡ none
  unfolding retire_chunks
  cleared-none =
      facts-none
        (active_doc p.document_id (supersede (active_doc p.document_id st.documents) st).documents)
        (rw (eq_refl p.document_id) at
          ((supersede-Cleared st h p.document_id).current_is p.document_id))

  pub cleared-latest : latest p.document_id cleared.documents ≡ latest p.document_id st.documents
  unfolding retire_chunks
  cleared-latest = (supersede-Cleared st h p.document_id).latest_same p.document_id

  pub swap-IsIndex : IsIndex (swap p st).0
  unfolding swap
  swap-IsIndex =
      elim (Bool-cases (same_content p.digest p.model_id (active_doc p.document_id st.documents))) [
        | inl same ↦ rw same h
        | inr changed ↦
            rw (changed, ← cleared-latest)
              (insert_version-IsIndex p cleared cleared-IsIndex cleared-none)
      ]

pub apply-IsIndex : (st : Store) (e : IndexEvent) → IsIndex st → IsIndex (apply st e)
unfolding apply
apply-IsIndex st (swaps p) h = swap-IsIndex st h p
apply-IsIndex st (deactivates key) h = deactivate-IsIndex st h key
apply-IsIndex st (touches key user_id) h = touch-IsIndex st h key user_id
apply-IsIndex st (time_passes t) h = record {
  distinct = h.distinct;
  below = h.below;
  single = h.single;
  newest = h.newest;
  shared = h.shared;
  confidential = h.confidential;
  whole = h.whole;
}

-- After every sequence of ingestions, removals and changes of provenance, of any documents and in any
-- order: each document key has at most one active version, which is its latest; a chunk is active
-- only if it belongs to that version, under its department, its classification and its model; all
-- of that version's chunks are active; and confidential chunks stand in their own table, the others
-- in the shared one. This holds of the result when it holds at the start.
pub apply_all-IsIndex :
    (st : Store) (events : List IndexEvent) → IsIndex st → IsIndex (apply_all st events)
unfolding apply_all
apply_all-IsIndex st [] h = h
apply_all-IsIndex st (e ∷ events) h = apply_all-IsIndex (apply st e) events (apply-IsIndex st e h)
