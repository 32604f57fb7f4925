-- ===== src/Knowledge/Index/Race.antt =====
-- `deactivate` of src/opsassist/knowledge/ingest.py reads the active version without a lock: an ingestion of
-- the same document may commit between its read and its writes.
use novax_ai_assignment.Base.{ℕ, ◌+◌, ◌≡◌, refl, true, false, some, [], length, eq_refl, arith}
use novax_ai_assignment.Knowledge.Index.{
  Document, Store, Prepared, IngestOutcome, active_doc, latest, mark, document_of, same_content,
  supersede, retire_chunks, insert_version, unchanged_result, swap, deactivate_found,
}
use novax_ai_assignment.Knowledge.Index.Rows.{Facts, facts_of, current, active_doc-lt}
use novax_ai_assignment.Knowledge.Index.Passages.{shown, visible-retire}
use novax_ai_assignment.Knowledge.Index.Invariant.{IsIndex}

-- A document that readers do not find although its version is active, and that another ingestion of
-- the same content leaves like this.
pub record IsLost (p : Prepared) (version : ℕ) (st : Store) : Type 0 where
  pub active :
      (f : Facts) × (current p.document_id st.documents ≡ some f)
      × (f.version ≡ version)
      × (f.count ≡ length p.chunks)
  pub nothing_shown : shown p.document_id st ≡ []
  pub not_repaired : (swap p st).0 ≡ st
  pub told_unchanged : (swap p st).1.outcome ≡ IngestOutcome.unchanged

module _ (st : Store) (p : Prepared) (d : Document) (h : IsIndex st)
    (found : active_doc p.document_id st.documents ≡ some d)
    (changed : same_content p.digest p.model_id (some d) ≡ false) where
  abbrev version : ℕ
  version = latest p.document_id st.documents + 1

  -- What is left when both have written.
  abbrev left : Store
  left = (deactivate_found p.document_id (some d) (swap p st).0).0

  still_active :
      active_doc p.document_id left.documents ≡ some (document_of p st.next_document version)
  unfolding deactivate_found swap retire_chunks supersede insert_version mark active_doc document_of
  still_active =
      rw (found, changed)
        (ground (
          arith,
          eq_refl p.document_id,
          active_doc-lt p.document_id st.next_document st.documents found h.below,
        ))

  none_shown : shown p.document_id left ≡ []
  unfolding deactivate_found retire_chunks
  none_shown =
      rw
        (
          visible-retire p.document_id p.document_id (swap p st).0.chunks,
          visible-retire p.document_id p.document_id (swap p st).0.confidential_chunks,
          eq_refl p.document_id,
        )
        refl

  repeated : same_content p.digest p.model_id (active_doc p.document_id left.documents) ≡ true
  unfolding same_content document_of
  repeated = rw still_active (ground (arith, eq_refl p.digest, eq_refl p.model_id))

  -- Where `deactivate` has read the active version of a document and an ingestion of other content of
  -- it commits before `deactivate` writes, the new version stays active with no active chunk, and
  -- every later ingestion of this content answers `unchanged` and changes nothing.
  pub deactivate-IsLost :
      IsLost p
        (latest p.document_id st.documents + 1)
        (deactivate_found p.document_id (some d) (swap p st).0).0
  deactivate-IsLost = record {
    active = (
      facts_of (document_of p st.next_document version),
      rw still_active refl,
      unfold document_of in refl,
      unfold document_of in refl,
    );
    nothing_shown = none_shown;
    not_repaired = unfold swap in rw repeated refl;
    told_unchanged = unfold swap unchanged_result in rw (repeated, still_active) refl;
  }
