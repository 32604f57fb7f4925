-- ===== src/Knowledge/Index/Refined.antt =====
-- The index of src/opsassist/knowledge/ingest.py as readers see it: for each document key at most one
-- publication.
use mathlib.Core.Path.{fun_ext}
use novax_ai_assignment.Base.{
  ◌+◌, String, ◌≡◌, refl, ◌∙◌, ap, ap₂, Bool, true, false, ◌&&◌, Option, none, some, List, [], ◌∷◌,
  ◌==◌, eq_iff, arith, if◌then◌else◌, inl, inr, Bool-cases, Option-cases,
}
use novax_ai_assignment.Knowledge.Index.{
  DocStatus, Document, Store, Prepared, active_doc, latest, mark, document_of, same_content,
  supersede, retire_chunks, insert_version, swap, deactivate, IndexEvent, swaps, deactivates,
  touches, time_passes, apply, apply_all,
}
use novax_ai_assignment.Knowledge.Index.Rows.{Facts, facts, facts_of, current}
use novax_ai_assignment.Knowledge.Index.Passages.{shown, texts, visible-retire, current-touch}
use novax_ai_assignment.Knowledge.Index.Invariant.{IsIndex, Cleared, mark-Cleared, none-Cleared}
use novax_ai_assignment.Knowledge.Index.Inserted.{current-insert, shown-insert_version}
use novax_ai_assignment.Knowledge.Index.Kept.{
  cleared, cleared-IsIndex, cleared-none, cleared-latest, apply-IsIndex,
}

-- What is published under a key.
pub record Publication : Type 0 where
  pub digest : String
  pub model : String
  pub department : String
  pub classification : String
  pub passages : List String

abbrev pub Library : Type 0
Library = String → Option Publication

abbrev pub publication : Option Facts → List String → Option Publication
publication none passages = none
publication (some f) passages = some (record {
  digest = f.digest;
  model = f.model;
  department = f.department;
  classification = f.classification;
  passages = passages;
})

-- What a reader of the tables finds.
abbrev pub view : Store → Library
view st k = publication (current k st.documents) (shown k st)

-- The specification: publishing replaces what stands under a key, unless it has that content already.
abbrev pub publish : Prepared → Library → Library
publish p l k =
    if p.document_id == k
    then some (record {
      digest = p.digest;
      model = p.model_id;
      department = p.department;
      classification = p.classification;
      passages = texts p.chunks;
    })
    else l k

abbrev pub holds : String → String → Option Publication → Bool
holds digest model none = false
holds digest model (some x) = x.digest == digest && x.model == model

abbrev pub perform : Library → IndexEvent → Library
perform l (swaps p) = if holds p.digest p.model_id (l p.document_id) then l else publish p l
perform l (deactivates key) = λ k. if key == k then none else l k
perform l (touches key user_id) = l
perform l (time_passes t) = l

abbrev pub perform_all : Library → List IndexEvent → Library
perform_all l [] = l
perform_all l (e ∷ events) = perform_all (perform l e) events

pub holds-view :
    (digest model : String) (passages : List String) (o : Option Document)
    → holds digest model (publication (facts o) passages) ≡ same_content digest model o
unfolding same_content
holds-view digest model passages none = refl
holds-view digest model passages (some d) = refl

documents-insert :
    (p : Prepared) (st : Store) (k : String)
    → current k (insert_version p (latest p.document_id st.documents + 1) st).documents ≡ (
        if p.document_id == k
        then some
            (facts_of (document_of p st.next_document (latest p.document_id st.documents + 1)))
        else current k st.documents)
unfolding insert_version
documents-insert p st k =
    current-insert p st.next_document (latest p.document_id st.documents + 1) k st.documents

module _ (st : Store) (h : IsIndex st) where
  retired-view :
      (key : String) (ds : List Document)
      → Cleared key st.next_document st.documents ds
      → (k : String)
      → view (retire_chunks key (record st { documents = ds })) k
        ≡ (if key == k then none else view st k)
  unfolding retire_chunks
  retired-view key ds c k = ground (
    arith,
    c.current_is k,
    visible-retire key k st.chunks,
    visible-retire key k st.confidential_chunks,
  )

  deactivate-view :
      (key k : String) → view (deactivate key st).0 k ≡ (if key == k then none else view st k)
  unfolding deactivate
  deactivate-view key k = elim (Option-cases (active_doc key st.documents)) [
    | inl absent ↦ ground (arith, eq_iff key k)
    | inr (d, found) ↦ rw found (
        retired-view key (mark d.id DocStatus.deleted st.now st.documents)
          (mark-Cleared st h key DocStatus.deleted d refl found) k)
  ]

  cleared-view :
      (p : Prepared) (k : String)
      → view (cleared st h p) k ≡ (if p.document_id == k then none else view st k)
  unfolding supersede
  cleared-view p k = elim (Option-cases (active_doc p.document_id st.documents)) [
    | inl absent ↦
        rw absent
          (retired-view p.document_id st.documents (none-Cleared st h p.document_id absent) k)
    | inr (d, found) ↦ rw found (
        retired-view p.document_id (mark d.id DocStatus.superseded st.now st.documents)
          (mark-Cleared st h p.document_id DocStatus.superseded d refl found) k)
  ]

  inserted-view :
      (p : Prepared) (st' : Store) (h' : IsIndex st')
      → active_doc p.document_id st'.documents ≡ none
      → (k : String)
      → view (insert_version p (latest p.document_id st'.documents + 1) st') k
        ≡ publish p (view st') k
  inserted-view p st' h' absent k =
      ap₂ publication (documents-insert p st' k) (shown-insert_version p st' h' absent k)
      ∙ by_key (p.document_id == k)
    where
      by_key :
          (b : Bool)
          → publication
              (if b
                then some (
                    facts_of
                      (document_of p st'.next_document (latest p.document_id st'.documents + 1)))
                else current k st'.documents)
              (if b then texts p.chunks else shown k st')
            ≡ (if b
                then some (record {
                  digest = p.digest;
                  model = p.model_id;
                  department = p.department;
                  classification = p.classification;
                  passages = texts p.chunks;
                })
                else view st' k)
      by_key true = unfold document_of in refl
      by_key false = refl

  publish-cleared :
      (p : Prepared) (k : String) → publish p (view (cleared st h p)) k ≡ publish p (view st) k
  publish-cleared p k = ground (arith, cleared-view p k)

  pub swap-view : (p : Prepared) (k : String) → view (swap p st).0 k ≡ perform (view st) (swaps p) k
  unfolding swap
  swap-view p k =
      rw
        (holds-view p.digest p.model_id (shown p.document_id st)
          (active_doc p.document_id st.documents))
        (elim (Bool-cases
          (same_content p.digest p.model_id (active_doc p.document_id st.documents))) [
            | inl same ↦ rw same
            | inr changed ↦
                rw (changed, ← (cleared-latest st h p))
                  (inserted-view p (cleared st h p) (cleared-IsIndex st h p) (cleared-none st h p) k
                    ∙ publish-cleared p k)
          ])

apply-view :
    (st : Store) (e : IndexEvent)
    → IsIndex st
    → (k : String) → view (apply st e) k ≡ perform (view st) e k
unfolding apply
apply-view st (swaps p) h k = swap-view st h p k
apply-view st (deactivates key) h k = deactivate-view st h key k
apply-view st (touches key user_id) h k = rw (current-touch key user_id k st.documents)
apply-view st (time_passes t) h k = refl

-- What readers find in the tables after a sequence of transactions is what the specification has: an
-- ingestion makes its texts, and nothing else, the publication of its key, unless a publication of
-- the same digest and model stands there, which stays; a removal leaves none; and no transaction
-- touches the publication of another key. It is supposed that the tables are in order at the start.
pub view-apply_all :
    (st : Store) (events : List IndexEvent)
    → IsIndex st
    → (k : String) → view (apply_all st events) k ≡ perform_all (view st) events k
unfolding apply_all
view-apply_all st [] h k = refl
view-apply_all st (e ∷ events) h k =
    view-apply_all (apply st e) events (apply-IsIndex st e h) k
    ∙ ap (λ (l : Library). perform_all l events k) (fun_ext (apply-view st e h))
