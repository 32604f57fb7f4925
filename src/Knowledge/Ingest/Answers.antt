-- ===== src/Knowledge/Ingest/Answers.antt =====
-- What `ingest_file` of src/opsassist/knowledge/ingest.py answers, and what the tables hold then.
use novax_ai_assignment.Base.{
  ℕ, ◌+◌, String, ◌≡◌, refl, ◌∙◌, true, false, Option, none, some, List, [], ◌∷◌, map, eq_refl,
  arith, Result, ok, err, inl, inr, Bool-cases, Option-cases,
}
use novax_ai_assignment.Gateway.Run.{World, Answer}
use novax_ai_assignment.Gateway.Calls.{Gateway, EmbeddingResult}
use novax_ai_assignment.Knowledge.Chunking.{Chunk, chunk_document}
use novax_ai_assignment.Knowledge.Index.{
  Document, Store, Prepared, IngestOutcome, IngestResult, IndexEvent, active_doc, latest,
  same_content, unchanged_result, swap, apply_all,
}
use novax_ai_assignment.Knowledge.Index.Passages.{shown, texts}
use novax_ai_assignment.Knowledge.Index.Invariant.{IsIndex}
use novax_ai_assignment.Knowledge.Index.Kept.{apply_all-IsIndex}
use novax_ai_assignment.Knowledge.Index.Refined.{Publication, view, swap-view, holds-view}
use novax_ai_assignment.Knowledge.Ingest.{
  Files, IngestSettings, ParsedDocument, Failure, chunking_config, chunker_id, content_hash,
  admit_file, zip_strict, prepared_of, commit, swap_embedded, embed_and_swap, ingest_admitted,
  ingest_file,
}

abbrev pub texts_of : List Chunk → List String
texts_of chunks = map (λ (c : Chunk). c.text) chunks

pub zip_strict-texts :
    (chunks : List Chunk) (vectors : List (List ℕ)) {pairs : List (Chunk × List ℕ)}
    → zip_strict chunks vectors ≡ some pairs
    → texts pairs ≡ texts_of chunks
unfolding zip_strict
zip_strict-texts [] [] h = ground arith
zip_strict-texts (c ∷ chunks) (v ∷ vectors) h = elim (Option-cases (zip_strict chunks vectors)) [
  | inl e ↦ cc (rw e at h)
  | inr (rest, e) ↦ ground (arith, rw e at h, zip_strict-texts chunks vectors e)
]
zip_strict-texts [] (v ∷ vectors) h = cc
zip_strict-texts (c ∷ chunks) [] h = cc

unchanged-outcome :
    (key : String) (o : Option Document)
    → (unchanged_result key o).outcome ≡ IngestOutcome.unchanged
unfolding unchanged_result
unchanged-outcome key none = refl
unchanged-outcome key (some d) = refl

module _ (files : Files) (g : Gateway)
    (embeds : String → Option (String → List String → String → ℕ → Answer EmbeddingResult))
    (settings : IngestSettings) (path : String) where
  -- What the file at the path is to publish.
  abbrev pub publication_of : ParsedDocument → Publication
  publication_of doc = record {
    digest = content_hash files.sha256 doc (chunker_id (chunking_config settings));
    model = settings.index_embedding_model;
    department = doc.meta.department;
    classification = doc.meta.classification;
    passages =
        texts_of
          (chunk_document files.sentences doc.meta.title doc.blocks (chunking_config settings));
  }

  -- An answer with the tables before and after the call's own write.
  pub data Answers (before : Store) (answer : Result Failure IngestResult) (after : Store)
      : Type 0 where
    failed : (e : Failure) → answer ≡ err e → after ≡ before → Answers before answer after
    same :
        (r : IngestResult)
        → answer ≡ ok r
        → r.outcome ≡ IngestOutcome.unchanged
        → after ≡ before
        → Answers before answer after
    published :
        (doc : ParsedDocument) (source : String) (r : IngestResult)
        → answer ≡ ok r
        → r.outcome ≡ IngestOutcome.indexed
        → admit_file files g.catalog settings path ≡ ok (doc, source)
        → r.version ≡ latest doc.meta.document_id before.documents + 1
        → view after doc.meta.document_id ≡ some (publication_of doc)
        → Answers before answer after

  module _ (doc : ParsedDocument) (source : String)
      (admitted : admit_file files g.catalog settings path ≡ ok (doc, source)) (st : Store)
      (between : List IndexEvent) (start : IsIndex st) where
    abbrev chunks : List Chunk
    chunks = chunk_document files.sentences doc.meta.title doc.blocks (chunking_config settings)

    abbrev digest : String
    digest = content_hash files.sha256 doc (chunker_id (chunking_config settings))

    abbrev prepare : List (Chunk × List ℕ) → Prepared
    prepare =
        prepared_of doc (files.relative_to source (files.resolve settings.knowledge_root)) digest
          settings.index_embedding_model (chunker_id (chunking_config settings))

    abbrev before : Store
    before = apply_all st between

    -- The answer of the swap and of the view that it leaves.
    swapped-view :
        (pairs : List (Chunk × List ℕ))
        → texts pairs ≡ texts_of chunks
        → same_content digest settings.index_embedding_model
            (active_doc doc.meta.document_id before.documents)
          ≡ false
        → view (swap (prepare pairs) before).0 doc.meta.document_id ≡ some (publication_of doc)
    unfolding prepared_of
    swapped-view pairs e changed =
        swap-view before (apply_all-IsIndex st between start) (prepare pairs) doc.meta.document_id
        ∙ rw
            (
              holds-view digest settings.index_embedding_model (shown doc.meta.document_id before)
                  (active_doc doc.meta.document_id before.documents),
              changed,
              eq_refl doc.meta.document_id,
              e,
            )
            refl

    swap-Answers :
        (pairs : List (Chunk × List ℕ))
        → texts pairs ≡ texts_of chunks
        → Answers before (ok (swap (prepare pairs) before).1) (swap (prepare pairs) before).0
    swap-Answers pairs e =
        elim (Bool-cases (
          same_content digest settings.index_embedding_model
            (active_doc doc.meta.document_id before.documents))) [
              | inl old ↦ same_answer old
              | inr changed ↦
                  published doc source (swap (prepare pairs) before).1 refl (new_outcome changed)
                    admitted (new_version changed) (swapped-view pairs e changed)
            ]
      where
        same_answer :
            same_content digest settings.index_embedding_model
                (active_doc doc.meta.document_id before.documents)
              ≡ true
            → Answers before (ok (swap (prepare pairs) before).1) (swap (prepare pairs) before).0
        same_answer old =
            unfold swap prepared_of in
            rw old (
              same
                (unchanged_result doc.meta.document_id
                  (active_doc doc.meta.document_id before.documents))
                refl
                (unchanged-outcome doc.meta.document_id
                  (active_doc doc.meta.document_id before.documents))
                refl)

        new_outcome :
            same_content digest settings.index_embedding_model
                (active_doc doc.meta.document_id before.documents)
              ≡ false
            → (swap (prepare pairs) before).1.outcome ≡ IngestOutcome.indexed
        new_outcome changed = unfold swap prepared_of in rw changed refl

        new_version :
            same_content digest settings.index_embedding_model
                (active_doc doc.meta.document_id before.documents)
              ≡ false
            → (swap (prepare pairs) before).1.version
              ≡ latest doc.meta.document_id before.documents + 1
        new_version changed = unfold swap prepared_of in rw changed refl

    commit-Answers :
        (o : Option (List (Chunk × List ℕ))) (w : World)
        → ((pairs : List (Chunk × List ℕ)) → o ≡ some pairs → texts pairs ≡ texts_of chunks)
        → Answers before (commit prepare o before w).answer (commit prepare o before w).store
    unfolding commit
    commit-Answers none w e = failed _ refl refl
    commit-Answers (some pairs) w e = swap-Answers pairs (e pairs refl)

    embedded-Answers :
        (r : Result Failure (List (List ℕ)) × World)
        → let i = swap_embedded chunks prepare st between r in Answers before i.answer i.store
    unfolding swap_embedded
    embedded-Answers (err e, w) = failed e refl refl
    embedded-Answers (ok vectors, w) =
        commit-Answers (zip_strict chunks vectors) w (λ pairs. zip_strict-texts chunks vectors)

  module _ (st : Store) (between : List IndexEvent) (w : World) (start : IsIndex st) where
    admitted-Answers :
        (r : Result Failure (ParsedDocument × String))
        → admit_file files g.catalog settings path ≡ r
        → let i = ingest_admitted files g embeds settings r st between w in
          Answers (apply_all st between) i.answer i.store
    unfolding ingest_admitted embed_and_swap
    admitted-Answers (err e) h = failed e refl refl
    admitted-Answers (ok (doc, source)) h =
        elim (Bool-cases (
          same_content (content_hash files.sha256 doc (chunker_id (chunking_config settings)))
            settings.index_embedding_model (active_doc doc.meta.document_id st.documents))) [
              | inl old ↦ rw old (
                  same
                    (unchanged_result doc.meta.document_id
                      (active_doc doc.meta.document_id st.documents))
                    refl
                    (unchanged-outcome doc.meta.document_id
                      (active_doc doc.meta.document_id st.documents))
                    refl)
              | inr changed ↦ rw changed (embedded-Answers doc source h st between start _)
            ]

    -- A call of `ingest_file`, whatever the file, the models and the transactions of others are: an
    -- exception, and the answer `unchanged`, leave the tables as the others left them; the answer
    -- `indexed` is given only for a file that passed the checks, with a version above all earlier
    -- ones of its key, and then the key's publication is the content of this file, complete, under
    -- the department and classification of its metadata. The tables are in order at the start.
    pub ingest_file-Answers :
        let i = ingest_file files g embeds settings path st between w in
        Answers (apply_all st between) i.answer i.store
    unfolding ingest_file
    ingest_file-Answers = admitted-Answers (admit_file files g.catalog settings path) refl
