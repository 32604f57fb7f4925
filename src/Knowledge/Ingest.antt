-- ===== src/Knowledge/Ingest.antt =====
-- src/opsassist/knowledge/ingest.py: `ingest_file`, its checks, the batches of embeddings and its two
-- transactions, between which others may commit. What `parse_file` returns is an argument.

pub mod Answers
use novax_ai_assignment.Base.{
  ℕ, zero, suc, ◌+◌, ◌-◌, ◌/◌, String, Bool, true, false, not, ◌&&◌, ◌||◌, Option, none, some, List,
  [], ◌∷◌, ◌++◌, map, ◌==◌, eqb, length, take, drop, contains, join, show, Result, ok, err, ◌>>=◌,
  ◌>>◌, raise_if, or_raise, if◌then◌else◌,
}
use novax_ai_assignment.Gateway.Catalog
use novax_ai_assignment.Gateway.Catalog.{ModelKind, ModelSpec, Catalog, ProviderConfig}
use novax_ai_assignment.Gateway.Run.{World, Ended, Answer}
use novax_ai_assignment.Gateway.Calls.{Gateway, Outcome, EmbeddingResult, embed}
use novax_ai_assignment.Knowledge.Chunking.{Block, ChunkingConfig, Chunk, chunk_document}
use novax_ai_assignment.Knowledge.Index.{
  Store, Prepared, IngestResult, IndexEvent, is_confidential, active_doc, same_content,
  unchanged_result, swap, apply_all,
}

-- The exceptions that leave an ingestion: the permanent ones, those of a call of a model or of the
-- database, and what is no `Exception`, such as a cancellation.
pub data FailureKind : Type 0 where
  policy parse not_found other interrupted : FailureKind

pub record Failure : Type 0 where
  pub kind : FailureKind
  pub name : String
  pub message : String

abbrev pub policy_error : String → Failure
policy_error message = record {
  kind = FailureKind.policy;
  name = "IngestionPolicyError";
  message = message;
}

abbrev pub other_error : String → Failure
other_error name = record { kind = FailureKind.other; name = name; message = "" }

pub record DocumentMeta : Type 0 where
  pub document_id : String
  pub title : String
  pub department : String
  pub classification : String
  pub updated_at : String
  pub source : Option String

pub record ParsedDocument : Type 0 where
  pub meta : DocumentMeta
  pub blocks : List Block
  pub mime_type : String

-- What is hashed: `json.dumps` of the metadata, the texts with their headings, and the chunker.
pub record Payload : Type 0 where
  pub meta : DocumentMeta
  pub blocks : List (String × List String)
  pub chunker : String

-- Python's paths, the parser, the split at sentence ends, and SHA-256 of the JSON text.
pub record Files : Type 0 where
  pub resolve : String → String
  pub is_relative_to : String → String → Bool
  pub suffix_lower : String → String
  pub relative_to : String → String → String
  pub parse_file : String → Result Failure ParsedDocument
  pub sentences : String → List String
  pub sha256 : Payload → String

pub record IngestSettings : Type 0 where
  pub index_embedding_model : String
  pub knowledge_root : String
  pub chunk_target_tokens : ℕ
  pub chunk_max_tokens : ℕ

abbrev pub index_dimensions : ℕ
index_dimensions = 768

abbrev pub embed_batch : ℕ
embed_batch = 32

abbrev pub supported_suffixes : List String
supported_suffixes = ".md" ∷ ".markdown" ∷ ".txt" ∷ ".pdf" ∷ []

unfoldable pub chunking_config : IngestSettings → ChunkingConfig
chunking_config settings = record {
  target_tokens = settings.chunk_target_tokens;
  max_tokens = settings.chunk_max_tokens;
  split_tokens = 160;
}

-- `ChunkingConfig.chunker_id`
unfoldable pub chunker_id : ChunkingConfig → String
chunker_id cfg = join "parent_child/v2:" (
    join (show cfg.target_tokens)
      (join "/" (join (show cfg.max_tokens) (join "/" (show cfg.split_tokens)))))

unfoldable pub content_hash : (Payload → String) → ParsedDocument → String → String
content_hash sha256 doc chunker = sha256 (record {
  meta = doc.meta;
  blocks = map (λ (b : Block). (b.text, b.headings)) doc.blocks;
  chunker = chunker;
})

unfoldable pub resolve_within_root : Files → String → String → Result Failure String
resolve_within_root files path root =
    let resolved = files.resolve path in
    if not (files.is_relative_to resolved (files.resolve root))
    then err (policy_error (join path " is outside the knowledge root"))
    else if not (contains supported_suffixes (files.suffix_lower resolved))
    then err (policy_error (join path ": unsupported file type"))
    else ok resolved

unfoldable pub is_index_model : ModelSpec → Bool
is_index_model spec = is_embedding spec.kind && has_dimensions spec.dimensions
  where
    is_embedding : ModelKind → Bool
    is_embedding ModelKind.chat = false
    is_embedding ModelKind.embedding = true

    has_dimensions : Option ℕ → Bool
    has_dimensions none = false
    has_dimensions (some n) = eqb n index_dimensions

unfoldable pub check_embedding_model : Catalog → String → Result Failure ModelSpec
check_embedding_model catalog model_id = do
  spec ← or_raise (Catalog.model catalog model_id) (other_error "KeyError")
  raise_if (not (is_index_model spec)) (
      policy_error
        (join "index embedding model " (join model_id " must be a 768-d embedding model")))
  ok spec

-- The checks before the first transaction: the document and the file that it comes from.
unfoldable pub admit_file :
    Files → Catalog → IngestSettings → String → Result Failure (ParsedDocument × String)
unfolding check_embedding_model resolve_within_root
admit_file files catalog settings path = do
  spec ← check_embedding_model catalog settings.index_embedding_model
  source ← resolve_within_root files path settings.knowledge_root
  doc ← files.parse_file source
  provider ← or_raise (Catalog.get spec.provider catalog.providers) (other_error "KeyError")
  raise_if (provider.data_egress && is_confidential doc.meta.classification) (
      policy_error
        (join doc.meta.document_id " is confidential and the index model sends data off-box"))
  ok (doc, source)

-- The vectors of a batch; a `GatewayError` is one of the errors that a later attempt may not meet.
unfoldable pub vectors_of : Outcome EmbeddingResult → Result Failure (List (List ℕ))
vectors_of (Outcome.unresolved e) = err (other_error "UnknownModelError")
vectors_of Outcome.no_provider = err (other_error "KeyError")
vectors_of (Outcome.ended route (Ended.returned r spec attempts)) = ok r.vectors
vectors_of (Outcome.ended route (Ended.failed code attempts)) = err (other_error "GatewayError")
vectors_of (Outcome.ended route Ended.cancelled) =
    err (record { kind = FailureKind.interrupted; name = "CancelledError"; message = "" })
vectors_of (Outcome.ended route Ended.crashed) = err (other_error "Exception")

unfoldable pub and_rest :
    Result Failure (List (List ℕ))
    → World
    → Result Failure (List (List ℕ)) × World
    → Result Failure (List (List ℕ)) × World
and_rest (err e) w' rest = (err e, w')
and_rest (ok vectors) w' (err e, w'') = (err e, w'')
and_rest (ok vectors) w' (ok more, w'') = (ok (vectors ++ more), w'')

-- The loop over the batches; the first argument is the number of batches that are left.
unfoldable pub embed_batches :
    (List String → World → Outcome EmbeddingResult × World)
    → ℕ
    → List String
    → World
    → Result Failure (List (List ℕ)) × World
unfolding vectors_of and_rest
embed_batches call zero inputs w = (ok [], w)
embed_batches call (suc n) inputs w =
    let (outcome, w') = call (take embed_batch inputs) w in
    let rest = embed_batches call n (drop embed_batch inputs) w' in
    and_rest (vectors_of outcome) w' rest

unfoldable pub with_pair {ℓ} : {A : Type ℓ} → A → Option (List A) → Option (List A)
with_pair pair none = none
with_pair pair (some rest) = some (pair ∷ rest)

-- `zip(chunks, vectors, strict=True)`
unfoldable pub zip_strict {ℓ κ} :
    {A : Type ℓ} {B : Type κ} → List A → List B → Option (List (A × B))
unfolding with_pair
zip_strict [] [] = some []
zip_strict (x ∷ xs) (y ∷ ys) = with_pair (x, y) (zip_strict xs ys)
zip_strict _ _ = none

-- What an ingestion leaves: its answer, the tables and the world of the gateway.
pub record Ingested : Type 0 where
  pub answer : Result Failure IngestResult
  pub store : Store
  pub world : World

unfoldable pub prepared_of :
    ParsedDocument → String → String → String → String → List (Chunk × List ℕ) → Prepared
prepared_of doc source_path digest model_id chunker chunks = record {
  document_id = doc.meta.document_id;
  title = doc.meta.title;
  department = doc.meta.department;
  classification = doc.meta.classification;
  updated_at = doc.meta.updated_at;
  mime_type = doc.mime_type;
  source_path = source_path;
  digest = digest;
  model_id = model_id;
  chunker_id = chunker;
  chunks = chunks;
}

-- The second transaction. Vectors that do not fit the chunks raise inside it, and it is rolled back.
unfoldable pub commit :
    (List (Chunk × List ℕ) → Prepared) → Option (List (Chunk × List ℕ)) → Store → World → Ingested
commit prepare none st w = record { answer = err (other_error "ValueError"); store = st; world = w }
commit prepare (some pairs) st w =
    let (st', result) = swap (prepare pairs) st in
    record { answer = ok result; store = st'; world = w }

-- The second transaction, once the chunks are embedded; `between` is what others commit before it.
unfoldable pub swap_embedded :
    List Chunk
    → (List (Chunk × List ℕ) → Prepared)
    → Store
    → List IndexEvent
    → Result Failure (List (List ℕ)) × World
    → Ingested
unfolding commit
swap_embedded chunks prepare st between (err e, w) = record {
  answer = err e;
  store = apply_all st between;
  world = w;
}
swap_embedded chunks prepare st between (ok vectors, w) =
    commit prepare (zip_strict chunks vectors) (apply_all st between) w

module _ (files : Files) (g : Gateway)
    (embeds : String → Option (String → List String → String → ℕ → Answer EmbeddingResult))
    (settings : IngestSettings) where
  -- What follows the first transaction.
  unfoldable pub embed_and_swap :
      ParsedDocument → String → String → Store → List IndexEvent → World → Ingested
  unfolding swap_embedded
  embed_and_swap doc source digest st between w =
      let cfg = chunking_config settings in
      let chunks = chunk_document files.sentences doc.meta.title doc.blocks cfg in
      let prepare =
        prepared_of doc (files.relative_to source (files.resolve settings.knowledge_root)) digest
          settings.index_embedding_model (chunker_id cfg) in
      swap_embedded chunks prepare st between (
        embed_batches
          (λ batch w. embed g embeds (some settings.index_embedding_model) batch "passage" w)
          ((length chunks + (embed_batch - 1)) / embed_batch)
          (map (λ (c : Chunk). c.embed_text) chunks) w)

  unfoldable pub ingest_admitted :
      Result Failure (ParsedDocument × String) → Store → List IndexEvent → World → Ingested
  unfolding embed_and_swap
  ingest_admitted (err e) st between w = record {
    answer = err e;
    store = apply_all st between;
    world = w;
  }
  ingest_admitted (ok (doc, source)) st between w =
      let digest = content_hash files.sha256 doc (chunker_id (chunking_config settings)) in
      let found = active_doc doc.meta.document_id st.documents in
      if same_content digest settings.index_embedding_model found
      then record {
        answer = ok (unchanged_result doc.meta.document_id found);
        store = apply_all st between;
        world = w;
      }
      else embed_and_swap doc source digest st between w

  -- `ingest_file`
  unfoldable pub ingest_file : String → Store → List IndexEvent → World → Ingested
  unfolding ingest_admitted
  ingest_file path st between w =
      ingest_admitted (admit_file files g.catalog settings path) st between w
