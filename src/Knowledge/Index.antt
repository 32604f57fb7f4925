-- ===== src/Knowledge/Index.antt =====
-- The tables that src/opsassist/knowledge/ingest.py writes, by the rows of src/opsassist/db/models.py, and
-- its transactions on them: the swap of a document's version, and `deactivate`.
pub mod Rows
pub mod Passages
pub mod Invariant
pub mod Inserted
pub mod Kept
pub mod Refined
pub mod Race
use novax_ai_assignment.Base.{
  ℕ, suc, ◌+◌, max, String, Bool, true, false, ◌&&◌, Option, none, some, List, [], ◌∷◌, ◌++◌, ◌==◌,
  eqb, length, if◌then◌else◌,
}
use novax_ai_assignment.Knowledge.Chunking.{Chunk}

pub data DocStatus : Type 0 where
  active superseded deleted : DocStatus

pub record Document : Type 0 where
  pub id : ℕ
  pub doc_key : String
  pub version : ℕ
  pub title : String
  pub department : String
  pub classification : String
  pub mime_type : String
  pub source_path : String
  pub content_sha256 : String
  pub status : DocStatus
  pub doc_updated_at : String
  pub embedding_model : String
  pub uploaded_by : Option String
  pub chunker : Option String
  pub chunk_count : ℕ
  pub superseded_at : Option ℕ

-- A row of `Chunk` or of `ConfidentialChunk`. The coordinates of the embedding are not looked at.
pub record ChunkRow : Type 0 where
  pub id : ℕ
  pub document_id : ℕ
  pub doc_key : String
  pub version : ℕ
  pub department : String
  pub classification : String
  pub chunk_index : ℕ
  pub parent_index : Option ℕ
  pub locator : String
  pub section : Option String
  pub page : Option ℕ
  pub content : String
  pub context : Option String
  pub headings : List String
  pub embed_text : String
  pub token_count : ℕ
  pub embedding_model : String
  pub embedding : List ℕ
  pub is_active : Bool

-- The three tables, the latest row first, with the next ids and the database's clock.
pub record Store : Type 0 where
  pub documents : List Document
  pub chunks : List ChunkRow
  pub confidential_chunks : List ChunkRow
  pub next_document : ℕ
  pub next_chunk : ℕ
  pub now : ℕ

abbrev pub is_active : DocStatus → Bool
is_active DocStatus.active = true
is_active _ = false

-- `select(Document).where(doc_key == key, status == "active")`
unfoldable pub active_doc : String → List Document → Option Document
active_doc key [] = none
active_doc key (d ∷ ds) =
    if d.doc_key == key && is_active d.status then some d else active_doc key ds

-- `max(version)` of a key; zero where there is none.
unfoldable pub latest : String → List Document → ℕ
latest key [] = 0
latest key (d ∷ ds) = if d.doc_key == key then max d.version (latest key ds) else latest key ds

-- The write of `status` and `superseded_at` to the row with an id.
unfoldable pub mark : ℕ → DocStatus → ℕ → List Document → List Document
mark id status now [] = []
mark id status now (d ∷ ds) =
    if eqb d.id id
    then record d { status = status; superseded_at = some now } ∷ ds
    else d ∷ mark id status now ds

-- `update(chunk_table).where(doc_key == key, is_active).values(is_active=False)`
unfoldable pub retire : String → List ChunkRow → List ChunkRow
retire key [] = []
retire key (c ∷ cs) =
    (if c.doc_key == key && c.is_active then record c { is_active = false } else c) ∷ retire key cs

-- What an ingestion has at hand when it writes: the parsed metadata, the digest, the model, and the
-- chunks with their vectors.
pub record Prepared : Type 0 where
  pub document_id : String
  pub title : String
  pub department : String
  pub classification : String
  pub updated_at : String
  pub mime_type : String
  pub source_path : String
  pub digest : String
  pub model_id : String
  pub chunker_id : String
  pub chunks : List (Chunk × List ℕ)

abbrev pub is_confidential : String → Bool
is_confidential classification = classification == "confidential"

unfoldable pub document_of : Prepared → ℕ → ℕ → Document
document_of p id version = record {
  id = id;
  doc_key = p.document_id;
  version = version;
  title = p.title;
  department = p.department;
  classification = p.classification;
  mime_type = p.mime_type;
  source_path = p.source_path;
  content_sha256 = p.digest;
  status = DocStatus.active;
  doc_updated_at = p.updated_at;
  embedding_model = p.model_id;
  uploaded_by = none;
  chunker = some p.chunker_id;
  chunk_count = length p.chunks;
  superseded_at = none;
}

unfoldable pub row_of : Prepared → ℕ → ℕ → ℕ → Chunk → List ℕ → ChunkRow
row_of p document_id version id c vector = record {
  id = id;
  document_id = document_id;
  doc_key = p.document_id;
  version = version;
  department = p.department;
  classification = p.classification;
  chunk_index = c.index;
  parent_index = some c.parent_index;
  locator = c.locator;
  section = c.section;
  page = c.page_start;
  content = c.text;
  context = if c.context == c.text then none else some c.context;
  headings = c.headings;
  embed_text = c.embed_text;
  token_count = c.token_count;
  embedding_model = p.model_id;
  embedding = vector;
  is_active = true;
}

unfoldable pub rows_of : Prepared → ℕ → ℕ → ℕ → List (Chunk × List ℕ) → List ChunkRow
rows_of p document_id version id [] = []
rows_of p document_id version id ((c, vector) ∷ rest) =
    row_of p document_id version id c vector ∷ rows_of p document_id version (suc id) rest

pub data IngestOutcome : Type 0 where
  indexed unchanged : IngestOutcome

pub record IngestResult : Type 0 where
  pub doc_key : String
  pub version : ℕ
  pub outcome : IngestOutcome
  pub chunks : ℕ

-- `active is not None` with the same content and the same model.
unfoldable pub same_content : String → String → Option Document → Bool
same_content digest model_id none = false
same_content digest model_id (some d) = d.content_sha256 == digest && d.embedding_model == model_id

unfoldable pub unchanged_result : String → Option Document → IngestResult
unchanged_result key none = record {
  doc_key = key;
  version = 0;
  outcome = IngestOutcome.unchanged;
  chunks = 0;
}
unchanged_result key (some d) = record {
  doc_key = key;
  version = d.version;
  outcome = IngestOutcome.unchanged;
  chunks = d.chunk_count;
}

-- `active.status = "superseded"` where there is an active version.
unfoldable pub supersede : Option Document → Store → Store
supersede none st = st
supersede (some d) st = record st { documents = mark d.id DocStatus.superseded st.now st.documents }

-- Both tables, since the classification may have changed.
unfoldable pub retire_chunks : String → Store → Store
retire_chunks key st = record st {
  chunks = retire key st.chunks;
  confidential_chunks = retire key st.confidential_chunks;
}

-- The rows of a new version.
unfoldable pub insert_version : Prepared → ℕ → Store → Store
unfolding document_of rows_of
insert_version p version st =
    let rows = rows_of p st.next_document version st.next_chunk p.chunks in
    let confidential = is_confidential p.classification in
    record st {
      documents = document_of p st.next_document version ∷ st.documents;
      chunks = if confidential then st.chunks else rows ++ st.chunks;
      confidential_chunks =
          if confidential then rows ++ st.confidential_chunks else st.confidential_chunks;
      next_document = suc st.next_document;
      next_chunk = st.next_chunk + length p.chunks;
    }

-- The second transaction of `ingest_file`. The lock on the key makes it one step.
unfoldable pub swap : Prepared → Store → Store × IngestResult
unfolding same_content unchanged_result supersede retire_chunks insert_version
swap p st =
    let found = active_doc p.document_id st.documents in
    let version = latest p.document_id st.documents + 1 in
    if same_content p.digest p.model_id found then (st, unchanged_result p.document_id found) else (
      insert_version p version (retire_chunks p.document_id (supersede found st)),
      record {
        doc_key = p.document_id;
        version = version;
        outcome = IngestOutcome.indexed;
        chunks = length p.chunks;
      },
    )

-- `deactivate` after its read, which takes no lock.
unfoldable pub deactivate_found : String → Option Document → Store → Store × Bool
unfolding retire_chunks
deactivate_found key none st = (st, false)
deactivate_found key (some d) st = (
  retire_chunks key (record st { documents = mark d.id DocStatus.deleted st.now st.documents }),
  true,
)

-- `deactivate` where nothing comes between its read and its writes.
unfoldable pub deactivate : String → Store → Store × Bool
unfolding deactivate_found
deactivate key st = deactivate_found key (active_doc key st.documents) st

-- `touch_provenance` of knowledge/upload.py.
unfoldable pub touch_provenance : String → String → List Document → List Document
touch_provenance key user_id [] = []
touch_provenance key user_id (d ∷ ds) =
    (if d.doc_key == key && is_active d.status then record d { uploaded_by = some user_id } else d)
    ∷ touch_provenance key user_id ds

-- The transactions that change the tables, and the passing of time.
pub data IndexEvent : Type 0 where
  swaps : Prepared → IndexEvent
  deactivates : String → IndexEvent
  touches : String → String → IndexEvent
  time_passes : ℕ → IndexEvent

unfoldable pub apply : Store → IndexEvent → Store
apply st (swaps p) = (swap p st).0
apply st (deactivates key) = (deactivate key st).0
apply st (touches key user_id) = record st { documents = touch_provenance key user_id st.documents }
apply st (time_passes t) = record st { now = st.now + t }

unfoldable pub apply_all : Store → List IndexEvent → Store
unfolding apply
apply_all st [] = st
apply_all st (e ∷ events) = apply_all (apply st e) events
