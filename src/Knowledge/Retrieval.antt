-- ===== src/Knowledge/Retrieval.antt =====
-- src/opsassist/knowledge/retrieval.py. A similarity is in millionths and counted from -1, so that none is
-- negative and 0.0 is a million; a score of the fusion is in units of 10 ^ -18, rounded down.
pub mod Sections
pub mod Gated
pub mod Readable
pub mod Tests
use novax_ai_assignment.Base.{
  ℕ, suc, ◌+◌, ◌-◌, ◌/◌, max, String, Bool, true, false, not, ◌&&◌, ◌||◌, Option, none, some, List,
  [], ◌∷◌, ◌==◌, eqb, leb, ltb, length, take, contains, any, Result, ok, err, ◌>>=◌, if◌then◌else◌,
}
use novax_ai_assignment.Gateway.Records.{GatewayErrorCode, AttemptRecord}
use novax_ai_assignment.Gateway.Catalog
use novax_ai_assignment.Gateway.Catalog.{ModelSpec}
use novax_ai_assignment.Gateway.Run.{World, Ended, Answer}
use novax_ai_assignment.Gateway.Calls.{Gateway, Outcome, EmbeddingResult, embed}
use novax_ai_assignment.Policy.Access.{AccessScope}
use novax_ai_assignment.Knowledge.Index.{Document, ChunkRow, Store}

abbrev pub rrf_k : ℕ
rrf_k = 60

abbrev pub one : ℕ
one = 1000000

-- `1.0 / (RRF_K + rank)`
unfoldable pub reciprocal : ℕ → ℕ
reciprocal rank = 1000000000000000000 / (rrf_k + rank)

pub data Table : Type 0 where
  chunks confidential_chunks : Table

abbrev pub same_table : Table → Table → Bool
same_table Table.chunks Table.chunks = true
same_table Table.confidential_chunks Table.confidential_chunks = true
same_table _ _ = false

pub data SearchKind : Type 0 where
  vector fts : SearchKind

-- A chunk with the document that it is joined with.
pub record Joined : Type 0 where
  pub row : ChunkRow
  pub document : Document

pub record Hit : Type 0 where
  pub found : Joined
  pub score : ℕ

pub record RetrievedChunk : Type 0 where
  pub chunk_id : ℕ
  pub table : Table
  pub doc_key : String
  pub version : ℕ
  pub title : String
  pub department : String
  pub classification : String
  pub locator : String
  pub parent_id : ℕ × Option ℕ
  pub content : String
  pub context : String
  pub doc_updated_at : String
  pub similarity : Option ℕ
  pub fts_rank : Option ℕ
  pub score : ℕ

-- `_Candidate`
pub record Candidate : Type 0 where
  pub table : Table
  pub found : Joined
  pub rrf : ℕ
  pub similarity : Option ℕ
  pub fts_rank : Option ℕ

-- `coalesce(c.context, c.content)`
abbrev pub context_of : ChunkRow → Option String → String
context_of r none = r.content
context_of r (some context) = context

unfoldable pub to_chunk : Candidate → RetrievedChunk
to_chunk c = record {
  chunk_id = c.found.row.id;
  table = c.table;
  doc_key = c.found.row.doc_key;
  version = c.found.row.version;
  title = c.found.document.title;
  department = c.found.row.department;
  classification = c.found.row.classification;
  locator = c.found.row.locator;
  parent_id = (c.found.row.document_id, c.found.row.parent_index);
  content = c.found.row.content;
  context = context_of c.found.row c.found.row.context;
  doc_updated_at = c.found.document.doc_updated_at;
  similarity = c.similarity;
  fts_rank = c.fts_rank;
  score = c.rrf;
}

-- The document of a row, by its id.
unfoldable pub document_by_id : ℕ → List Document → Option Document
document_by_id id [] = none
document_by_id id (d ∷ ds) = if eqb d.id id then some d else document_by_id id ds

abbrev pub joined_with : ChunkRow → Option Document → List Joined → List Joined
joined_with r none rest = rest
joined_with r (some d) rest = record { row = r; document = d } ∷ rest

-- The condition of `_candidate_sql`, which both searches have.
unfoldable pub permitted : (ChunkRow → Bool) → String → ChunkRow → Bool
permitted acl model_id r = r.is_active && r.embedding_model == model_id && acl r

-- The rows that the condition leaves, joined with their documents.
unfoldable pub matching : (ChunkRow → Bool) → String → List Document → List ChunkRow → List Joined
unfolding permitted document_by_id
matching acl model_id ds [] = []
matching acl model_id ds (r ∷ rows) =
    let rest = matching acl model_id ds rows in
    if permitted acl model_id r then joined_with r (document_by_id r.document_id ds) rest else rest

-- The two conditions on the caller's scope.
unfoldable pub shared_acl : AccessScope → ChunkRow → Bool
shared_acl scope r =
    r.classification == "public" || contains scope.internal_departments r.department

unfoldable pub confidential_acl : AccessScope → ChunkRow → Bool
confidential_acl scope r = contains scope.confidential_departments r.department

unfoldable pub scored : SearchKind → ℕ → ℕ → Candidate → Candidate
unfolding reciprocal
scored SearchKind.vector rank score c = record c {
  rrf = c.rrf + reciprocal rank;
  similarity = some score;
}
scored SearchKind.fts rank score c = record c {
  rrf = c.rrf + reciprocal rank;
  fts_rank = some score;
}

-- `fused.setdefault((table, id), ...)` and what the loop adds to the candidate.
unfoldable pub add_hit : SearchKind → Table → ℕ → Hit → List Candidate → List Candidate
unfolding scored
add_hit kind table rank h [] =
    scored kind rank h.score
      (record { table = table; found = h.found; rrf = 0; similarity = none; fts_rank = none })
    ∷ []
add_hit kind table rank h (c ∷ cs) =
    if same_table c.table table && eqb c.found.row.id h.found.row.id
    then scored kind rank h.score c ∷ cs
    else c ∷ add_hit kind table rank h cs

unfoldable pub add_hits : SearchKind → Table → ℕ → List Hit → List Candidate → List Candidate
unfolding add_hit
add_hits kind table rank [] cs = cs
add_hits kind table rank (h ∷ hits) cs =
    add_hits kind table (suc rank) hits (add_hit kind table rank h cs)

abbrev pub larger : Option ℕ → Option ℕ → Option ℕ
larger none b = b
larger (some a) none = some a
larger (some a) (some b) = some (max a b)

-- `max((c.similarity ...), default=0.0)`
unfoldable pub best_of : List Candidate → Option ℕ
best_of [] = none
best_of (c ∷ cs) = larger c.similarity (best_of cs)

-- `x or 0.0`
abbrev pub or_zero_similarity : Option ℕ → ℕ
or_zero_similarity none = one
or_zero_similarity (some s) = s

-- The settings that a retrieval reads; margins are in millionths.
pub record RetrievalSettings : Type 0 where
  pub index_embedding_model : String
  pub retrieval_top_k : ℕ
  pub retrieval_candidates : ℕ
  pub retrieval_relative_margin : ℕ
  pub gate_review_margin : ℕ
  pub gate_review_max : ℕ

-- A candidate is kept: its similarity is at least `max(threshold, best - margin)`.
unfoldable pub passes : RetrievalSettings → ℕ → ℕ → Option ℕ → Bool
passes settings threshold best none = false
passes settings threshold best (some s) =
    leb threshold s && leb best (s + settings.retrieval_relative_margin)

unfoldable pub nearly : RetrievalSettings → ℕ → Option ℕ → Bool
nearly settings threshold similarity =
    not (eqb settings.gate_review_margin 0)
    && leb threshold (or_zero_similarity similarity + settings.gate_review_margin)

-- `kept` and `missed` of the gate's loop.
unfoldable pub kept_of : (Candidate → Bool) → List Candidate → List RetrievedChunk
unfolding to_chunk
kept_of test [] = []
kept_of test (c ∷ cs) = let rest = kept_of test cs in if test c then to_chunk c ∷ rest else rest

-- `sorted(chunks, key=score, reverse=True)`, which keeps the order of equals.
unfoldable pub insert : RetrievedChunk → List RetrievedChunk → List RetrievedChunk
insert x [] = x ∷ []
insert x (y ∷ ys) = if ltb x.score y.score then y ∷ insert x ys else x ∷ y ∷ ys

unfoldable pub by_score : List RetrievedChunk → List RetrievedChunk
unfolding insert
by_score [] = []
by_score (x ∷ xs) = insert x (by_score xs)

abbrev pub same_index : Option ℕ → Option ℕ → Bool
same_index none none = true
same_index (some a) (some b) = eqb a b
same_index _ _ = false

abbrev pub same_locator : Option ℕ → String → String → Bool
same_locator none s t = s == t
same_locator (some i) s t = true

-- Two chunks of one section: by the parent's identity, or by the locator where there is no parent.
unfoldable pub same_section : RetrievedChunk → RetrievedChunk → Bool
same_section a b =
    same_table a.table b.table
    && eqb a.parent_id.0 b.parent_id.0
    && same_index a.parent_id.1 b.parent_id.1
    && same_locator a.parent_id.1 a.locator b.locator

-- The loop of `_distinct_sections`; the first argument is what `seen` holds the keys of.
unfoldable pub first_of_each : List RetrievedChunk → List RetrievedChunk → List RetrievedChunk
unfolding same_section
first_of_each seen [] = []
first_of_each seen (c ∷ cs) =
    let skipped = first_of_each seen cs in
    let taken = c ∷ first_of_each (c ∷ seen) cs in
    if any (same_section c) seen then skipped else taken

unfoldable pub distinct_sections : List RetrievedChunk → List RetrievedChunk
unfolding by_score first_of_each
distinct_sections cs = first_of_each [] (by_score cs)

pub record RetrievalResult : Type 0 where
  pub chunks : List RetrievedChunk
  pub candidates : ℕ
  pub below_threshold : ℕ
  pub embedding_model : String
  pub tables : List Table
  pub near_misses : List RetrievedChunk
  pub reviewed : ℕ
  pub admitted_by_review : ℕ

-- `top_k or settings.retrieval_top_k`
abbrev pub limit_of : Option ℕ → ℕ → ℕ
limit_of none default = default
limit_of (some k) default = if eqb k 0 then default else k

abbrev pub no_misses : List RetrievedChunk → List RetrievedChunk → List RetrievedChunk
no_misses [] near = near
no_misses (c ∷ cs) near = []

abbrev pub threshold_of : Option ℕ → ℕ
threshold_of none = one
threshold_of (some r) = one + r

-- `kept` and `missed` after the loop.
unfoldable pub kept : RetrievalSettings → Option ℕ → List Candidate → List RetrievedChunk
unfolding best_of passes kept_of
kept settings min_relevance fused =
    let best = or_zero_similarity (best_of fused) in
    kept_of (λ (c : Candidate). passes settings (threshold_of min_relevance) best c.similarity)
      fused

unfoldable pub missed : RetrievalSettings → Option ℕ → List Candidate → List RetrievedChunk
unfolding best_of passes nearly kept_of
missed settings min_relevance fused =
    let best = or_zero_similarity (best_of fused) in
    kept_of
      (λ (c : Candidate).
        not (passes settings (threshold_of min_relevance) best c.similarity)
        && nearly settings (threshold_of min_relevance) c.similarity)
      fused

-- From the candidates to the result.
unfoldable pub gate :
    RetrievalSettings → Option ℕ → Option ℕ → List Table → List Candidate → RetrievalResult
unfolding kept missed distinct_sections
gate settings min_relevance top_k tables fused =
    let sections = distinct_sections (kept settings min_relevance fused) in
    let near = distinct_sections (missed settings min_relevance fused) in
    record {
      chunks = take (limit_of top_k settings.retrieval_top_k) sections;
      candidates = length fused;
      below_threshold = length fused - length (kept settings min_relevance fused);
      embedding_model = settings.index_embedding_model;
      tables = tables;
      near_misses = no_misses sections (take settings.gate_review_max near);
      reviewed = 0;
      admitted_by_review = 0;
    }

-- What the database's two searches find, best first, at most so many: for a question and its vector.
abbrev pub Ranking : Type 0
Ranking = SearchKind → ℕ → List Joined → List Hit

abbrev pub is_nil {ℓ} : {A : Type ℓ} → List A → Bool
is_nil [] = true
is_nil (x ∷ xs) = false

unfoldable pub tables_of : AccessScope → List Table
tables_of scope =
    if is_nil scope.confidential_departments
    then Table.chunks ∷ []
    else Table.chunks ∷ Table.confidential_chunks ∷ []

module _ (rank : Ranking) (settings : RetrievalSettings) (st : Store) (scope : AccessScope) where
  -- The searches of one table.
  unfoldable pub search_table :
      Table → (ChunkRow → Bool) → List ChunkRow → List Candidate → List Candidate
  unfolding matching add_hits
  search_table table acl rows cs =
      let found = matching acl settings.index_embedding_model st.documents rows in
      add_hits SearchKind.fts table 1 (rank SearchKind.fts settings.retrieval_candidates found) (
        add_hits SearchKind.vector table 1
          (rank SearchKind.vector settings.retrieval_candidates found) cs)

  -- The candidates of all tables that the scope allows.
  unfoldable pub fuse : List Candidate
  unfolding search_table shared_acl confidential_acl
  fuse =
      let shared = search_table Table.chunks (shared_acl scope) st.chunks [] in
      if is_nil scope.confidential_departments
      then shared
      else search_table Table.confidential_chunks (confidential_acl scope) st.confidential_chunks
          shared

-- What leaves a retrieval or a call of a model: a `GatewayError`, or another exception.
pub data Raised : Type 0 where
  gateway_error : GatewayErrorCode → List AttemptRecord → Raised
  escaped : Raised

abbrev pub first_vector : List (List ℕ) → Result Raised (List ℕ)
first_vector [] = err escaped
first_vector (v ∷ vectors) = ok v

unfoldable pub query_vector : Outcome EmbeddingResult → Result Raised (List ℕ)
query_vector (Outcome.unresolved e) = err escaped
query_vector Outcome.no_provider = err escaped
query_vector (Outcome.ended route (Ended.failed code attempts)) = err (gateway_error code attempts)
query_vector (Outcome.ended route Ended.cancelled) = err escaped
query_vector (Outcome.ended route Ended.crashed) = err escaped
query_vector (Outcome.ended route (Ended.returned r spec attempts)) = first_vector r.vectors

module _ (g : Gateway)
    (embeds : String → Option (String → List String → String → ℕ → Answer EmbeddingResult))
    (ranking : String → List ℕ → Ranking) (settings : RetrievalSettings) where
  unfoldable pub retrieve_from :
      String
      → AccessScope
      → Option ℕ
      → Option ModelSpec
      → Store
      → World
      → Result Raised RetrievalResult × World
  unfolding query_vector fuse tables_of gate
  retrieve_from query scope top_k none st w = (err escaped, w)
  retrieve_from query scope top_k (some spec) st w =
      let (outcome, w') =
        embed g embeds (some settings.index_embedding_model) (query ∷ []) "query" w in
      (
        do
          qvec ← query_vector outcome
          ok (
              gate settings spec.min_relevance top_k (tables_of scope)
                (fuse (ranking query qvec) settings st scope)),
        w',
      )

  -- `retrieve`
  unfoldable pub retrieve :
      String → AccessScope → Option ℕ → Store → World → Result Raised RetrievalResult × World
  unfolding retrieve_from
  retrieve query scope top_k st w =
      retrieve_from query scope top_k (Catalog.model g.catalog settings.index_embedding_model) st w
