-- ===== src/Knowledge/Retrieval/Readable.antt =====
-- What src/opsassist/knowledge/retrieval.py returns is what the caller may read, by
-- src/opsassist/policy/access.py.
use novax_ai_assignment.Base.{
  ℕ, suc, String, ◌≡◌, sym, subst, Bool, true, false, ◌&&◌, ◌||◌, Option, none, some, List, [], ◌∷◌,
  ◌==◌, eqb, take, All, All-take, All-imp, All-both, eq_iff, arith, inl, inr, Bool-cases, Result,
  ok, err, ◌>>=◌,
}
use novax_ai_assignment.Gateway.Catalog
use novax_ai_assignment.Gateway.Catalog.{ModelSpec}
use novax_ai_assignment.Gateway.Run.{World, Answer}
use novax_ai_assignment.Gateway.Calls.{Gateway, EmbeddingResult, embed}
use novax_ai_assignment.Policy.Access.{AccessScope, can_read}
use novax_ai_assignment.Knowledge.Index.{Document, ChunkRow, Store, is_confidential}
use novax_ai_assignment.Knowledge.Index.Rows.{Facts, current}
use novax_ai_assignment.Knowledge.Index.Invariant.{Backs, IsIndex, Placed}
use novax_ai_assignment.Knowledge.Retrieval.Sections.{distinct_sections-All, no_misses-All}
use novax_ai_assignment.Knowledge.Retrieval.{
  Table, same_table, SearchKind, Joined, Hit, RetrievedChunk, Candidate, Ranking, RetrievalSettings,
  permitted, document_by_id, matching, shared_acl, confidential_acl, scored, add_hit, add_hits,
  to_chunk, kept_of, distinct_sections, search_table, fuse, gate, kept, missed, limit_of,
  joined_with, is_nil, RetrievalResult, Raised, tables_of, query_vector, retrieve_from, retrieve,
}

-- The searches find rows that match, and no others.
abbrev pub Selects : Ranking → Type 1
Selects rank =
    (P : Joined → Type 0) (kind : SearchKind) (n : ℕ) (js : List Joined)
    → All P js
    → All (λ (x : Hit). P x.found) (rank kind n js)

module _ (scope : AccessScope) (st : Store) where
  -- A row that the caller may read, of the version that is active now.
  pub record RowReadable (r : ChunkRow) : Type 0 where
    pub allowed : can_read scope r.department r.classification ≡ true
    pub from_active : (f : Facts) × (current r.doc_key st.documents ≡ some f) × Backs f r

  -- A retrieved chunk that the caller may read, of the version that is active now.
  pub record Readable (c : RetrievedChunk) : Type 0 where
    pub allowed : can_read scope c.department c.classification ≡ true
    pub from_active :
        (f : Facts) × (current c.doc_key st.documents ≡ some f)
        × (f.version ≡ c.version)
        × (f.department ≡ c.department)
        × (f.classification ≡ c.classification)

  -- The constraint on the classifications of the shared table.
  abbrev pub SharedCheck : ChunkRow → Type 0
  SharedCheck r = r.classification == "public" || r.classification == "internal" ≡ true

  shared-allowed :
      (r : ChunkRow)
      → SharedCheck r
      → shared_acl scope r ≡ true
      → can_read scope r.department r.classification ≡ true
  unfolding shared_acl can_read
  shared-allowed r check acl = ground (arith)

  confidential-allowed :
      (r : ChunkRow)
      → is_confidential r.classification ≡ true
      → confidential_acl scope r ≡ true
      → can_read scope r.department r.classification ≡ true
  unfolding confidential_acl can_read
  confidential-allowed r check acl =
      subst (λ c. can_read scope r.department c ≡ true)
        (sym ((eq_iff r.classification "confidential").0 check)) acl

  permitted-parts :
      (acl : ChunkRow → Bool) (model_id : String) (r : ChunkRow)
      → permitted acl model_id r ≡ true
      → (r.is_active ≡ true) × (acl r ≡ true)
  unfolding permitted
  permitted-parts acl model_id r h = ground arith

  abbrev JoinedReadable : Joined → Type 0
  JoinedReadable j = RowReadable j.row

  joined_with-Readable :
      (r : ChunkRow) (o : Option Document) (rest : List Joined)
      → RowReadable r
      → All JoinedReadable rest
      → All JoinedReadable (joined_with r o rest)
  joined_with-Readable r none rest h all = all
  joined_with-Readable r (some d) rest h all = (h, all)

  matching-Readable :
      (acl : ChunkRow → Bool) (model_id : String) (rows : List ChunkRow)
      → All (λ (r : ChunkRow). permitted acl model_id r ≡ true → RowReadable r) rows
      → All JoinedReadable (matching acl model_id st.documents rows)
  unfolding matching
  matching-Readable acl model_id [] h = tt
  matching-Readable acl model_id (r ∷ rows) h = elim (Bool-cases (permitted acl model_id r)) [
    | inl mine ↦ rw mine (
        joined_with-Readable r (document_by_id r.document_id st.documents)
          (matching acl model_id st.documents rows) (h.0 mine)
          (matching-Readable acl model_id rows h.1))
    | inr other ↦ rw other (matching-Readable acl model_id rows h.1)
  ]

  abbrev CandidateReadable : Candidate → Type 0
  CandidateReadable c = RowReadable c.found.row

  scored-Readable :
      (kind : SearchKind) (rank score : ℕ) (c : Candidate)
      → CandidateReadable c
      → CandidateReadable (scored kind rank score c)
  unfolding scored
  scored-Readable SearchKind.vector rank score c h = h
  scored-Readable SearchKind.fts rank score c h = h

  add_hit-Readable :
      (kind : SearchKind) (table : Table) (rank : ℕ) (x : Hit) (cs : List Candidate)
      → JoinedReadable x.found
      → All CandidateReadable cs
      → All CandidateReadable (add_hit kind table rank x cs)
  unfolding add_hit
  add_hit-Readable kind table rank x [] h all = (scored-Readable kind rank x.score _ h, tt)
  add_hit-Readable kind table rank x (c ∷ cs) h all =
      elim (Bool-cases (same_table c.table table && eqb c.found.row.id x.found.row.id)) [
        | inl same ↦ rw same (scored-Readable kind rank x.score c all.0, all.1)
        | inr other ↦ rw other (all.0, add_hit-Readable kind table rank x cs h all.1)
      ]

  add_hits-Readable :
      (kind : SearchKind) (table : Table) (rank : ℕ) (hits : List Hit) (cs : List Candidate)
      → All (λ (x : Hit). JoinedReadable x.found) hits
      → All CandidateReadable cs
      → All CandidateReadable (add_hits kind table rank hits cs)
  unfolding add_hits
  add_hits-Readable kind table rank [] cs h all = all
  add_hits-Readable kind table rank (x ∷ hits) cs h all =
      add_hits-Readable kind table (suc rank) hits (add_hit kind table rank x cs) h.1
        (add_hit-Readable kind table rank x cs h.0 all)

  to_chunk-Readable : (c : Candidate) → CandidateReadable c → Readable (to_chunk c)
  unfolding to_chunk
  to_chunk-Readable c h =
      let (f, is, backs) = h.from_active in
      record {
        allowed = h.allowed;
        from_active = (f, is, backs.version, backs.department, backs.classification);
      }

  kept_of-Readable :
      (test : Candidate → Bool) (cs : List Candidate)
      → All CandidateReadable cs
      → All Readable (kept_of test cs)
  unfolding kept_of
  kept_of-Readable test [] h = tt
  kept_of-Readable test (c ∷ cs) h = elim (Bool-cases (test c)) [
    | inl on ↦ rw on (to_chunk-Readable c h.0, kept_of-Readable test cs h.1)
    | inr off ↦ rw off (kept_of-Readable test cs h.1)
  ]

  gate-Readable :
      (settings : RetrievalSettings) (min_relevance top_k : Option ℕ) (tables : List Table)
      (fused : List Candidate)
      → All CandidateReadable fused
      → let r = gate settings min_relevance top_k tables fused in
        All Readable r.chunks × All Readable r.near_misses
  unfolding gate kept missed
  gate-Readable settings min_relevance top_k tables fused h =
      let sections = distinct_sections (kept settings min_relevance fused) in
      let near = distinct_sections (missed settings min_relevance fused) in
      (
        All-take Readable (limit_of top_k settings.retrieval_top_k) sections (
            distinct_sections-All Readable (kept settings min_relevance fused)
              (kept_of-Readable _ fused h)),
        no_misses-All Readable sections (take settings.gate_review_max near) (
            All-take Readable settings.gate_review_max near (
              distinct_sections-All Readable (missed settings min_relevance fused)
                (kept_of-Readable _ fused h))),
      )

  module _ (rank : Ranking) (settings : RetrievalSettings) (h : IsIndex st)
      (check : All SharedCheck st.chunks) (selects : Selects rank) where
    search_table-Readable :
        (table : Table) (acl : ChunkRow → Bool) (rows : List ChunkRow) (cs : List Candidate)
        → All
            (λ (r : ChunkRow).
              permitted acl settings.index_embedding_model r ≡ true → RowReadable r)
            rows
        → All CandidateReadable cs
        → All CandidateReadable (search_table rank settings st scope table acl rows cs)
    unfolding search_table
    search_table-Readable table acl rows cs allowed all =
        let found = matching-Readable acl settings.index_embedding_model rows allowed in
        add_hits-Readable SearchKind.fts table 1 _ _
          (selects JoinedReadable SearchKind.fts settings.retrieval_candidates _ found)
          (add_hits-Readable SearchKind.vector table 1 _ cs
            (selects JoinedReadable SearchKind.vector settings.retrieval_candidates _ found) all)

    fuse-Readable : All CandidateReadable (fuse rank settings st scope)
    unfolding fuse
    fuse-Readable = elim (Bool-cases (is_nil scope.confidential_departments)) [
      | inl none_ ↦ rw none_ shared
      | inr some_ ↦ rw some_ (
          search_table-Readable Table.confidential_chunks (confidential_acl scope)
            st.confidential_chunks _
            (All-imp (Placed true st.documents) _ private st.confidential_chunks h.confidential)
            shared)
    ]
      where
        public_ :
            (r : ChunkRow)
            → Placed false st.documents r × SharedCheck r
            → permitted (shared_acl scope) settings.index_embedding_model r ≡ true
            → RowReadable r
        public_ r p q =
            let (on, permits) =
              permitted-parts (shared_acl scope) settings.index_embedding_model r q in
            record { allowed = shared-allowed r p.1 permits; from_active = p.0.1 on }

        private :
            (r : ChunkRow)
            → Placed true st.documents r
            → permitted (confidential_acl scope) settings.index_embedding_model r ≡ true
            → RowReadable r
        private r p q =
            let (on, permits) =
              permitted-parts (confidential_acl scope) settings.index_embedding_model r q in
            record { allowed = confidential-allowed r p.0 permits; from_active = p.1 on }

        shared :
            All CandidateReadable
              (search_table rank settings st scope Table.chunks (shared_acl scope) st.chunks [])
        shared =
            search_table-Readable Table.chunks (shared_acl scope) st.chunks []
              (All-imp (λ r. Placed false st.documents r × SharedCheck r) _ public_ st.chunks
                (All-both (Placed false st.documents) SharedCheck st.chunks h.shared check))
              tt

module _ (g : Gateway)
    (embeds : String → Option (String → List String → String → ℕ → Answer EmbeddingResult))
    (ranking : String → List ℕ → Ranking)
    (selects : (query : String) (qvec : List ℕ) → Selects (ranking query qvec))
    (settings : RetrievalSettings) (query : String) (scope : AccessScope) (top_k : Option ℕ)
    (st : Store) (w : World) (h : IsIndex st) (check : All (SharedCheck scope st) st.chunks) where
  abbrev Right : Result Raised RetrievalResult → Type 0
  Right (err e) = Unit
  Right (ok r) = All (Readable scope st) r.chunks × All (Readable scope st) r.near_misses

  answer-Right :
      (spec : ModelSpec) (v : Result Raised (List ℕ))
      → Right (do
        qvec ← v
        ok (
            gate settings spec.min_relevance top_k
              (tables_of scope)
              (fuse (ranking query qvec) settings st scope)))
  answer-Right spec (err e) = tt
  answer-Right spec (ok qvec) =
      gate-Readable scope st settings spec.min_relevance top_k (tables_of scope) _
        (fuse-Readable scope st (ranking query qvec) settings h check (selects query qvec))

  from-Right :
      (o : Option ModelSpec)
      → Right (retrieve_from g embeds ranking settings query scope top_k o st w).0
  unfolding retrieve_from
  from-Right none = tt
  from-Right (some spec) =
      answer-Right spec (
        query_vector
          (embed g embeds (some settings.index_embedding_model) (query ∷ []) "query" w).0)

  -- Whatever is asked, every chunk that `retrieve` returns for the model, or offers for a review, is one
  -- that `can_read` allows to the caller's scope, and belongs to the version of its document that is
  -- active at that time, with that version's department and classification. It is supposed that the
  -- tables are in order, that the shared table has public and internal rows only, as its constraint
  -- says, and that a search finds rows that match.
  pub retrieve-Readable :
      (r : RetrievalResult)
      → (retrieve g embeds ranking settings query scope top_k st w).0 ≡ ok r
      → All (Readable scope st) r.chunks × All (Readable scope st) r.near_misses
  unfolding retrieve
  retrieve-Readable r is =
      subst Right is (from-Right (Catalog.model g.catalog settings.index_embedding_model))
