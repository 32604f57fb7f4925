-- ===== src/Knowledge/Retrieval/Tests.antt =====
-- The searches of an index with one document, and what their reader gets.
use novax_ai_assignment.Base.{ℕ, ◌≡◌, refl, none, some, List, [], ◌∷◌, All, length, ok}
use novax_ai_assignment.Gateway.Catalog.{ModelSpec, Catalog}
use novax_ai_assignment.Gateway.Run.{Reply, Answer}
use novax_ai_assignment.Gateway.Calls.{Gateway, EmbeddingResult}
use novax_ai_assignment.Gateway.Tests.{gateway, world}
use novax_ai_assignment.Knowledge.Index.{
  ChunkRow, active_doc, latest, document_of, row_of, rows_of, retire, same_content,
  unchanged_result, supersede, retire_chunks, insert_version, swap, apply, apply_all,
}
use novax_ai_assignment.Policy.Access.{AccessScope}
use novax_ai_assignment.Gateway.Run
use novax_ai_assignment.Gateway.Calls
use novax_ai_assignment.Gateway.Breaker
use novax_ai_assignment.Gateway.Catalog
use novax_ai_assignment.Gateway.Catalog.Resolve
use novax_ai_assignment.Knowledge.Retrieval
use novax_ai_assignment.Knowledge.Retrieval.{
  Table, SearchKind, Joined, Hit, Candidate, RetrievalSettings, RetrievalResult, gate, fuse,
  tables_of, query_vector, retrieve_from, retrieve,
}
use novax_ai_assignment.Knowledge.Retrieval.Readable.{
  Selects, SharedCheck, Readable, retrieve-Readable,
}
use novax_ai_assignment.Knowledge.Retrieval.Gated.{IsGated, gate-IsGated}
use novax_ai_assignment.Knowledge.Tests.{
  chunk_of, runbook, indexed, indexed-IsIndex, document, embeds_of,
}

abbrev pub retrieval_settings : RetrievalSettings
retrieval_settings = record {
  index_embedding_model = "embedder";
  retrieval_top_k = 5;
  retrieval_candidates = 20;
  retrieval_relative_margin = 100000;
  gate_review_margin = 50000;
  gate_review_max = 3;
}

abbrev row : ChunkRow
row =
    row_of (runbook "d1" "Restart the service.") 1 1 1 (chunk_of 0 "Restart the service.") (1 ∷ [])

abbrev candidate : Candidate
candidate = record {
  table = Table.chunks;
  found = record { row = row; document = document };
  rrf = 3;
  similarity = some 1800000;
  fts_rank = none;
}

gate-IsGated_example :
    IsGated retrieval_settings
      (some 700000)
      none
      (candidate ∷ [])
      (gate retrieval_settings (some 700000) none (Table.chunks ∷ []) (candidate ∷ []))
gate-IsGated_example =
    gate-IsGated retrieval_settings (some 700000) (candidate ∷ []) none (Table.chunks ∷ [])

abbrev reader : AccessScope
reader = record {
  user_id = "u1";
  internal_departments = "engineering" ∷ [];
  confidential_departments = [];
}

-- Both searches find everything.
abbrev pub rank_of : SearchKind → ℕ → List Joined → List Hit
rank_of kind n [] = []
rank_of kind n (j ∷ js) = record { found = j; score = 1800000 } ∷ rank_of kind n js

rank_of-Selects : Selects rank_of
rank_of-Selects P kind n [] h = tt
rank_of-Selects P kind n (j ∷ js) h = (h.0, rank_of-Selects P kind n js h.1)

abbrev answer : RetrievalResult
answer =
    gate retrieval_settings none none (tables_of reader)
      (fuse rank_of retrieval_settings indexed reader)

answers :
    (retrieve gateway
      (embeds_of 8)
      (λ query vector. rank_of)
      retrieval_settings
      "restart"
      reader
      none
      indexed
      world).0
    ≡ ok answer
unfolding retrieve retrieve_from query_vector Catalog.model Calls.embed Resolve.resolve Catalog.get
    Run.run Run.visit_all Run.next_target Run.visit Run.admit Calls.env_of Breaker.allow Breaker.get
    Run.serve Run.rounds Run.next_round Run.attempt Run.after_reply Run.ask
answers = refl

one_chunk : length answer.chunks ≡ 1
unfolding Retrieval.gate Retrieval.kept Retrieval.missed Retrieval.kept_of Retrieval.best_of
    Retrieval.passes Retrieval.nearly Retrieval.to_chunk Retrieval.distinct_sections
    Retrieval.by_score Retrieval.first_of_each Retrieval.insert Retrieval.same_section
    Retrieval.fuse Retrieval.search_table Retrieval.matching Retrieval.permitted
    Retrieval.document_by_id Retrieval.shared_acl Retrieval.add_hits Retrieval.add_hit
    Retrieval.scored Retrieval.reciprocal apply_all apply swap same_content unchanged_result
    supersede retire_chunks insert_version document_of rows_of row_of active_doc latest retire
one_chunk = refl

indexed-public : All (SharedCheck reader indexed) indexed.chunks
unfolding apply_all swap active_doc row_of retire
indexed-public = (refl, tt)

retrieve-Readable_example :
    All (Readable reader indexed) answer.chunks × All (Readable reader indexed) answer.near_misses
retrieve-Readable_example =
    retrieve-Readable gateway (embeds_of 8) (λ query vector. rank_of)
      (λ query vector. rank_of-Selects) retrieval_settings "restart" reader none indexed world
      indexed-IsIndex indexed-public answer answers
