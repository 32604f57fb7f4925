-- ===== src/Knowledge/Tests.antt =====
-- A document of three short paragraphs under two headings, and an index that its owner keeps up to date.
use novax_ai_assignment.Base.{
  ℕ, zero, suc, ◌+◌, String, ◌≡◌, refl, true, false, Option, none, some, List, [], ◌∷◌, All, map,
  arith, Result, ok, err,
}
use novax_ai_assignment.Gateway.Catalog.{ModelSpec}
use novax_ai_assignment.Gateway.Run.{Reply, Answer}
use novax_ai_assignment.Gateway.Calls.{Gateway, EmbeddingResult}
use novax_ai_assignment.Gateway.Tests.{catalog, gateway, world, embedder}
use novax_ai_assignment.Knowledge.Chunking.{
  Block, TextUnit, Chunk, default_config, pack_units, chunk_document,
}
use novax_ai_assignment.Knowledge.Chunking.Packing.{concat, IsGroup, pack_units-IsPacking}
use novax_ai_assignment.Knowledge.Chunking.Numbers.{Numbered, chunk_document-Numbered}
use novax_ai_assignment.Knowledge.Index.{
  Document, Store, Prepared, IngestResult, IndexEvent, active_doc, latest, document_of, rows_of,
  same_content, unchanged_result, supersede, retire_chunks, insert_version, swap, deactivate_found,
  apply, apply_all,
}
use novax_ai_assignment.Knowledge.Index.Rows.{actives}
use novax_ai_assignment.Knowledge.Index.Passages.{visible}
use novax_ai_assignment.Knowledge.Index.Invariant.{IsIndex}
use novax_ai_assignment.Knowledge.Index.Kept.{apply_all-IsIndex}
use novax_ai_assignment.Knowledge.Index.Refined.{view, perform_all, view-apply_all}
use novax_ai_assignment.Knowledge.Index.Race.{IsLost, deactivate-IsLost}
use novax_ai_assignment.Knowledge.Ingest.{
  Failure, Files, IngestSettings, policy_error, other_error, ingest_file,
}
use novax_ai_assignment.Knowledge.Ingest.Answers.{Answers, ingest_file-Answers}
use novax_ai_assignment.Knowledge.Worker.{Job, enqueued, deliver}
use novax_ai_assignment.Knowledge.Worker.Attempts.{Ends, deliver-Ends}

abbrev unit_at : ℕ → String → TextUnit
unit_at n heading = record {
  text = "Restart the service.";
  ordinal = n;
  page = none;
  headings = heading ∷ [];
}

abbrev units : List TextUnit
units = unit_at 1 "Runbook" ∷ unit_at 2 "Runbook" ∷ unit_at 3 "Contacts" ∷ []

pack_units-IsPacking_example :
    (concat (pack_units units 64) ≡ units) × All (IsGroup 64) (pack_units units 64)
pack_units-IsPacking_example = pack_units-IsPacking 64 units

abbrev block : String → String → Block
block kind heading = record {
  kind = kind;
  text = "Restart the service.";
  page = none;
  headings = heading ∷ [];
}

abbrev blocks : List Block
blocks = block "heading" "Runbook" ∷ block "paragraph" "Runbook" ∷ block "paragraph" "Contacts" ∷ []

chunk_document-Numbered_example :
    Numbered 0 (chunk_document (λ s. s ∷ []) "Payments" blocks default_config)
chunk_document-Numbered_example =
    chunk_document-Numbered (λ s. s ∷ []) "Payments" blocks default_config

abbrev pub before : Store
before = record {
  documents = [];
  chunks = [];
  confidential_chunks = [];
  next_document = 1;
  next_chunk = 1;
  now = 0;
}

before-IsIndex : IsIndex before
unfolding actives latest visible active_doc
before-IsIndex = record {
  distinct = tt;
  below = tt;
  single = λ k. omega arith;
  newest = λ k f e. cc (e);
  shared = tt;
  confidential = tt;
  whole = λ k. refl;
}

abbrev pub chunk_of : ℕ → String → Chunk
chunk_of index text = record {
  index = index;
  parent_index = 0;
  text = text;
  embed_text = text;
  context = text;
  locator = "Runbook";
  section = some "Runbook";
  headings = "Runbook" ∷ [];
  page_start = none;
  token_count = 4;
}

abbrev pub runbook : String → String → Prepared
runbook digest text = record {
  document_id = "runbook";
  title = "Runbook";
  department = "engineering";
  classification = "internal";
  updated_at = "2026-01-01";
  mime_type = "text/markdown";
  source_path = "runbook.md";
  digest = digest;
  model_id = "embedder";
  chunker_id = "parent_child";
  chunks = (chunk_of 0 text, 1 ∷ []) ∷ [];
}

abbrev history : List IndexEvent
history =
    IndexEvent.swaps (runbook "d1" "Restart the service.")
    ∷ IndexEvent.time_passes 5
    ∷ IndexEvent.touches "runbook" "u1"
    ∷ IndexEvent.swaps (runbook "d2" "Restart the node.")
    ∷ IndexEvent.deactivates "other"
    ∷ []

apply_all-IsIndex_example : IsIndex (apply_all before history)
apply_all-IsIndex_example = apply_all-IsIndex before history before-IsIndex

view-apply_all_example :
    view (apply_all before history) "runbook" ≡ perform_all (view before) history "runbook"
view-apply_all_example = view-apply_all before history before-IsIndex "runbook"

abbrev pub indexed : Store
indexed = apply_all before (IndexEvent.swaps (runbook "d1" "Restart the service.") ∷ [])

pub indexed-IsIndex : IsIndex indexed
indexed-IsIndex =
    apply_all-IsIndex before (IndexEvent.swaps (runbook "d1" "Restart the service.") ∷ [])
      before-IsIndex

abbrev pub document : Document
document = document_of (runbook "d1" "Restart the service.") 1 1

found : active_doc "runbook" indexed.documents ≡ some document
unfolding apply_all apply swap same_content unchanged_result supersede retire_chunks insert_version
    document_of rows_of active_doc latest
found = refl

changed : same_content "d2" "embedder" (some document) ≡ false
unfolding same_content document_of
changed = refl

deactivate-IsLost_example :
    IsLost
      (runbook "d2" "Restart the node.")
      (latest "runbook" indexed.documents + 1)
      (deactivate_found "runbook"
        (some document)
        (swap (runbook "d2" "Restart the node.") indexed).0).0
deactivate-IsLost_example =
    deactivate-IsLost indexed (runbook "d2" "Restart the node.") document indexed-IsIndex found
      changed

abbrev files : Files
files = record {
  resolve = λ s. s;
  is_relative_to = λ path root. true;
  suffix_lower = λ s. ".md";
  relative_to = λ s root. s;
  parse_file = λ s. ok (record {
    meta = record {
      document_id = "runbook";
      title = "Runbook";
      department = "engineering";
      classification = "internal";
      updated_at = "2026-01-01";
      source = none;
    };
    blocks = blocks;
    mime_type = "text/markdown";
  });
  sentences = λ s. s ∷ [];
  sha256 = λ payload. payload.chunker;
}

abbrev large_embedder : ModelSpec
large_embedder = record embedder { dimensions = some 768 }

abbrev indexing : Gateway
indexing = record gateway { catalog = record catalog { models = large_embedder ∷ [] } }

abbrev zeros : ℕ → List ℕ
zeros zero = []
zeros (suc n) = 0 ∷ zeros n

abbrev pub embeds_of :
    ℕ → String → Option (String → List String → String → ℕ → Answer EmbeddingResult)
embeds_of dimensions provider = some (λ model inputs input_type n. record {
  elapsed = 1;
  reply = Reply.returned (record {
    vectors = map (λ s. zeros dimensions) inputs;
    usage = record { prompt_tokens = 3; completion_tokens = 0; estimated = false };
  });
})

abbrev ingest_settings : IngestSettings
ingest_settings = record {
  index_embedding_model = "embedder";
  knowledge_root = "/knowledge";
  chunk_target_tokens = 64;
  chunk_max_tokens = 256;
}

ingest_file-Answers_example :
    let i =
      ingest_file files indexing
        (embeds_of 768)
        ingest_settings
        "runbook.md"
        indexed
        (IndexEvent.time_passes 3 ∷ [])
        world in
    Answers files indexing
      (embeds_of 768)
      ingest_settings
      "runbook.md"
      (apply_all indexed (IndexEvent.time_passes 3 ∷ []))
      i.answer
      i.store
ingest_file-Answers_example =
    ingest_file-Answers files indexing (embeds_of 768) ingest_settings "runbook.md" indexed
      (IndexEvent.time_passes 3 ∷ []) world indexed-IsIndex

-- The gateway fails at first, and the file is refused at the second attempt.
abbrev attempts : ℕ → Result Failure IngestResult
attempts zero = err (other_error "GatewayError")
attempts (suc n) = err (policy_error "unsupported file type")

deliver-Ends_example :
    (j : Job) × (deliver 4 0 attempts (enqueued 1 "runbook.exe") ≡ some j) × Ends 0 attempts j
deliver-Ends_example = deliver-Ends attempts (enqueued 1 "runbook.exe")
