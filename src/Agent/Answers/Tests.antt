-- ===== src/Agent/Answers/Tests.antt =====
-- A question that one retrieved chunk answers, asked of a catalogue with a local and a remote model.
use novax_ai_assignment.Base.{
  String, ◌≡◌, refl, true, false, none, some, [], ◌∷◌, length, Result, ok, err,
}
use novax_ai_assignment.Gateway.Records.{ChatParams}
use novax_ai_assignment.Gateway.Run.{World, Reply, Answer}
use novax_ai_assignment.Gateway.Calls.{ChatMessage, ChatResult}
use novax_ai_assignment.Gateway.Tests.{gateway, world}
use novax_ai_assignment.Gateway.Run
use novax_ai_assignment.Gateway.Calls
use novax_ai_assignment.Gateway.Breaker
use novax_ai_assignment.Gateway.Catalog
use novax_ai_assignment.Gateway.Catalog.Resolve
use novax_ai_assignment.Agent.Rag
use novax_ai_assignment.Agent.Answers
use novax_ai_assignment.Knowledge.Retrieval.{Table, RetrievedChunk, RetrievalResult}
use novax_ai_assignment.Agent.Rag.{Wording, Prompts, GroundedAnswer, plain_answer}
use novax_ai_assignment.Agent.Service
use novax_ai_assignment.Agent.Service.{Phrases, Escape, AnswerResult, plain_result}
use novax_ai_assignment.Agent.Answers.{Chats, AnswerSettings, answer_from_knowledge}
use novax_ai_assignment.Agent.Answers.Grounded.{IsGrounded, answer_from_knowledge-IsGrounded}
use novax_ai_assignment.Agent.Answers.Local.{AllLocal, answer_from_knowledge-AllLocal}

abbrev pub wording : Wording
wording = record {
  squeezed = λ s. s;
  starts_with = λ s t. false;
  contains_text = λ s t. false;
  own_words = λ s. false;
  strip = λ s. s;
  escape = λ quote s. s;
  normalize_markers = λ s n. s;
  repoint_citations = λ s chunks. (s, 0);
}

abbrev pub prompts : Prompts
prompts = record {
  system_prompt = "Answer from the sources.";
  reviewed_note = "Check the sources.";
  gate_review_prompt = "Which sources answer?";
}

abbrev pub phrases : Phrases
phrases = record {
  relevant = λ s. none;
  write_department = λ s. none;
  sorted_set = λ l. l;
  not_covered = λ s. false;
  spaced = λ s. s;
}

abbrev pub answer_settings : AnswerSettings
answer_settings = record {
  egress_max_classification = "internal";
  router_model = none;
  escalation_model = none;
}

abbrev pub chunk : String → RetrievedChunk
chunk classification = record {
  chunk_id = 1;
  table = Table.chunks;
  doc_key = "runbook";
  version = 1;
  title = "Runbook";
  department = "engineering";
  classification = classification;
  locator = "Restart";
  parent_id = (1, some 0);
  content = "Restart the service.";
  context = "Restart the service.";
  doc_updated_at = "2026-01-01";
  similarity = some 1800000;
  fts_rank = none;
  score = 3;
}

abbrev pub retrieval : String → RetrievalResult
retrieval classification = record {
  chunks = chunk classification ∷ [];
  candidates = 1;
  below_threshold = 0;
  embedding_model = "embedder";
  tables = Table.chunks ∷ [];
  near_misses = [];
  reviewed = 0;
  admitted_by_review = 0;
}

-- Both models cite the first source.
abbrev pub chats : Chats
chats provider = some (λ model messages params n. record {
  elapsed = 3;
  reply = Reply.returned (record {
    content = "Restart it [1].";
    usage = record { prompt_tokens = 4; completion_tokens = 2; estimated = false };
    finish_reason = none;
  });
})

abbrev pub params : ChatParams
params = record { temperature = some 0; max_tokens = 300 }

abbrev answered : Result Escape AnswerResult × World
answered =
    answer_from_knowledge gateway chats wording prompts phrases answer_settings "restart?" none []
      (retrieval "internal") (some "auto") params true world

abbrev answer_in : Result Escape AnswerResult → AnswerResult
answer_in (ok a) = a
answer_in (err e) = plain_result (plain_answer "" true) none

is_answer : answered.0 ≡ ok (answer_in answered.0)
unfolding answer_from_knowledge Answers.ask_model Answers.after_first Calls.chat Calls.chat_targets
    Calls.run_blocked Service.outcome_of Resolve.resolve Catalog.get Run.run Run.visit_all
    Run.next_target Run.visit Run.admit Calls.env_of Breaker.allow Breaker.get Run.serve Run.rounds
    Run.next_round Run.attempt Run.after_reply Run.ask Resolve.models_of Catalog.model
    Calls.egress_blocked Service.escalation_reason Rag.finalize
is_answer = refl

is_cited : length (answer_in answered.0).answer.citations ≡ 1
unfolding answer_from_knowledge Answers.ask_model Answers.after_first Calls.chat Calls.chat_targets
    Calls.run_blocked Service.outcome_of Resolve.resolve Catalog.get Run.run Run.visit_all
    Run.next_target Run.visit Run.admit Calls.env_of Breaker.allow Breaker.get Run.serve Run.rounds
    Run.next_round Run.attempt Run.after_reply Run.ask Resolve.models_of Catalog.model
    Calls.egress_blocked Service.escalation_reason Rag.finalize Service.with_gap_ticket
    Service.result_of
is_cited = refl

answer_from_knowledge-IsGrounded_example :
    IsGrounded (retrieval "internal").chunks (answer_in answered.0)
answer_from_knowledge-IsGrounded_example =
    answer_from_knowledge-IsGrounded gateway chats wording prompts phrases answer_settings
      "restart?" none [] (retrieval "internal") (some "auto") params true world
      (answer_in answered.0) is_answer

answer_from_knowledge-AllLocal_example :
    AllLocal gateway chats
      (answer_from_knowledge gateway chats wording prompts phrases answer_settings "restart?" none
        []
        (retrieval "confidential")
        (some "auto")
        params
        false
        world).1
answer_from_knowledge-AllLocal_example =
    answer_from_knowledge-AllLocal gateway chats wording prompts phrases answer_settings "restart?"
      none [] (retrieval "confidential") (some "auto") params world tt
