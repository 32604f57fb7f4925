-- ===== src/Chat/Turn.antt =====
-- src/opsassist/api/chat.py: `chat`, one turn. The agent's graph, which chooses the route, is an argument,
-- since langgraph runs it.
use novax_ai_assignment.Base.{ℕ, String, Option, none, some, List, [], Result, ok, err}
use novax_ai_assignment.Policy.Auth.{Principal}
use novax_ai_assignment.Policy.Access.{scope_for}
use novax_ai_assignment.Gateway.Errors.{Usage}
use novax_ai_assignment.Gateway.Records.{GatewayErrorCode, AttemptRecord}
use novax_ai_assignment.Gateway.Run.{World, Answer}
use novax_ai_assignment.Gateway.Calls.{Gateway, ChatMessage, EmbeddingResult}
use novax_ai_assignment.Knowledge.Index.{Store}
use novax_ai_assignment.Knowledge.Retrieval
use novax_ai_assignment.Knowledge.Retrieval.{RetrievalResult, Ranking, Raised, retrieve}
use novax_ai_assignment.Agent.Rag.{Wording, Prompts}
use novax_ai_assignment.Agent.Service
use novax_ai_assignment.Agent.Service.{Phrases, Escape, AnswerResult, max_classification}
use novax_ai_assignment.Agent.Answers.{Chats, review_near_misses, answer_from_knowledge}
use novax_ai_assignment.Conversations.{MessageStatus, ChatDb, get_conversation}
use novax_ai_assignment.Chat.{
  ChatRequest, ChatSettings, Prepared, Route, ChatEnd, start, save_assistant, remember_context,
  egress_allowed, summarized,
}

-- The other code of a turn: the two providers' calls, the texts and prompts, the searches of the
-- database, and the call of a model for the summary.
pub record Surroundings : Type 0 where
  pub chats : Chats
  pub embeds : String → Option (String → List String → String → ℕ → Answer EmbeddingResult)
  pub wording : Wording
  pub prompts : Prompts
  pub phrases : Phrases
  pub ranking : String → List ℕ → Ranking
  pub strip : String → String
  pub summarize : List ChatMessage → Option String

-- What a turn leaves.
pub record Turn : Type 0 where
  pub end_ : ChatEnd
  pub db : ChatDb
  pub world : World

-- A failure of the retrieval or of the review.
pub data Missing : Type 0 where
  unavailable broken : Missing

abbrev pub retrieved : Result Raised RetrievalResult → Result Missing RetrievalResult
retrieved (err (Retrieval.gateway_error code attempts)) = err unavailable
retrieved (err Retrieval.escaped) = err broken
retrieved (ok r) = ok r

abbrev pub reviewed : Result Escape RetrievalResult → Result Missing RetrievalResult
reviewed (err (Service.gateway_error code attempts)) = err unavailable
reviewed (err Service.other) = err broken
reviewed (ok r) = ok r

abbrev pub usage_of : AnswerResult → Option Usage
usage_of a = if_model a.model_id
  where
    if_model : Option String → Option Usage
    if_model none = none
    if_model (some m) = some a.usage

module _ (g : Gateway) (settings : ChatSettings) (request_id : String) (env : Surroundings)
    (principal : Principal) where
  abbrev pub review :
      Prepared → Result Missing RetrievalResult × World → Result Missing RetrievalResult × World
  review prep (err e, w) = (err e, w)
  review prep (ok r, w) =
      let (x, w') =
        review_near_misses g env.chats env.wording env.prompts env.phrases settings.answers
          prep.question r prep.model_choice w in
      (reviewed x, w')

  -- `_retrieve`
  unfoldable pub retrieve_reviewed :
      Store → Prepared → World → Result Missing RetrievalResult × World
  retrieve_reviewed st prep w =
      let (x, w') =
        retrieve g env.embeds env.ranking settings.retrieval prep.question (scope_for principal)
          none st w in
      review prep (retrieved x, w')

  -- A message of the assistant without a model.
  abbrev pub say : Prepared → String → ChatDb → ChatDb
  say prep text db =
      save_assistant g settings request_id prep.conversation_id text MessageStatus.complete none
        none (some []) db

  abbrev pub save_error : Prepared → ChatDb → ChatDb
  save_error prep db =
      save_assistant g settings request_id prep.conversation_id "" MessageStatus.error none none
        none db

  abbrev pub save_answer : Prepared → AnswerResult → ChatDb → ChatDb
  save_answer prep a db =
      save_assistant g settings request_id prep.conversation_id a.answer.text MessageStatus.complete
        a.model_id (usage_of a) (some a.answer.citations) db

  -- `_maybe_summarize`
  abbrev pub maybe_summarize : Prepared → ChatDb → ChatDb
  maybe_summarize prep db =
      summarized env.strip env.summarize (get_conversation prep.conversation_id db.conversations) db

  abbrev pub answered :
      Prepared
      → ChatDb
      → World
      → AnswerResult
      → Option (GatewayErrorCode × List AttemptRecord)
      → Turn
  answered prep db w a (some (code, attempts)) = record {
    end_ = ChatEnd.gateway_failed code;
    db = save_error prep db;
    world = w;
  }
  answered prep db w a none = record {
    end_ = ChatEnd.replied a.answer.text (some a);
    db = maybe_summarize prep (save_answer prep a db);
    world = w;
  }

  -- The answer's message, and what the conversation remembers of it.
  unfoldable pub finish_answer : Prepared → ChatDb → Result Escape AnswerResult × World → Turn
  finish_answer prep db (err e, w) = record { end_ = ChatEnd.crashed; db = db; world = w }
  finish_answer prep db (ok a, w) = answered prep db w a a.error

  -- The answer from what was found, with the context remembered before a model sees it.
  unfoldable pub answer_turn :
      ChatRequest → Prepared → ChatDb → Result Missing RetrievalResult × World → Turn
  unfolding finish_answer
  answer_turn body prep db (err unavailable, w) = record {
    end_ = ChatEnd.retrieval_unavailable;
    db = save_error prep db;
    world = w;
  }
  answer_turn body prep db (err broken, w) = record { end_ = ChatEnd.crashed; db = db; world = w }
  answer_turn body prep db (ok r, w) =
      finish_answer prep (remember_context prep (max_classification r.chunks) db) (
        answer_from_knowledge g env.chats env.wording env.prompts env.phrases settings.answers
          prep.question (some principal) prep.history r prep.model_choice
          (record { temperature = some body.temperature; max_tokens = body.max_tokens })
          (egress_allowed settings.answers.egress_max_classification prep r) w)

  -- What follows the choice of the route.
  unfoldable pub take_route : ChatRequest → Store → Prepared → ChatDb → World → Route → Turn
  unfolding answer_turn
  take_route body st prep db w (Route.small_talk text) = record {
    end_ = ChatEnd.replied text none;
    db = say prep text db;
    world = w;
  }
  take_route body st prep db w (Route.refuse text) = record {
    end_ = ChatEnd.replied text none;
    db = say prep text db;
    world = w;
  }
  take_route body st prep db w (Route.tool text) = record {
    end_ = ChatEnd.replied text none;
    db = say prep text db;
    world = w;
  }
  take_route body st prep db w Route.knowledge =
      answer_turn body prep db (retrieve_reviewed st prep w)

  -- `route` stands for the agent's graph.
  unfoldable pub begun_turn :
      ChatRequest
      → Store
      → (Prepared → Route)
      → ChatDb
      → World
      → Result ChatEnd (Prepared × ChatDb)
      → Turn
  unfolding take_route
  begun_turn body st route db w (err e) = record { end_ = e; db = db; world = w }
  begun_turn body st route db w (ok (prep, db')) = take_route body st prep db' w (route prep)

  -- `chat`
  unfoldable pub chat : ChatRequest → Store → (Prepared → Route) → ChatDb → World → Turn
  unfolding begun_turn
  chat body st route db w =
      begun_turn body st route db w (start g settings request_id body principal.user_id db)
