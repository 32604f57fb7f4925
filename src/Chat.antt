-- ===== src/Chat.antt =====
-- src/opsassist/api/chat.py: what a turn of `/api/chat` reads and writes of its conversation, and the
-- switch of a conversation's model.
pub mod Turn
pub mod Written
pub mod Persists
pub mod Remembers
pub mod Stream
mod Tests
use novax_ai_assignment.Base.{
  ℕ, String, Bool, true, false, not, ◌&&◌, ◌||◌, Option, none, some, List, [], ◌∷◌, ◌++◌, ◌==◌, eqb,
  keep, Result, ok, err, ◌>>=◌, if◌then◌else◌,
}
use novax_ai_assignment.Config.{most_sensitive, allows_egress}
use novax_ai_assignment.Policy.Auth.{Principal}
use novax_ai_assignment.Policy.Access.{AccessScope, scope_for}
use novax_ai_assignment.Gateway.Errors.{Usage}
use novax_ai_assignment.Gateway.Catalog.{Catalog}
use novax_ai_assignment.Gateway.Catalog.Resolve.{ResolveError, check_choice}
use novax_ai_assignment.Gateway.Records.{GatewayErrorCode, AttemptRecord, ChatParams}
use novax_ai_assignment.Gateway.Run.{World, Answer}
use novax_ai_assignment.Gateway.Calls.{Gateway, ChatMessage, EmbeddingResult}
use novax_ai_assignment.Memory.Window
use novax_ai_assignment.Memory.Window.{load_conversation_memory, as_messages, update_summary}
use novax_ai_assignment.Knowledge.Index.{Store}
use novax_ai_assignment.Knowledge.Retrieval
use novax_ai_assignment.Knowledge.Retrieval.{
  RetrievedChunk, RetrievalResult, RetrievalSettings, Ranking, Raised, retrieve,
}
use novax_ai_assignment.Agent.Rag.{Wording, Prompts, Citation, GroundedAnswer}
use novax_ai_assignment.Agent.Service
use novax_ai_assignment.Agent.Service.{Phrases, Escape, AnswerResult, max_classification}
use novax_ai_assignment.Agent.Answers.{
  Chats, AnswerSettings, review_near_misses, answer_from_knowledge,
}
use novax_ai_assignment.Conversations.{
  Conversation, MessageStatus, Message, ChatDb, ConversationNotFound, NewMessage, get_conversation,
  get_owned, put_conversation, get_or_create, add_message,
}

pub record ChatRequest : Type 0 where
  pub message : String
  pub conversation_id : Option ℕ
  pub model : Option String
  pub temperature : ℕ
  pub max_tokens : ℕ

pub record ChatSettings : Type 0 where
  pub allow_any_model : Bool
  pub history_max_messages : ℕ
  pub history_token_budget : ℕ
  pub answers : AnswerSettings
  pub retrieval : RetrievalSettings

pub record Prepared : Type 0 where
  pub conversation_id : ℕ
  pub question : String
  pub history : List ChatMessage
  pub model_choice : Option String
  pub context_classification : Option String

-- Which path the agent's graph chooses: a fixed text, a tool's message, or the documents.
pub data Route : Type 0 where
  small_talk refuse tool : String → Route
  knowledge : Route

-- How a turn ends: an answer with the error's status, a reply, or an exception that no clause catches.
pub data ChatEnd : Type 0 where
  unknown_model not_found retrieval_unavailable : ChatEnd
  gateway_failed : GatewayErrorCode → ChatEnd
  replied : String → Option AnswerResult → ChatEnd
  crashed : ChatEnd

abbrev pub is_unknown_model : ResolveError → Bool
is_unknown_model (ResolveError.unknown_model s) = true
is_unknown_model (ResolveError.wrong_kind s) = true
is_unknown_model (ResolveError.not_selectable s) = true
is_unknown_model _ = false

-- `_stored_choice`; none is an exception that is no `UnknownModelError`.
unfoldable pub stored_choice : Catalog → Bool → Option String → Option (Option String)
stored_choice catalog allow_any none = some none
stored_choice catalog allow_any (some stored) = known (check_choice catalog (some stored) allow_any)
  where
    known : Result ResolveError (Unit {0}) → Option (Option String)
    known (ok u) = some (some stored)
    known (err e) = if is_unknown_model e then some none else none

-- The turns of a conversation as `memory.py` reads them.
abbrev pub is_complete : MessageStatus → Bool
is_complete MessageStatus.complete = true
is_complete _ = false

abbrev pub memory_row : Message → Window.Message
memory_row m = record {
  seq = m.seq;
  role = m.role;
  content = m.content;
  complete = is_complete m.status;
}

abbrev pub memory_rows : ℕ → List Message → List Window.Message
memory_rows id [] = []
memory_rows id (m ∷ ms) =
    if eqb m.conversation_id id then memory_row m ∷ memory_rows id ms else memory_rows id ms

abbrev pub memory_of : Conversation → Window.Conversation
memory_of c = record { summary = c.summary; summary_upto_seq = c.summary_upto_seq }

-- `body.model or _stored_choice(...)`, and the write of a model that the request names.
abbrev pub choice_of : Catalog → Bool → Option String → Option String → Option (Option String)
choice_of catalog allow_any none stored = stored_choice catalog allow_any stored
choice_of catalog allow_any (some m) stored =
    if m == "" then stored_choice catalog allow_any (some m) else some (some m)

abbrev pub model_written : Option String → Option String → Option String
model_written none stored = stored
model_written (some m) stored = some m

abbrev pub user_message : String → ℕ → String → NewMessage
user_message request_id conversation_id text = record {
  conversation_id = conversation_id;
  role = "user";
  content = text;
  request_id = request_id;
  status = MessageStatus.complete;
  model_id = none;
  usage = none;
  citations = none;
}

abbrev pub assistant_message :
    String
    → ℕ
    → String
    → MessageStatus
    → Option String
    → Option Usage
    → Option (List Citation)
    → NewMessage
assistant_message request_id conversation_id content status model_id usage citations = record {
  conversation_id = conversation_id;
  role = "assistant";
  content = content;
  request_id = request_id;
  status = status;
  model_id = model_id;
  usage = usage;
  citations = citations;
}

abbrev pub or_crash : Option (Prepared × ChatDb) → Result ChatEnd (Prepared × ChatDb)
or_crash none = err crashed
or_crash (some r) = ok r

module _ (g : Gateway) (settings : ChatSettings) (request_id : String) where
  -- The rest of `_prepare`, with the conversation at hand; none rolls the transaction back.
  unfoldable pub prepare_in :
      ChatRequest → Conversation → ChatDb → Option (Option String) → Option (Prepared × ChatDb)
  prepare_in body c db none = none
  prepare_in body c db (some choice) =
      let c' = record c { updated_at = db.now; model_id = model_written body.model c.model_id } in
      let memory =
        load_conversation_memory (memory_of c) (memory_rows c.id db.messages)
          settings.history_max_messages settings.history_token_budget in
      some (
        record {
          conversation_id = c.id;
          question = body.message;
          history = as_messages memory;
          model_choice = choice;
          context_classification = c.context_classification;
        },
        add_message (record db { conversations = put_conversation c' db.conversations })
            (user_message request_id c.id body.message),
      )

  abbrev pub prepare_found :
      ChatRequest
      → Result ConversationNotFound (Conversation × ChatDb)
      → Result ChatEnd (Prepared × ChatDb)
  prepare_found body (err e) = err not_found
  prepare_found body (ok (c, db)) = or_crash (
      prepare_in body c db (
        choice_of g.catalog settings.allow_any_model body.model
          (model_written body.model c.model_id)))

  abbrev pub choice_checked :
      ChatRequest
      → String
      → ChatDb
      → Result ResolveError (Unit {0})
      → Result ChatEnd (Prepared × ChatDb)
  choice_checked body user_id db (err e) =
      if is_unknown_model e then err unknown_model else err crashed
  choice_checked body user_id db (ok u) =
      prepare_found body (get_or_create db body.conversation_id user_id body.message)

  -- `_start`: nothing is written where it does not succeed.
  unfoldable pub start : ChatRequest → String → ChatDb → Result ChatEnd (Prepared × ChatDb)
  unfolding prepare_in
  start body user_id db =
      choice_checked body user_id db (check_choice g.catalog body.model settings.allow_any_model)

  -- `_save_assistant`
  unfoldable pub save_assistant :
      ℕ
      → String
      → MessageStatus
      → Option String
      → Option Usage
      → Option (List Citation)
      → ChatDb
      → ChatDb
  save_assistant conversation_id content status model_id usage citations db =
      add_message db
        (assistant_message request_id conversation_id content status model_id usage citations)

-- `_remember_context`: the row is read again, since other turns may have written it.
unfoldable pub raise_to : Option String → Option Conversation → ChatDb → ChatDb
raise_to current none db = db
raise_to current (some c) db = record db {
  conversations =
      put_conversation
        (record c { context_classification = most_sensitive c.context_classification current })
        db.conversations;
}

abbrev pub same_class : Option String → Option String → Bool
same_class none none = true
same_class (some a) (some b) = a == b
same_class _ _ = false

unfoldable pub remember_context : Prepared → Option String → ChatDb → ChatDb
unfolding raise_to
remember_context prep none db = db
remember_context prep (some current) db =
    if same_class (most_sensitive prep.context_classification (some current))
      prep.context_classification
    then db
    else raise_to (some current) (get_conversation prep.conversation_id db.conversations) db

-- `_egress_allowed`
unfoldable pub egress_allowed : String → Prepared → RetrievalResult → Bool
egress_allowed limit prep r =
    allows_egress limit (most_sensitive prep.context_classification (max_classification r.chunks))

-- `_maybe_summarize`; `summarize` is the call of the model, which may not leave the box.
unfoldable pub summarized :
    (String → String) → (List ChatMessage → Option String) → Option Conversation → ChatDb → ChatDb
summarized strip summarize none db = db
summarized strip summarize (some c) db =
    let m = update_summary strip summarize (memory_of c) (memory_rows c.id db.messages) in
    record db {
      conversations =
          put_conversation (record c { summary = m.summary; summary_upto_seq = m.summary_upto_seq })
            db.conversations;
    }

-- `switch_conversation_model`; an error leaves the tables as they are.
abbrev pub switched :
    Option String → ChatDb → Result ConversationNotFound Conversation → Result ChatEnd ChatDb
switched model db (err e) = err not_found
switched model db (ok c) = ok (record db {
  conversations =
      put_conversation (record c { model_id = model; updated_at = db.now }) db.conversations;
})

abbrev pub switch_checked :
    Option String → ℕ → String → ChatDb → Result ResolveError (Unit {0}) → Result ChatEnd ChatDb
switch_checked model id user_id db (err e) =
    if is_unknown_model e then err unknown_model else err crashed
switch_checked model id user_id db (ok u) = switched model db (get_owned db id user_id)

unfoldable pub switch_conversation_model :
    Gateway → Bool → Option String → ℕ → String → ChatDb → Result ChatEnd ChatDb
switch_conversation_model g allow_any model id user_id db =
    switch_checked model id user_id db (check_choice g.catalog model allow_any)
