-- ===== src/Chat/Tests.antt =====
-- A conversation of one user, and the turns of it.
use novax_ai_assignment.Base.{String, ◌≡◌, refl, true, false, Option, none, some, List, [], ◌∷◌}
use novax_ai_assignment.Config.{rank, highest, most_sensitive, allows_egress}
use novax_ai_assignment.Policy.Auth.{Principal}
use novax_ai_assignment.Gateway.Tests.{gateway, world, streams, small}
use novax_ai_assignment.Knowledge.Retrieval.Tests.{retrieval_settings, rank_of}
use novax_ai_assignment.Knowledge.Tests.{indexed, embeds_of}
use novax_ai_assignment.Gateway.Stream.Opened.{Streams, StreamLimits}
use novax_ai_assignment.Agent.Service.{max_classification}
use novax_ai_assignment.Agent.Answers.Tests.{
  wording, prompts, phrases, answer_settings, chats, retrieval,
}
use novax_ai_assignment.Conversations.{Conversation, ChatDb, get_conversation, put_conversation}
use novax_ai_assignment.Chat.{
  ChatRequest, ChatSettings, Prepared, Route, raise_to, remember_context, egress_allowed,
}
use novax_ai_assignment.Chat.Turn.{Surroundings, chat}
use novax_ai_assignment.Chat.Persists.{Ends, chat-Ends}
use novax_ai_assignment.Chat.Remembers.{Allows, remember_context-Blocks}
use novax_ai_assignment.Chat.Stream.{chat_stream}
use novax_ai_assignment.Chat.Stream.Stored.{Leaves, chat_stream-Leaves}

abbrev settings : ChatSettings
settings = record {
  allow_any_model = false;
  history_max_messages = 20;
  history_token_budget = 2000;
  answers = answer_settings;
  retrieval = retrieval_settings;
}

abbrev env : Surroundings
env = record {
  chats = chats;
  embeds = embeds_of 8;
  wording = wording;
  prompts = prompts;
  phrases = phrases;
  ranking = λ query vector. rank_of;
  strip = λ s. s;
  summarize = λ messages. none;
}

abbrev ada : Principal
ada = record {
  user_id = "u1";
  name = "Ada";
  department = "engineering";
  role = "engineer";
  permissions = "docs:engineering" ∷ [];
}

abbrev request : ChatRequest
request = record {
  message = "restart?";
  conversation_id = none;
  model = none;
  temperature = 0;
  max_tokens = 300;
}

abbrev conversation : Option String → Conversation
conversation classification = record {
  id = 7;
  user_id = "u1";
  title = some "restart?";
  summary = none;
  summary_upto_seq = none;
  context_classification = classification;
  model_id = none;
  updated_at = 0;
}

abbrev db_with : List Conversation → ChatDb
db_with cs = record {
  conversations = cs;
  messages = [];
  next_conversation = 8;
  next_seq = 1;
  now = 0;
}

chat-Ends_example : Ends gateway settings "r1" env ada (db_with []) request (
    chat gateway settings "r1" env ada request indexed (λ prep. Route.knowledge) (db_with []) world)
chat-Ends_example =
    chat-Ends gateway settings "r1" env ada request indexed (λ prep. Route.knowledge) (db_with [])
      world

abbrev streaming : Streams
streaming provider = some (λ model messages params n. streams small n)

abbrev limits : StreamLimits
limits = record { stream_deadline_s = 60; stream_idle_timeout_s = 30 }

-- The client reads three events and goes away.
chat_stream-Leaves_example :
    Leaves gateway settings "r1" env ada streaming limits (db_with []) request (some 3) (
      chat_stream gateway settings "r1" env ada streaming limits request indexed
        (λ prep. some Route.knowledge)
        (some 3)
        (db_with [])
        world)
chat_stream-Leaves_example =
    chat_stream-Leaves gateway settings "r1" env ada streaming limits request indexed
      (λ prep. some Route.knowledge) (some 3) (db_with []) world

abbrev turn : Option String → Prepared
turn classification = record {
  conversation_id = 7;
  question = "restart?";
  history = [];
  model_choice = none;
  context_classification = classification;
}

found :
    get_conversation 7 (db_with (conversation none ∷ [])).conversations ≡ some (conversation none)
unfolding get_conversation
found = refl

remembered :
    get_conversation 7
      (remember_context
        (turn none)
        (max_classification (retrieval "internal").chunks)
        (db_with (conversation none ∷ []))).conversations
    ≡ some (conversation (some "internal"))
unfolding get_conversation put_conversation remember_context raise_to most_sensitive highest
    max_classification
remembered = refl

allowed : egress_allowed "internal" (turn (some "internal")) (retrieval "internal") ≡ true
unfolding egress_allowed allows_egress most_sensitive highest max_classification rank
allowed = refl

remember_context-Blocks_example :
    Allows "internal" (max_classification (retrieval "internal").chunks) × Allows "internal" none
remember_context-Blocks_example =
    remember_context-Blocks "internal" (turn none) (db_with (conversation none ∷ []))
      (conversation none) found (λ e. e) (retrieval "internal") (conversation (some "internal"))
      (turn (some "internal")) (retrieval "internal") remembered refl allowed
