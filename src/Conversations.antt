-- ===== src/Conversations.antt =====
-- src/opsassist/conversations.py: conversations, their messages and their usage, by the rows of
-- src/opsassist/db/models.py.
use novax_ai_assignment.Base.{
  ℕ, suc, ◌+◌, String, Bool, false, ◌&&◌, Option, none, some, List, [], ◌∷◌, ◌++◌, ◌==◌, eqb,
  take_chars, Result, ok, err, if◌then◌else◌,
}
use novax_ai_assignment.Gateway.Errors.{Usage}
use novax_ai_assignment.Gateway.Catalog.{ModelKind}
use novax_ai_assignment.Gateway.Records.{AttemptRecord, is_skipped}
use novax_ai_assignment.Agent.Rag.{Citation}

pub record Conversation : Type 0 where
  pub id : ℕ
  pub user_id : String
  pub title : Option String
  pub summary : Option String
  pub summary_upto_seq : Option ℕ
  pub context_classification : Option String
  pub model_id : Option String
  pub updated_at : ℕ

pub data MessageStatus : Type 0 where
  complete partial error : MessageStatus

-- The id of a message is its `seq` here.
pub record Message : Type 0 where
  pub seq : ℕ
  pub conversation_id : ℕ
  pub role : String
  pub content : String
  pub status : MessageStatus
  pub model_id : Option String
  pub request_id : String
  pub prompt_tokens : Option ℕ
  pub completion_tokens : Option ℕ
  pub citations : Option (List Citation)

-- The tables, messages in the order of `seq`, with the next ids and the database's clock.
pub record ChatDb : Type 0 where
  pub conversations : List Conversation
  pub messages : List Message
  pub next_conversation : ℕ
  pub next_seq : ℕ
  pub now : ℕ

pub data ConversationNotFound : Type 0 where
  conversation_not_found : ConversationNotFound

-- `session.get(Conversation, id)`
unfoldable pub get_conversation : ℕ → List Conversation → Option Conversation
get_conversation id [] = none
get_conversation id (c ∷ cs) = if eqb c.id id then some c else get_conversation id cs

unfoldable pub find_owned : ℕ → String → List Conversation → Option Conversation
find_owned id user_id [] = none
find_owned id user_id (c ∷ cs) =
    if eqb c.id id && c.user_id == user_id then some c else find_owned id user_id cs

abbrev pub or_not_found : Option Conversation → Result ConversationNotFound Conversation
or_not_found none = err conversation_not_found
or_not_found (some c) = ok c

-- `get_owned`
unfoldable pub get_owned : ChatDb → ℕ → String → Result ConversationNotFound Conversation
unfolding find_owned
get_owned db id user_id = or_not_found (find_owned id user_id db.conversations)

-- The write of a conversation's row.
unfoldable pub put_conversation : Conversation → List Conversation → List Conversation
put_conversation c [] = []
put_conversation c (d ∷ ds) = if eqb d.id c.id then c ∷ ds else d ∷ put_conversation c ds

unfoldable pub new_conversation : ℕ → String → String → ℕ → Conversation
new_conversation id user_id first_message now = record {
  id = id;
  user_id = user_id;
  title = some (take_chars 80 first_message);
  summary = none;
  summary_upto_seq = none;
  context_classification = none;
  model_id = none;
  updated_at = now;
}

abbrev pub with_db :
    ChatDb
    → Result ConversationNotFound Conversation
    → Result ConversationNotFound (Conversation × ChatDb)
with_db db (err e) = err e
with_db db (ok c) = ok (c, db)

-- `get_or_create`
unfoldable pub get_or_create :
    ChatDb → Option ℕ → String → String → Result ConversationNotFound (Conversation × ChatDb)
unfolding get_owned new_conversation
get_or_create db (some id) user_id first_message = with_db db (get_owned db id user_id)
get_or_create db none user_id first_message =
    let c = new_conversation db.next_conversation user_id first_message db.now in
    ok (
      c,
      record db {
        conversations = c ∷ db.conversations;
        next_conversation = suc db.next_conversation;
      },
    )

-- What `add_message` is called with.
pub record NewMessage : Type 0 where
  pub conversation_id : ℕ
  pub role : String
  pub content : String
  pub request_id : String
  pub status : MessageStatus
  pub model_id : Option String
  pub usage : Option Usage
  pub citations : Option (List Citation)

abbrev pub prompt_tokens_of : Option Usage → Option ℕ
prompt_tokens_of none = none
prompt_tokens_of (some u) = some u.prompt_tokens

abbrev pub completion_tokens_of : Option Usage → Option ℕ
completion_tokens_of none = none
completion_tokens_of (some u) = some u.completion_tokens

unfoldable pub message_of : ℕ → NewMessage → Message
message_of seq n = record {
  seq = seq;
  conversation_id = n.conversation_id;
  role = n.role;
  content = n.content;
  status = n.status;
  model_id = n.model_id;
  request_id = n.request_id;
  prompt_tokens = prompt_tokens_of n.usage;
  completion_tokens = completion_tokens_of n.usage;
  citations = n.citations;
}

-- `add_message`
unfoldable pub add_message : ChatDb → NewMessage → ChatDb
unfolding message_of
add_message db n = record db {
  messages = db.messages ++ (message_of db.next_seq n ∷ []);
  next_seq = suc db.next_seq;
}

-- A row of `LLMUsage`: an attempt and the conversation that it belongs to.
pub record UsageRow : Type 0 where
  pub conversation_id : Option ℕ
  pub attempt : AttemptRecord

pub record UsageTotals : Type 0 where
  pub model_calls : ℕ
  pub chat_calls : ℕ
  pub embedding_calls : ℕ
  pub prompt_tokens : ℕ
  pub completion_tokens : ℕ
  pub cost_usd : ℕ

abbrev pub in_conversation : ℕ → Option ℕ → Bool
in_conversation id none = false
in_conversation id (some i) = eqb i id

abbrev pub add_call : AttemptRecord → UsageTotals → UsageTotals
add_call a t = if is_skipped a then t else elim a.kind [
  | ModelKind.chat ↦ record t { model_calls = suc t.model_calls; chat_calls = suc t.chat_calls }
  | ModelKind.embedding ↦ record t {
    model_calls = suc t.model_calls;
    embedding_calls = suc t.embedding_calls;
  }
]

abbrev pub add_tokens : Option Usage → UsageTotals → UsageTotals
add_tokens none t = t
add_tokens (some u) t = record t {
  prompt_tokens = u.prompt_tokens + t.prompt_tokens;
  completion_tokens = u.completion_tokens + t.completion_tokens;
}

-- `usage_totals`
unfoldable pub usage_totals : ℕ → List UsageRow → UsageTotals
usage_totals id [] = record {
  model_calls = 0;
  chat_calls = 0;
  embedding_calls = 0;
  prompt_tokens = 0;
  completion_tokens = 0;
  cost_usd = 0;
}
usage_totals id (r ∷ rows) =
    let t = usage_totals id rows in
    let t' = add_call r.attempt (add_tokens r.attempt.usage t) in
    if in_conversation id r.conversation_id
    then record t' { cost_usd = r.attempt.cost_usd + t'.cost_usd }
    else t
