-- ===== src/Chat/Written.antt =====
-- What a turn of src/opsassist/api/chat.py may leave in the table of messages, and the steps that leave the
-- messages as they are.
use novax_ai_assignment.Base.{
  ℕ, suc, String, ◌≡◌, refl, ◌⊎◌, Option, none, some, List, [], ◌∷◌, ◌++◌, if-both,
}
use novax_ai_assignment.Config.{most_sensitive}
use novax_ai_assignment.Gateway.Calls.{ChatMessage}
use novax_ai_assignment.Conversations.{
  Conversation, MessageStatus, Message, ChatDb, get_conversation,
}
use novax_ai_assignment.Chat.{
  ChatRequest, Prepared, ChatEnd, raise_to, remember_context, same_class, summarized,
}

-- The message of the user, at the end of the table.
pub record IsAsked (db : ChatDb) (body : ChatRequest) (id : ℕ) (m : Message) : Type 0 where
  pub at : m.seq ≡ db.next_seq
  pub belongs : m.conversation_id ≡ id
  pub from : m.role ≡ "user"
  pub says : m.content ≡ body.message

-- The assistant's message after it.
pub record IsReply (db : ChatDb) (text : String) (status : MessageStatus) (id : ℕ) (m : Message)
    : Type 0 where
  pub at : m.seq ≡ suc db.next_seq
  pub belongs : m.conversation_id ≡ id
  pub from : m.role ≡ "assistant"
  pub says : m.content ≡ text
  pub ended : m.status ≡ status

pub record Asked (db : ChatDb) (body : ChatRequest) (id : ℕ) (db' : ChatDb) : Type 0 where
  pub asked : Message
  pub is : IsAsked db body id asked
  pub rows : db'.messages ≡ db.messages ++ (asked ∷ [])
  pub next : db'.next_seq ≡ suc db.next_seq

pub record Replied (db : ChatDb) (body : ChatRequest) (text : String) (status : MessageStatus)
    (id : ℕ) (db' : ChatDb) : Type 0 where
  pub asked : Message
  pub reply : Message
  pub is_asked : IsAsked db body id asked
  pub is_reply : IsReply db text status id reply
  pub rows : db'.messages ≡ db.messages ++ (asked ∷ reply ∷ [])

-- What is written, by how the turn ends.
abbrev pub Written : ChatDb → ChatRequest → ChatEnd → ChatDb → Type 0
Written db body ChatEnd.unknown_model db' = db' ≡ db
Written db body ChatEnd.not_found db' = db' ≡ db
Written db body ChatEnd.retrieval_unavailable db' =
    ((id : ℕ) × Replied db body "" MessageStatus.error id db')
Written db body (ChatEnd.gateway_failed code) db' =
    ((id : ℕ) × Replied db body "" MessageStatus.error id db')
Written db body (ChatEnd.replied text a) db' =
    ((id : ℕ) × Replied db body text MessageStatus.complete id db')
Written db body ChatEnd.crashed db' = (db' ≡ db) ⊎ ((id : ℕ) × Asked db body id db')

pub record SameRows (db db' : ChatDb) : Type 0 where
  pub rows : db'.messages ≡ db.messages
  pub next : db'.next_seq ≡ db.next_seq

pub raise_to-SameRows :
    (current : Option String) (c : Option Conversation) (db : ChatDb)
    → SameRows db (raise_to current c db)
unfolding raise_to
raise_to-SameRows current none db = record { rows = refl; next = refl }
raise_to-SameRows current (some c) db = record { rows = refl; next = refl }

pub remember_context-SameRows :
    (prep : Prepared) (current : Option String) (db : ChatDb)
    → SameRows db (remember_context prep current db)
unfolding remember_context
remember_context-SameRows prep none db = record { rows = refl; next = refl }
remember_context-SameRows prep (some current) db =
    if-both (SameRows db)
      (same_class (most_sensitive prep.context_classification (some current))
        prep.context_classification)
      (λ e. record { rows = refl; next = refl })
      (λ e.
        raise_to-SameRows (some current) (get_conversation prep.conversation_id db.conversations)
          db)

pub summarized-rows :
    (strip : String → String) (summarize : List ChatMessage → Option String)
    (c : Option Conversation) (db : ChatDb)
    → (summarized strip summarize c db).messages ≡ db.messages
unfolding summarized
summarized-rows strip summarize none db = refl
summarized-rows strip summarize (some c) db = refl
