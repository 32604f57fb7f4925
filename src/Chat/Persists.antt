-- ===== src/Chat/Persists.antt =====
-- What a turn of `chat`, src/opsassist/api/chat.py, leaves in the table of messages.
use novax_ai_assignment.Base.{
  ℕ, suc, String, refl, inl, inr, ap, ◌∙◌, Option, none, some, List, [], ◌∷◌, ◌++◌, Result, ok, err,
  if-both,
}
use mathlib.Core.List.{append_assoc}
use novax_ai_assignment.Gateway.Errors.{Usage}
use novax_ai_assignment.Agent.Rag.{Citation}
use novax_ai_assignment.Policy.Auth.{Principal}
use novax_ai_assignment.Gateway.Records.{GatewayErrorCode, AttemptRecord}
use novax_ai_assignment.Gateway.Run.{World}
use novax_ai_assignment.Gateway.Calls.{Gateway}
use novax_ai_assignment.Gateway.Catalog.Resolve.{ResolveError, check_choice}
use novax_ai_assignment.Knowledge.Index.{Store}
use novax_ai_assignment.Knowledge.Retrieval.{RetrievalResult}
use novax_ai_assignment.Agent.Service.{Escape, AnswerResult, max_classification}
use novax_ai_assignment.Conversations.{
  Conversation, MessageStatus, Message, ChatDb, ConversationNotFound, get_or_create, get_owned,
  with_db, or_not_found, find_owned, add_message, message_of,
}
use novax_ai_assignment.Chat.{
  ChatRequest, ChatSettings, Prepared, Route, ChatEnd, is_unknown_model, choice_of, model_written,
  or_crash, user_message, assistant_message, prepare_in, prepare_found, choice_checked, start,
  save_assistant, remember_context,
}
use novax_ai_assignment.Chat.Turn.{
  Surroundings, Turn, Missing, unavailable, broken, usage_of, say, answered, retrieve_reviewed,
  finish_answer, answer_turn, take_route, begun_turn, chat,
}
use novax_ai_assignment.Chat.Written.{
  Asked, Replied, Written, SameRows, remember_context-SameRows, summarized-rows,
}

abbrev Found : ChatDb → Result ConversationNotFound (Conversation × ChatDb) → Type 0
Found db (err e) = Unit
Found db (ok (c, db')) = SameRows db db'

module _ (g : Gateway) (settings : ChatSettings) (request_id : String) where
  abbrev pub Started : ChatDb → ChatRequest → Result ChatEnd (Prepared × ChatDb) → Type 0
  Started db body (err e) = Written db body e db
  Started db body (ok (prep, db')) = Asked db body prep.conversation_id db'

  prepare_in-Asked :
      (body : ChatRequest) (db db0 : ChatDb) (c : Conversation) (choice : Option (Option String))
      → SameRows db db0
      → Started db body (or_crash (prepare_in g settings request_id body c db0 choice))
  unfolding prepare_in add_message message_of
  prepare_in-Asked body db db0 c none h = inl refl
  prepare_in-Asked body db db0 c (some choice) h = record {
    asked = message_of db0.next_seq (user_message request_id c.id body.message);
    is = record { at = h.next; belongs = refl; from = refl; says = refl };
    rows =
        ap (λ ms. ms ++ (message_of db0.next_seq (user_message request_id c.id body.message) ∷ []))
          h.rows;
    next = ap suc h.next;
  }

  prepare_found-Started :
      (body : ChatRequest) (db : ChatDb) (r : Result ConversationNotFound (Conversation × ChatDb))
      → Found db r
      → Started db body (prepare_found g settings request_id body r)
  prepare_found-Started body db (err e) h = refl
  prepare_found-Started body db (ok (c, db0)) h =
      prepare_in-Asked body db db0 c
        (choice_of g.catalog settings.allow_any_model body.model
          (model_written body.model c.model_id))
        h

  owned-Found : (db : ChatDb) (c : Option Conversation) → Found db (with_db db (or_not_found c))
  owned-Found db none = tt
  owned-Found db (some c) = record { rows = refl; next = refl }

  get_or_create-Found :
      (db : ChatDb) (id : Option ℕ) (user_id text : String)
      → Found db (get_or_create db id user_id text)
  unfolding get_or_create get_owned
  get_or_create-Found db none user_id text = record { rows = refl; next = refl }
  get_or_create-Found db (some id) user_id text =
      owned-Found db (find_owned id user_id db.conversations)

  checked-Started :
      (body : ChatRequest) (user_id : String) (db : ChatDb) (r : Result ResolveError (Unit {0}))
      → Started db body (choice_checked g settings request_id body user_id db r)
  checked-Started body user_id db (err e) =
      if-both (Started db body) (is_unknown_model e) (λ e. refl) (λ e. inl refl)
  checked-Started body user_id db (ok u) =
      prepare_found-Started body db (get_or_create db body.conversation_id user_id body.message)
        (get_or_create-Found db body.conversation_id user_id body.message)

  pub start-Started :
      (body : ChatRequest) (user_id : String) (db : ChatDb)
      → Started db body (start g settings request_id body user_id db)
  unfolding start
  start-Started body user_id db =
      checked-Started body user_id db (check_choice g.catalog body.model settings.allow_any_model)

  -- A message of the assistant behind the user's.
  pub saved-Replied :
      (db db1 db2 : ChatDb) (body : ChatRequest) (text : String) (status : MessageStatus) (id : ℕ)
      (model : Option String) (usage : Option Usage) (citations : Option (List Citation))
      → Asked db body id db1
      → SameRows db1 db2
      → Replied db body text status id
          (save_assistant g settings request_id id text status model usage citations db2)
  unfolding save_assistant add_message message_of
  saved-Replied db db1 db2 body text status id model usage citations h same = record {
    asked = h.asked;
    reply =
        message_of db2.next_seq (assistant_message request_id id text status model usage citations);
    is_asked = h.is;
    is_reply = record {
      at = same.next ∙ h.next;
      belongs = refl;
      from = refl;
      says = refl;
      ended = refl;
    };
    rows =
        ap (λ ms. ms ++ (reply ∷ [])) (same.rows ∙ h.rows)
        ∙ append_assoc db.messages (h.asked ∷ []) (reply ∷ []);
  }
    where
      reply : Message
      reply =
          message_of db2.next_seq
            (assistant_message request_id id text status model usage citations)

module _ (g : Gateway) (settings : ChatSettings) (request_id : String) (env : Surroundings)
    (principal : Principal) where
  abbrev pub Ends : ChatDb → ChatRequest → Turn → Type 0
  Ends db body t = Written db body t.end_ t.db

  answered-Ends :
      (db db1 db2 : ChatDb) (body : ChatRequest) (prep : Prepared) (a : AnswerResult) (w : World)
      (e : Option (GatewayErrorCode × List AttemptRecord))
      → Asked db body prep.conversation_id db1
      → SameRows db1 db2
      → Ends db body (answered g settings request_id env principal prep db2 w a e)
  answered-Ends db db1 db2 body prep a w (some (code, attempts)) h same = (
    prep.conversation_id,
    saved-Replied g settings request_id db db1 db2 body "" MessageStatus.error prep.conversation_id
        none none none h same,
  )
  answered-Ends db db1 db2 body prep a w none h same = (
    prep.conversation_id,
    record {
      asked = r.asked;
      reply = r.reply;
      is_asked = r.is_asked;
      is_reply = r.is_reply;
      rows = summarized-rows env.strip env.summarize _ _ ∙ r.rows;
    },
  )
    where
      r : Replied db body a.answer.text MessageStatus.complete prep.conversation_id (
          save_assistant g settings request_id prep.conversation_id a.answer.text
            MessageStatus.complete a.model_id
            (usage_of a)
            (some a.answer.citations)
            db2)
      r =
          saved-Replied g settings request_id db db1 db2 body a.answer.text MessageStatus.complete
            prep.conversation_id a.model_id (usage_of a) (some a.answer.citations) h same

  finish_answer-Ends :
      (db db1 db2 : ChatDb) (body : ChatRequest) (prep : Prepared)
      (r : Result Escape AnswerResult × World)
      → Asked db body prep.conversation_id db1
      → SameRows db1 db2
      → Ends db body (finish_answer g settings request_id env principal prep db2 r)
  unfolding finish_answer
  finish_answer-Ends db db1 db2 body prep (err e, w) h same = inr (
    prep.conversation_id,
    record { asked = h.asked; is = h.is; rows = same.rows ∙ h.rows; next = same.next ∙ h.next },
  )
  finish_answer-Ends db db1 db2 body prep (ok a, w) h same =
      answered-Ends db db1 db2 body prep a w a.error h same

  answer_turn-Ends :
      (db db1 : ChatDb) (body : ChatRequest) (prep : Prepared)
      (r : Result Missing RetrievalResult × World)
      → Asked db body prep.conversation_id db1
      → Ends db body (answer_turn g settings request_id env principal body prep db1 r)
  unfolding answer_turn
  answer_turn-Ends db db1 body prep (err unavailable, w) h = (
    prep.conversation_id,
    saved-Replied g settings request_id db db1 db1 body "" MessageStatus.error prep.conversation_id
        none none none h (record { rows = refl; next = refl }),
  )
  answer_turn-Ends db db1 body prep (err broken, w) h = inr (prep.conversation_id, h)
  answer_turn-Ends db db1 body prep (ok r, w) h =
      finish_answer-Ends db db1 (remember_context prep (max_classification r.chunks) db1) body prep
        _ h (remember_context-SameRows prep (max_classification r.chunks) db1)

  said :
      (db db1 : ChatDb) (body : ChatRequest) (prep : Prepared) (text : String)
      → Asked db body prep.conversation_id db1
      → Replied db body text MessageStatus.complete prep.conversation_id
          (say g settings request_id env principal prep text db1)
  said db db1 body prep text h =
      saved-Replied g settings request_id db db1 db1 body text MessageStatus.complete
        prep.conversation_id none none (some []) h (record { rows = refl; next = refl })

  take_route-Ends :
      (db db1 : ChatDb) (body : ChatRequest) (st : Store) (prep : Prepared) (w : World)
      (route : Route)
      → Asked db body prep.conversation_id db1
      → Ends db body (take_route g settings request_id env principal body st prep db1 w route)
  unfolding take_route
  take_route-Ends db db1 body st prep w (Route.small_talk text) h =
      (prep.conversation_id, said db db1 body prep text h)
  take_route-Ends db db1 body st prep w (Route.refuse text) h =
      (prep.conversation_id, said db db1 body prep text h)
  take_route-Ends db db1 body st prep w (Route.tool text) h =
      (prep.conversation_id, said db db1 body prep text h)
  take_route-Ends db db1 body st prep w Route.knowledge h =
      answer_turn-Ends db db1 body prep
        (retrieve_reviewed g settings request_id env principal st prep w) h

  begun_turn-Ends :
      (db : ChatDb) (body : ChatRequest) (st : Store) (route : Prepared → Route) (w : World)
      (r : Result ChatEnd (Prepared × ChatDb))
      → Started g settings request_id db body r
      → Ends db body (begun_turn g settings request_id env principal body st route db w r)
  unfolding begun_turn
  begun_turn-Ends db body st route w (err e) h = h
  begun_turn-Ends db body st route w (ok (prep, db1)) h =
      take_route-Ends db db1 body st prep w (route prep) h

  -- On every path of a turn: a request that is refused writes nothing; otherwise the user's message is
  -- stored behind the earlier ones, and behind it one message of the assistant in the same conversation,
  -- with the text of the reply, or empty with the status `error` where the retrieval or the gateway
  -- failed. An exception that no clause catches leaves nothing or the user's message alone.
  pub chat-Ends :
      (body : ChatRequest) (st : Store) (route : Prepared → Route) (db : ChatDb) (w : World)
      → Ends db body (chat g settings request_id env principal body st route db w)
  unfolding chat
  chat-Ends body st route db w =
      begun_turn-Ends db body st route w (start g settings request_id body principal.user_id db)
        (start-Started g settings request_id body principal.user_id db)
