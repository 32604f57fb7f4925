-- ===== src/Chat/Stream.antt =====
-- src/opsassist/api/chat.py: `chat_stream`, the events that a client is sent and what is stored. A client
-- that goes away is seen where an event is handed out; one that goes away while a provider is waited for
-- is the exception of Gateway/Stream. The answers' times and identifiers are left out.
pub mod Shown
pub mod States
pub mod Relayed
pub mod Stored
use novax_ai_assignment.Base.{
  ℕ, zero, suc, String, Bool, true, false, Option, none, some, List, [], ◌∷◌, ◌++◌, is_empty, ltb,
  length, not, Result, ok, err, if◌then◌else◌,
}
use novax_ai_assignment.Policy.Auth.{Principal}
use novax_ai_assignment.Gateway.Errors.{Usage}
use novax_ai_assignment.Gateway.Catalog.{ModelSpec}
use novax_ai_assignment.Gateway.Run.{World}
use novax_ai_assignment.Gateway.Calls.{Gateway}
use novax_ai_assignment.Gateway.Stream
use novax_ai_assignment.Gateway.Stream.{StreamCode, StreamEvent, Streamed, concat_texts}
use novax_ai_assignment.Gateway.Stream.Opened.{Streams, StreamLimits, open_stream}
use novax_ai_assignment.Knowledge.Index.{Store}
use novax_ai_assignment.Knowledge.Retrieval.{RetrievedChunk, RetrievalResult}
use novax_ai_assignment.Agent.Rag.{Citation, GroundedAnswer, grounded, build_messages, finalize}
use novax_ai_assignment.Agent.Service.{
  SuggestedAction, max_classification, clarifying_abstention, knowledge_gap_ticket,
}
use novax_ai_assignment.Agent.Answers.{clarified}
use novax_ai_assignment.Conversations.{MessageStatus, ChatDb}
use novax_ai_assignment.Chat.{
  ChatRequest, ChatSettings, Prepared, Route, ChatEnd, start, save_assistant, remember_context,
  egress_allowed,
}
use novax_ai_assignment.Chat.Turn.{
  Surroundings, Missing, unavailable, broken, retrieve_reviewed, say, save_error, maybe_summarize,
}

-- The server-sent events. The code of an error is none for `retrieval_unavailable`.
pub data Sse : Type 0 where
  meta : ℕ → Sse
  model : String → String → Bool → Sse
  delta : String → Sse
  done : String → List Citation → Bool → Bool → Option SuggestedAction → Sse
  error : Option StreamCode → Bool → Sse

-- The variables of `events`, the tables, the events handed out, and how many more the client reads;
-- none is a client that stays.
pub record Going : Type 0 where
  pub db : ChatDb
  pub produced : List String
  pub model_id : Option String
  pub finished : Bool
  pub sent : List Sse
  pub reads : Option ℕ

-- The generator goes on, or leaves its body at a `return` or an exception.
pub data Flow : Type 0 where
  next halt : Going → Flow

abbrev pub then_do : Flow → (Going → Flow) → Flow
then_do (next s) f = f s
then_do (halt s) f = halt s

abbrev pub hand_out : Sse → Going → Option ℕ → Flow
hand_out e s none = next (record s { sent = s.sent ++ (e ∷ []) })
hand_out e s (some zero) = halt (record s { sent = s.sent ++ (e ∷ []) })
hand_out e s (some (suc n)) = next (record s { sent = s.sent ++ (e ∷ []); reads = some n })

-- `yield`
unfoldable pub emit : Sse → Going → Flow
emit e s = hand_out e s s.reads

abbrev pub remembered_state : Prepared → RetrievalResult → Going → Going
remembered_state prep r s = record s {
  db = remember_context prep (max_classification r.chunks) s.db;
}

-- The generator before its first step.
abbrev pub begin : ChatDb → Option ℕ → Going
begin db reads = record {
  db = db;
  produced = [];
  model_id = none;
  finished = false;
  sent = [];
  reads = reads;
}

abbrev pub status_of : Bool → MessageStatus
status_of started = if started then MessageStatus.partial else MessageStatus.error

module _ (g : Gateway) (settings : ChatSettings) (request_id : String) (env : Surroundings)
    (principal : Principal) where
  -- The message of an answer that did not come to its end.
  abbrev pub save_produced : Prepared → MessageStatus → Going → ChatDb
  save_produced prep status s =
      save_assistant g settings request_id prep.conversation_id (concat_texts s.produced) status
        s.model_id none none s.db

  -- A text that is there at once, as one delta and its end.
  unfoldable pub tell : Prepared → String → Bool → Option SuggestedAction → Going → Flow
  unfolding emit
  tell prep text abstained action s =
      then_do
        (emit (delta text) (record s {
          finished = true;
          db = say g settings request_id env principal prep text s.db;
        }))
        (emit (done text [] true abstained action))

  abbrev pub answer_of : List RetrievedChunk → Going → GroundedAnswer
  answer_of chunks s =
      clarified env.phrases (some principal) (finalize env.wording (concat_texts s.produced) chunks)

  abbrev pub done_of : Prepared → GroundedAnswer → Sse
  done_of prep a = done a.text a.citations (grounded a) a.abstained (
      if a.abstained then knowledge_gap_ticket env.phrases prep.question (some principal) else none)

  abbrev pub store_answer : Prepared → GroundedAnswer → ModelSpec → Usage → Going → Going
  store_answer prep a spec usage s = record s {
    finished = true;
    db =
        save_assistant g settings request_id prep.conversation_id a.text MessageStatus.complete
          (some spec.id) (some usage) (some a.citations) s.db;
  }

  abbrev pub summarize : Prepared → Going → Flow
  summarize prep s =
      next (record s { db = maybe_summarize g settings request_id env principal prep s.db })

  -- The `case` statement on the gateway's events.
  unfoldable pub on_event : Prepared → List RetrievedChunk → StreamEvent → Going → Flow
  unfolding emit
  on_event prep chunks (Stream.started spec fallback) s =
      emit (model spec.id spec.provider fallback) (record s { model_id = some spec.id })
  on_event prep chunks (Stream.shown text) s =
      emit (delta text) (record s { produced = s.produced ++ (text ∷ []) })
  on_event prep chunks (Stream.completed spec usage reason attempts) s =
      let a = answer_of chunks s in
      then_do (emit (done_of prep a) (store_answer prep a spec usage s)) (summarize prep)
  on_event prep chunks (Stream.stopped code started attempts) s =
      emit (error (some code) started)
        (record s { finished = true; db = save_produced prep (status_of started) s })

  unfoldable pub on_events : Prepared → List RetrievedChunk → List StreamEvent → Going → Flow
  unfolding on_event
  on_events prep chunks [] s = next s
  on_events prep chunks (e ∷ events) s =
      then_do (on_event prep chunks e s) (on_events prep chunks events)

  abbrev pub events_of : Streamed → List StreamEvent
  events_of (Stream.closed events) = events
  events_of (Stream.raised events) = events
  events_of _ = []

  -- The call of the gateway.
  abbrev pub opened_stream :
      Streams → StreamLimits → ChatRequest → Prepared → RetrievalResult → World → Streamed
  opened_stream streams limits body prep r w =
      (open_stream g streams limits
        (build_messages env.wording env.prompts prep.question r.chunks prep.history
          (ltb 0 r.admitted_by_review))
        (record { temperature = some body.temperature; max_tokens = body.max_tokens })
        prep.model_choice (egress_allowed settings.answers.egress_max_classification prep r) w).0

  -- The answer of a model over what was found.
  unfoldable pub stream_answer :
      Streams → StreamLimits → ChatRequest → Prepared → RetrievalResult → World → Going → Flow
  unfolding on_events
  stream_answer streams limits body prep r w s =
      on_events prep r.chunks (events_of (opened_stream streams limits body prep r w)) s

  abbrev pub from_documents :
      Streams
      → StreamLimits
      → ChatRequest
      → Prepared
      → Result Missing RetrievalResult × World
      → Going
      → Flow
  from_documents streams limits body prep (err unavailable, w) s =
      emit (error none false) (record s {
        finished = true;
        db = save_error g settings request_id env principal prep s.db;
      })
  from_documents streams limits body prep (err broken, w) s = halt s
  from_documents streams limits body prep (ok r, w) s =
      let s' = remembered_state prep r s in
      if ltb 0 (length r.chunks)
      then stream_answer streams limits body prep r w s'
      else tell prep (clarifying_abstention env.phrases (some principal)).text true
          (knowledge_gap_ticket env.phrases prep.question (some principal)) s'

  -- The body of the `try` statement; a route that is none is an exception of the agent's graph.
  unfoldable pub stream_body :
      Streams → StreamLimits → ChatRequest → Store → Prepared → World → Option Route → Going → Flow
  unfolding tell stream_answer
  stream_body streams limits body st prep w none s = halt s
  stream_body streams limits body st prep w (some (Route.small_talk text)) s =
      tell prep text false none s
  stream_body streams limits body st prep w (some (Route.refuse text)) s =
      tell prep text false none s
  stream_body streams limits body st prep w (some (Route.tool text)) s = tell prep text false none s
  stream_body streams limits body st prep w (some Route.knowledge) s =
      from_documents streams limits body prep
        (retrieve_reviewed g settings request_id env principal st prep w) s

  -- The `finally` clause.
  abbrev pub finally_save : Prepared → Going → Going
  finally_save prep s =
      if s.finished then s else record s { db = save_produced prep MessageStatus.partial s }

  abbrev pub closing : Prepared → Flow → Going
  closing prep (next s) = finally_save prep s
  closing prep (halt s) = finally_save prep s

  -- The first event stands before the `try` statement.
  abbrev pub after_meta : Prepared → (Going → Flow) → Flow → Going
  after_meta prep body (halt s) = s
  after_meta prep body (next s) = closing prep (body s)

  -- `events`
  unfoldable pub events :
      Streams
      → StreamLimits
      → ChatRequest
      → Store
      → Prepared
      → World
      → Option Route
      → ChatDb
      → Option ℕ
      → Going
  unfolding stream_body emit
  events streams limits body st prep w route db reads =
      after_meta prep (stream_body streams limits body st prep w route)
        (emit (meta prep.conversation_id) (begin db reads))

  -- `chat_stream`: a refusal before the stream, or the stream.
  abbrev pub stream_started :
      Streams
      → StreamLimits
      → ChatRequest
      → Store
      → (Prepared → Option Route)
      → Option ℕ
      → World
      → Result ChatEnd (Prepared × ChatDb)
      → Result ChatEnd Going
  stream_started streams limits body st route reads w (err e) = err e
  stream_started streams limits body st route reads w (ok (prep, db)) =
      ok (events streams limits body st prep w (route prep) db reads)

  unfoldable pub chat_stream :
      Streams
      → StreamLimits
      → ChatRequest
      → Store
      → (Prepared → Option Route)
      → Option ℕ
      → ChatDb
      → World
      → Result ChatEnd Going
  unfolding events
  chat_stream streams limits body st route reads db w =
      stream_started streams limits body st route reads w
        (start g settings request_id body principal.user_id db)
