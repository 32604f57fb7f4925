-- ===== src/Chat/Stream/Stored.antt =====
-- What `chat_stream`, src/opsassist/api/chat.py, stores of a stream, against what the client was sent.
use novax_ai_assignment.Base.{
  ℕ, zero, suc, String, ◌≡◌, refl, inl, inr, ap, sym, ◌∙◌, true, false, Option, none, some, [], ◌∷◌,
  ltb, length, All-append, Result, ok, err, if-both,
}
use novax_ai_assignment.Policy.Auth.{Principal}
use novax_ai_assignment.Gateway.Run.{World}
use novax_ai_assignment.Gateway.Calls.{Gateway}
use novax_ai_assignment.Gateway.Stream.{concat_texts}
use novax_ai_assignment.Gateway.Stream.Opened.{Streams, StreamLimits, open_stream-IsStream}
use novax_ai_assignment.Knowledge.Index.{Store}
use novax_ai_assignment.Knowledge.Retrieval.{RetrievalResult}
use novax_ai_assignment.Agent.Rag.{build_messages}
use novax_ai_assignment.Agent.Service.{
  max_classification, clarifying_abstention, knowledge_gap_ticket,
}
use novax_ai_assignment.Conversations.{MessageStatus, ChatDb}
use novax_ai_assignment.Chat.{
  ChatRequest, ChatSettings, Prepared, Route, ChatEnd, start, egress_allowed,
}
use novax_ai_assignment.Chat.Turn.{Surroundings, Missing, unavailable, broken, retrieve_reviewed}
use novax_ai_assignment.Chat.Written.{Asked, Written, remember_context-SameRows}
use novax_ai_assignment.Chat.Persists.{Started, start-Started}
use novax_ai_assignment.Chat.Stream.{
  meta, error, Going, Flow, next, halt, emit, opened_stream, stream_answer, remembered_state,
  from_documents, stream_body, closing, begin, events, stream_started, chat_stream,
}
use novax_ai_assignment.Chat.Stream.Shown.{Untold, Stored, deltas-silent, Of, emit-Of}
use novax_ai_assignment.Chat.Stream.States.{Open, State, saved, replied, finally-Stored, tell-State}
use novax_ai_assignment.Chat.Stream.Relayed.{stream-State}

module _ (g : Gateway) (settings : ChatSettings) (request_id : String) (env : Surroundings)
    (principal : Principal) (prep : Prepared) (db : ChatDb) (body : ChatRequest) where
  abbrev IsOpen : Going → Type 0
  IsOpen = Open g settings request_id env principal prep db body

  abbrev InState : Going → Type 0
  InState = State g settings request_id env principal prep db body

  remembered : (s : Going) (r : RetrievalResult) → IsOpen s → IsOpen (remembered_state prep r s)
  remembered s r h =
      let same = remember_context-SameRows prep (max_classification r.chunks) s.db in
      record {
        running = h.running;
        asked = record {
          asked = h.asked.asked;
          is = h.asked.is;
          rows = same.rows ∙ h.asked.rows;
          next = same.next ∙ h.asked.next;
        };
        shown = h.shown;
        untold = h.untold;
      }

  unavailable-State :
      (s : Going)
      → IsOpen s
      → s.produced ≡ []
      → Of InState (
          emit (error none false) (record s {
            finished = true;
            db =
                (saved g settings request_id env principal prep db body) "" MessageStatus.error none
                  none none s.db;
          }))
  unfolding concat_texts
  unavailable-State s h fresh = emit-Of InState (error none false) _ (λ reads. inr (record {
    over = refl;
    stored = record {
      status = MessageStatus.error;
      text = "";
      replied =
          (replied g settings request_id env principal prep db body) "" MessageStatus.error none
            none none s.db h.asked;
      shows = (
        sym (
            ap concat_texts
              (deltas-silent s.sent (error none false ∷ []) refl ∙ sym h.shown ∙ fresh)),
        All-append Untold s.sent (error none false ∷ []) h.untold (tt, tt),
      );
    };
  }))

  module _ (streams : Streams) (limits : StreamLimits) where
    documents-State :
        (r : Result Missing RetrievalResult × World) (s : Going)
        → IsOpen s
        → s.produced ≡ []
        → Of InState
            (from_documents g settings request_id env principal streams limits body prep r s)
    unfolding stream_answer
    documents-State (err unavailable, w) s h fresh = unavailable-State s h fresh
    documents-State (err broken, w) s h fresh = inl h
    documents-State (ok r, w) s h fresh =
        if-both (Of InState) (ltb 0 (length r.chunks))
          (λ e.
            (stream-State g settings request_id env principal prep db body) r.chunks
              (opened_stream g settings request_id env principal streams limits body prep r w)
              (remembered_state prep r s)
              (open_stream-IsStream g streams limits
                (build_messages env.wording env.prompts prep.question r.chunks prep.history
                  (ltb 0 r.admitted_by_review))
                (record { temperature = some body.temperature; max_tokens = body.max_tokens })
                prep.model_choice (egress_allowed settings.answers.egress_max_classification prep r)
                w)
              (remembered s r h))
          (λ e.
            (tell-State g settings request_id env principal prep db body)
              (clarifying_abstention env.phrases (some principal)).text true
              (knowledge_gap_ticket env.phrases prep.question (some principal))
              (remembered_state prep r s) (remembered s r h))

    body-State :
        (st : Store) (w : World) (route : Option Route) (s : Going)
        → IsOpen s
        → s.produced ≡ []
        → Of InState
            (stream_body g settings request_id env principal streams limits body st prep w route s)
    unfolding stream_body
    body-State st w none s h fresh = inl h
    body-State st w (some (Route.small_talk text)) s h fresh =
        (tell-State g settings request_id env principal prep db body) text false none s h
    body-State st w (some (Route.refuse text)) s h fresh =
        (tell-State g settings request_id env principal prep db body) text false none s h
    body-State st w (some (Route.tool text)) s h fresh =
        (tell-State g settings request_id env principal prep db body) text false none s h
    body-State st w (some Route.knowledge) s h fresh =
        documents-State (retrieve_reviewed g settings request_id env principal st prep w) s h fresh

    closing-Stored :
        (f : Flow)
        → Of InState f
        → (λ (t : Going). Stored db body prep.conversation_id t.sent t.db)
            (closing g settings request_id env principal prep f)
    closing-Stored (next s) h =
        (finally-Stored g settings request_id env principal prep db body) s h
    closing-Stored (halt s) h =
        (finally-Stored g settings request_id env principal prep db body) s h

    -- The variables behind the first event.
    abbrev met_state : ChatDb → Option ℕ → Going
    met_state db1 reads = record (begin db1 reads) { sent = meta prep.conversation_id ∷ [] }

    met :
        (db1 : ChatDb) (reads : Option ℕ) (st : Store) (w : World) (route : Option Route)
        → Asked db body prep.conversation_id db1
        → (λ (t : Going). Stored db body prep.conversation_id t.sent t.db)
            (closing g settings request_id env principal prep (
              stream_body g settings request_id env principal streams limits body st prep w route
                (met_state db1 reads)))
    met db1 reads st w route asked =
        closing-Stored
          (stream_body g settings request_id env principal streams limits body st prep w route
            (met_state db1 reads))
          (body-State st w route (met_state db1 reads)
            (record { running = refl; asked = asked; shown = refl; untold = (tt, tt) }) refl)

    -- Behind the first event the message of the assistant is stored.
    abbrev pub Left : Option ℕ → Going → Type 0
    Left (some zero) s = Asked db body prep.conversation_id s.db
    Left _ s = Stored db body prep.conversation_id s.sent s.db

    events-Left :
        (st : Store) (w : World) (route : Option Route) (db1 : ChatDb) (reads : Option ℕ)
        → Asked db body prep.conversation_id db1
        → Left reads (
            events g settings request_id env principal streams limits body st prep w route db1
              reads)
    unfolding events emit
    events-Left st w route db1 none asked = met db1 none st w route asked
    events-Left st w route db1 (some zero) asked = asked
    events-Left st w route db1 (some (suc n)) asked = met db1 (some n) st w route asked

module _ (g : Gateway) (settings : ChatSettings) (request_id : String) (env : Surroundings)
    (principal : Principal) (streams : Streams) (limits : StreamLimits) where
  abbrev pub Leaves : ChatDb → ChatRequest → Option ℕ → Result ChatEnd Going → Type 0
  Leaves db body reads (err e) = Written db body e db
  Leaves db body (some zero) (ok s) = ((id : ℕ) × Asked db body id s.db)
  Leaves db body none (ok s) = ((id : ℕ) × Stored db body id s.sent s.db)
  Leaves db body (some (suc n)) (ok s) = ((id : ℕ) × Stored db body id s.sent s.db)

  stream_started-Leaves :
      (body : ChatRequest) (st : Store) (route : Prepared → Option Route) (reads : Option ℕ)
      (db : ChatDb) (w : World) (r : Result ChatEnd (Prepared × ChatDb))
      → Started g settings request_id db body r
      → Leaves db body reads (
          stream_started g settings request_id env principal streams limits body st route reads w r)
  stream_started-Leaves body st route reads db w (err e) h = h
  stream_started-Leaves body st route none db w (ok (prep, db1)) h = (
    prep.conversation_id,
    events-Left g settings request_id env principal prep db body streams limits st w (route prep)
        db1 none h,
  )
  stream_started-Leaves body st route (some zero) db w (ok (prep, db1)) h = (
    prep.conversation_id,
    events-Left g settings request_id env principal prep db body streams limits st w (route prep)
        db1 (some zero) h,
  )
  stream_started-Leaves body st route (some (suc n)) db w (ok (prep, db1)) h = (
    prep.conversation_id,
    events-Left g settings request_id env principal prep db body streams limits st w (route prep)
        db1 (some (suc n)) h,
  )

  -- However a stream ends, by its end, by a failure, by an exception of the agent, of the search or of
  -- the gateway, or by a client that goes away after any number of events but the first, exactly one message of the assistant is stored behind the user's:
  -- a complete one with the text that the last event tells, if it is told, or one that is partial or an
  -- error, whose text is the deltas that were sent. A client that goes away at the first event leaves
  -- the user's message alone. Where the request is refused, there is no stream.
  pub chat_stream-Leaves :
      (body : ChatRequest) (st : Store) (route : Prepared → Option Route) (reads : Option ℕ)
      (db : ChatDb) (w : World)
      → Leaves db body reads
          (chat_stream g settings request_id env principal streams limits body st route reads db w)
  unfolding chat_stream
  chat_stream-Leaves body st route reads db w =
      stream_started-Leaves body st route reads db w
        (start g settings request_id body principal.user_id db)
        (start-Started g settings request_id body principal.user_id db)
