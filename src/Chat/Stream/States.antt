-- ===== src/Chat/Stream/States.antt =====
-- The states of a stream of `chat_stream`, src/opsassist/api/chat.py: before and after its message is
-- stored.
use novax_ai_assignment.Base.{
  ℕ, String, ◌≡◌, refl, ◌⊎◌, inl, inr, ap, sym, ◌∙◌, Bool, true, false, Option, none, some, List,
  [], ◌∷◌, ◌++◌, All, All-append, All-imp, if◌then◌else◌,
}
use novax_ai_assignment.Policy.Auth.{Principal}
use novax_ai_assignment.Gateway.Errors.{Usage}
use novax_ai_assignment.Gateway.Records.{AttemptRecord}
use novax_ai_assignment.Gateway.Calls.{Gateway}
use novax_ai_assignment.Gateway.Catalog.{ModelSpec}
use novax_ai_assignment.Gateway.Stream
use novax_ai_assignment.Gateway.Stream.{StreamCode, StreamEvent, Streamed, concat_texts}
use novax_ai_assignment.Knowledge.Retrieval.{RetrievedChunk}
use novax_ai_assignment.Agent.Rag.{Citation}
use novax_ai_assignment.Agent.Service.{SuggestedAction}
use novax_ai_assignment.Conversations.{MessageStatus, ChatDb, get_conversation}
use novax_ai_assignment.Chat.{ChatRequest, ChatSettings, Prepared, save_assistant}
use novax_ai_assignment.Chat.Turn.{Surroundings, maybe_summarize}
use novax_ai_assignment.Chat.Written.{Asked, Replied, SameRows, summarized-rows}
use novax_ai_assignment.Chat.Persists.{saved-Replied}
use novax_ai_assignment.Chat.Stream.{
  Sse, delta, done, error, Going, emit, status_of, tell, answer_of, done_of, store_answer,
  summarize, on_event, finally_save,
}
use novax_ai_assignment.Chat.Stream.Shown.{
  deltas_of, Untold, Says, Shows, Stored, deltas-delta, deltas-silent, Untold-Says, Of, emit-Of,
  then_do-Of,
}

module _ (g : Gateway) (settings : ChatSettings) (request_id : String) (env : Surroundings)
    (principal : Principal) (prep : Prepared) (db : ChatDb) (body : ChatRequest) where
  -- Nothing of an answer is stored yet, and the text so far is what was shown.
  pub record Open (s : Going) : Type 0 where
    pub running : s.finished ≡ false
    pub asked : Asked db body prep.conversation_id s.db
    pub shown : s.produced ≡ deltas_of s.sent
    pub untold : All Untold s.sent

  -- The answer is stored.
  pub record Shut (s : Going) : Type 0 where
    pub over : s.finished ≡ true
    pub stored : Stored db body prep.conversation_id s.sent s.db

  abbrev pub State : Going → Type 0
  State s = Open s ⊎ Shut s

  pub same : (db : ChatDb) → SameRows db db
  same db = record { rows = refl; next = refl }

  abbrev pub saved :
      String
      → MessageStatus
      → Option String
      → Option Usage
      → Option (List Citation)
      → ChatDb
      → ChatDb
  saved text status m usage citations db' =
      save_assistant g settings request_id prep.conversation_id text status m usage citations db'

  pub replied :
      (text : String) (status : MessageStatus) (m : Option String) (usage : Option Usage)
      (citations : Option (List Citation)) (db' : ChatDb)
      → Asked db body prep.conversation_id db'
      → Replied db body text status prep.conversation_id (saved text status m usage citations db')
  replied text status m usage citations db' h =
      saved-Replied g settings request_id db db' db' body text status prep.conversation_id m usage
        citations h (same db')

  pub finally-Stored :
      (s : Going)
      → State s
      → Stored db body prep.conversation_id
          (finally_save g settings request_id env principal prep s).sent
          (finally_save g settings request_id env principal prep s).db
  finally-Stored s h = by_finished s.finished refl h
    where
      by_finished :
          (b : Bool)
          → s.finished ≡ b
          → State s
          → (λ (t : Going). Stored db body prep.conversation_id t.sent t.db)
              (if b then s else record s {
                db =
                    saved (concat_texts s.produced) MessageStatus.partial s.model_id none none s.db;
              })
      by_finished true e (inr h) = h.stored
      by_finished true e (inl h) = cc (e, h.running)
      by_finished false e (inr h) = cc (e, h.over)
      by_finished false e (inl h) = record {
        status = MessageStatus.partial;
        text = concat_texts s.produced;
        replied =
            replied (concat_texts s.produced) MessageStatus.partial s.model_id none none s.db
              h.asked;
        shows = (ap concat_texts h.shown, h.untold);
      }

  -- A silent event before the answer is stored.
  pub opened :
      (s : Going) (e : Sse)
      → deltas_of (e ∷ []) ≡ []
      → Untold e
      → Open s
      → (m : Option String) (reads : Option ℕ)
      → Open (record s { model_id = m; sent = s.sent ++ (e ∷ []); reads = reads })
  opened s e silent u h m reads = record {
    running = h.running;
    asked = h.asked;
    shown = h.shown ∙ sym (deltas-silent s.sent (e ∷ []) silent);
    untold = All-append Untold s.sent (e ∷ []) h.untold (u, tt);
  }

  pub shown-State :
      (chunks : List RetrievedChunk) (text : String) (s : Going)
      → Open s
      → Of Open (on_event g settings request_id env principal prep chunks (Stream.shown text) s)
  unfolding on_event
  shown-State chunks text s h =
      emit-Of Open (delta text) (record s { produced = s.produced ++ (text ∷ []) })
        (λ reads. record {
          running = h.running;
          asked = h.asked;
          shown = ap (λ l. l ++ (text ∷ [])) h.shown ∙ sym (deltas-delta s.sent text);
          untold = All-append Untold s.sent (delta text ∷ []) h.untold (tt, tt);
        })

  -- A complete message of this text is stored.
  pub record Told (text : String) (s : Going) : Type 0 where
    pub over : s.finished ≡ true
    pub kept : Replied db body text MessageStatus.complete prep.conversation_id s.db
    pub said : All (Says text) s.sent

  pub Told-State : (text : String) (s : Going) → Told text s → State s
  Told-State text s h = inr (record {
    over = h.over;
    stored = record {
      status = MessageStatus.complete;
      text = text;
      replied = h.kept;
      shows = h.said;
    };
  })

  pub told :
      (s : Going) (text : String) (m : Option String) (usage : Option Usage)
      (citations : List Citation) (e : Sse)
      → Says text e
      → Open s
      → (reads : Option ℕ)
      → Told text (record s {
        finished = true;
        db = saved text MessageStatus.complete m usage (some citations) s.db;
        sent = s.sent ++ (e ∷ []);
        reads = reads;
      })
  told s text m usage citations e says h reads = record {
    over = refl;
    kept = replied text MessageStatus.complete m usage (some citations) s.db h.asked;
    said =
        All-append (Says text) s.sent (e ∷ [])
          (All-imp Untold (Says text) (Untold-Says text) s.sent h.untold) (says, tt);
  }

  pub tell-State :
      (text : String) (abstained : Bool) (action : Option SuggestedAction) (s : Going)
      → Open s
      → Of State (tell g settings request_id env principal prep text abstained action s)
  unfolding tell
  tell-State text abstained action s h =
      then_do-Of (Told text) State _ _
        (emit-Of (Told text) (delta text) _ (told s text none none [] (delta text) tt h))
        (Told-State text)
        (λ s' h'. emit-Of State (done text [] true abstained action) s' (λ reads.
          Told-State text _ (record {
            over = h'.over;
            kept = h'.kept;
            said = All-append (Says text) s'.sent _ h'.said (refl, tt);
          })))

  pub summarized-Told :
      (text : String) (s : Going)
      → Told text s
      → Told text (record s { db = maybe_summarize g settings request_id env principal prep s.db })
  summarized-Told text s h = record {
    over = h.over;
    kept = record {
      asked = h.kept.asked;
      reply = h.kept.reply;
      is_asked = h.kept.is_asked;
      is_reply = h.kept.is_reply;
      rows =
          summarized-rows env.strip env.summarize
            (get_conversation prep.conversation_id s.db.conversations) s.db
          ∙ h.kept.rows;
    };
    said = h.said;
  }

  pub completed-State :
      (chunks : List RetrievedChunk) (spec : ModelSpec) (usage : Usage) (reason : Option String)
      (attempts : List AttemptRecord) (s : Going)
      → Open s
      → Of State (
          on_event g settings request_id env principal prep chunks
            (Stream.completed spec usage reason attempts)
            s)
  unfolding on_event
  completed-State chunks spec usage reason attempts s h =
      let a = answer_of g settings request_id env principal chunks s in
      let e = done_of g settings request_id env principal prep a in
      let s1 = store_answer g settings request_id env principal prep a spec usage s in
      then_do-Of (Told a.text) State (emit e s1)
        (summarize g settings request_id env principal prep)
        (emit-Of (Told a.text) e s1
          (told s a.text (some spec.id) (some usage) a.citations e refl h))
        (Told-State a.text) (λ s' h'. Told-State a.text _ (summarized-Told a.text s' h'))

  pub stopped-State :
      (chunks : List RetrievedChunk) (code : StreamCode) (b : Bool) (attempts : List AttemptRecord)
      (s : Going)
      → Open s
      → Of State (
          on_event g settings request_id env principal prep chunks
            (Stream.stopped code b attempts)
            s)
  unfolding on_event
  stopped-State chunks code b attempts s h = emit-Of State (error (some code) b) _ (λ reads.
      inr (record {
        over = refl;
        stored = record {
          status = status_of b;
          text = concat_texts s.produced;
          replied =
              replied (concat_texts s.produced) (status_of b) s.model_id none none s.db h.asked;
          shows = shows b;
        };
      }))
    where
      sent' : List Sse
      sent' = s.sent ++ (error (some code) b ∷ [])

      both : (concat_texts s.produced ≡ concat_texts (deltas_of sent')) × All Untold sent'
      both = (
        ap concat_texts (h.shown ∙ sym (deltas-silent s.sent (error (some code) b ∷ []) refl)),
        All-append Untold s.sent (error (some code) b ∷ []) h.untold (tt, tt),
      )

      shows : (c : Bool) → Shows (status_of c) (concat_texts s.produced) sent'
      shows true = both
      shows false = both
