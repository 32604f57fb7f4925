-- ===== src/Chat/Stream/Relayed.antt =====
-- The events of the gateway as `chat_stream`, src/opsassist/api/chat.py, relays them.
use novax_ai_assignment.Base.{String, refl, inl, Bool, true, false, some, List, [], ◌∷◌}
use novax_ai_assignment.Policy.Auth.{Principal}
use novax_ai_assignment.Gateway.Calls.{Gateway}
use novax_ai_assignment.Gateway.Catalog.{ModelSpec}
use novax_ai_assignment.Gateway.Stream
use novax_ai_assignment.Gateway.Stream.{StreamCode, StreamEvent, Streamed, concat_texts}
use novax_ai_assignment.Gateway.Stream.Shape.{IsAnswer, IsText, IsStream}
use novax_ai_assignment.Knowledge.Retrieval.{RetrievedChunk}
use novax_ai_assignment.Conversations.{ChatDb}
use novax_ai_assignment.Chat.{ChatRequest, ChatSettings, Prepared}
use novax_ai_assignment.Chat.Turn.{Surroundings}
use novax_ai_assignment.Chat.Stream.{
  model, Going, Flow, then_do, on_event, on_events, events_of, events,
}
use novax_ai_assignment.Chat.Stream.Shown.{Of, then_do-Of, emit-Of}
use novax_ai_assignment.Chat.Stream.States.{
  Open, State, shown-State, completed-State, stopped-State, opened,
}

module _ (g : Gateway) (settings : ChatSettings) (request_id : String) (env : Surroundings)
    (principal : Principal) (prep : Prepared) (db : ChatDb) (body : ChatRequest) where
  abbrev IsOpen : Going → Type 0
  IsOpen = Open g settings request_id env principal prep db body

  abbrev InState : Going → Type 0
  InState = State g settings request_id env principal prep db body

  pub go_on :
      (chunks : List RetrievedChunk) (events : List StreamEvent) (f : Flow)
      → Of IsOpen f
      → ((s : Going)
          → IsOpen s
          → Of InState (on_events g settings request_id env principal prep chunks events s))
      → Of InState (then_do f (on_events g settings request_id env principal prep chunks events))
  go_on chunks events f h go = then_do-Of IsOpen InState f _ h (λ s h'. inl h') go

  pub last_event :
      (chunks : List RetrievedChunk) (f : Flow)
      → Of InState f
      → Of InState (then_do f (on_events g settings request_id env principal prep chunks []))
  unfolding on_events
  last_event chunks f h = then_do-Of InState InState f _ h (λ s h'. h') (λ s h'. h')

  pub answer-State :
      (chunks : List RetrievedChunk) (spec : ModelSpec) (events : List StreamEvent) (s : Going)
      → IsAnswer spec events
      → IsOpen s
      → Of InState (on_events g settings request_id env principal prep chunks events s)
  unfolding on_events
  answer-State chunks spec (Stream.shown text ∷ events) s is h =
      go_on chunks events _
        ((shown-State g settings request_id env principal prep db body) chunks text s h)
        (λ s' h'. answer-State chunks spec events s' is h')
  answer-State chunks spec (Stream.completed m usage reason attempts ∷ []) s is h =
      last_event chunks _ (
        (completed-State g settings request_id env principal prep db body) chunks m usage reason
          attempts s h)
  answer-State chunks spec (Stream.stopped Stream.provider_error_mid_stream true attempts ∷ []) s is
        h =
      last_event chunks _ (
        (stopped-State g settings request_id env principal prep db body) chunks
          Stream.provider_error_mid_stream true attempts s h)
  answer-State chunks spec [] s is h = absurd is
  answer-State chunks spec (Stream.started m b ∷ events) s is h = absurd is
  answer-State chunks spec (Stream.completed m usage reason attempts ∷ e ∷ events) s is h =
      absurd is
  answer-State chunks spec
        (Stream.stopped Stream.provider_error_mid_stream true attempts ∷ e ∷ events) s is h =
      absurd is
  answer-State chunks spec (Stream.stopped Stream.provider_error_mid_stream false attempts ∷ events)
        s is h =
      absurd is
  answer-State chunks spec (Stream.stopped (Stream.of_gateway code) b attempts ∷ events) s is h =
      absurd is

  pub text-State :
      (chunks : List RetrievedChunk) (events : List StreamEvent) (s : Going)
      → IsText events
      → IsOpen s
      → Of InState (on_events g settings request_id env principal prep chunks events s)
  unfolding on_events
  text-State chunks [] s is h = inl h
  text-State chunks (Stream.shown text ∷ events) s is h =
      go_on chunks events _
        ((shown-State g settings request_id env principal prep db body) chunks text s h)
        (λ s' h'. text-State chunks events s' is h')
  text-State chunks (Stream.started m b ∷ events) s is h = absurd is
  text-State chunks (Stream.completed m usage reason attempts ∷ events) s is h = absurd is
  text-State chunks (Stream.stopped code b attempts ∷ events) s is h = absurd is

  pub started-State :
      (chunks : List RetrievedChunk) (spec : ModelSpec) (b : Bool) (s : Going)
      → IsOpen s
      → Of IsOpen
          (on_event g settings request_id env principal prep chunks (Stream.started spec b) s)
  unfolding on_event
  started-State chunks spec b s h =
      emit-Of IsOpen (model spec.id spec.provider b) (record s { model_id = some spec.id })
        ((opened g settings request_id env principal prep db body) s (model spec.id spec.provider b)
          refl tt h (some spec.id))

  pub stream-State :
      (chunks : List RetrievedChunk) (x : Streamed) (s : Going)
      → IsStream x
      → IsOpen s
      → Of InState (
          on_events g settings request_id env principal prep chunks
            (events_of g settings request_id env principal x)
            s)
  unfolding on_events
  stream-State chunks (Stream.closed (Stream.started spec b ∷ events)) s is h =
      go_on chunks events _ (started-State chunks spec b s h)
        (λ s' h'. answer-State chunks spec events s' is h')
  stream-State chunks (Stream.closed (Stream.stopped (Stream.of_gateway code) false attempts ∷ []))
        s is h =
      last_event chunks _ (
        (stopped-State g settings request_id env principal prep db body) chunks
          (Stream.of_gateway code) false attempts s h)
  stream-State chunks (Stream.raised []) s is h = inl h
  stream-State chunks (Stream.raised (Stream.started spec b ∷ events)) s is h =
      go_on chunks events _ (started-State chunks spec b s h)
        (λ s' h'. text-State chunks events s' is h')
  stream-State chunks (Stream.closed []) s is h = absurd is
  stream-State chunks (Stream.closed (Stream.shown text ∷ events)) s is h = absurd is
  stream-State chunks (Stream.closed (Stream.completed m usage reason attempts ∷ events)) s is h =
      absurd is
  stream-State chunks
        (Stream.closed (Stream.stopped (Stream.of_gateway code) false attempts ∷ e ∷ events)) s is
        h =
      absurd is
  stream-State chunks
        (Stream.closed (Stream.stopped (Stream.of_gateway code) true attempts ∷ events)) s is h =
      absurd is
  stream-State chunks
        (Stream.closed (Stream.stopped Stream.provider_error_mid_stream b attempts ∷ events)) s is
        h =
      absurd is
  stream-State chunks (Stream.raised (Stream.shown text ∷ events)) s is h = absurd is
  stream-State chunks (Stream.raised (Stream.completed m usage reason attempts ∷ events)) s is h =
      absurd is
  stream-State chunks (Stream.raised (Stream.stopped code b attempts ∷ events)) s is h = absurd is
  stream-State chunks (Stream.again attempts) s is h = absurd is
  stream-State chunks (Stream.move_on attempts) s is h = absurd is
