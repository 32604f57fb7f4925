-- ===== src/Agent/Answers/Local.antt =====
-- Where `answer_from_knowledge`, src/opsassist/agent/service.py, sends its requests.
use novax_ai_assignment.Base.{
  String, refl, false, Option, none, some, List, [], ltb, length, All, All-append, Result, ok, err,
  if-both,
}
use novax_ai_assignment.Policy.Auth.{Principal}
use novax_ai_assignment.Gateway.Records.{ChatParams}
use novax_ai_assignment.Gateway.Run.{World}
use novax_ai_assignment.Gateway.Calls.{Gateway, ChatMessage, ChatResult, Outcome, chat}
use novax_ai_assignment.Gateway.Calls.Egress.{LocalRequest, chat-LocalRequest}
use novax_ai_assignment.Knowledge.Retrieval.{RetrievedChunk, RetrievalResult}
use novax_ai_assignment.Agent.Rag.{Wording, Prompts, GroundedAnswer, build_messages}
use novax_ai_assignment.Agent.Service.{
  Phrases, Escape, gateway_error, other, ChatOutcome, AnswerResult,
}
use novax_ai_assignment.Agent.Answers.{
  Chats, AnswerSettings, append_sent, ask_model, after_second, escalate, after_first,
  answer_from_knowledge,
}

module _ (g : Gateway) (chats : Chats) where
  abbrev pub AllLocal : World → Type 0
  AllLocal w = All (LocalRequest g.catalog) w.sent

  append-AllLocal :
      (w : World) (r : Outcome ChatResult × World)
      → AllLocal w
      → All (LocalRequest g.catalog) r.1.sent
      → AllLocal (append_sent w r).1
  append-AllLocal w (outcome, w') h h' = All-append (LocalRequest g.catalog) w.sent w'.sent h h'

  pub ask_model-AllLocal :
      (route : Option String) (messages : List ChatMessage) (params : ChatParams) (w : World)
      → AllLocal w
      → AllLocal (ask_model g chats route messages params false w).1
  unfolding ask_model
  ask_model-AllLocal route messages params w h =
      append-AllLocal w (chat g chats route messages params false (record w { sent = [] })) h
        (chat-LocalRequest g chats route messages params (record w { sent = [] }) refl)

  module _ (wording : Wording) (prompts : Prompts) (phrases : Phrases) (settings : AnswerSettings)
      (question : String) (principal : Option Principal) where
    after_second-world :
        (chunks : List RetrievedChunk) (a : GroundedAnswer) (first : ChatOutcome)
        (reason model : String) (r : Result Escape ChatOutcome × World)
        → AllLocal r.1
        → AllLocal
            (after_second g chats wording prompts phrases settings chunks a first reason model r).1
    unfolding after_second
    after_second-world chunks a first reason model (err (gateway_error code attempts), w) h = h
    after_second-world chunks a first reason model (err other, w) h = h
    after_second-world chunks a first reason model (ok second, w) h = h

    module _ (call : Option String → World → Result Escape ChatOutcome × World)
        (stays : (route : Option String) (w : World) → AllLocal w → AllLocal (call route w).1) where
      escalate-AllLocal :
          (chunks : List RetrievedChunk) (a : GroundedAnswer) (first : ChatOutcome) (w : World)
          (reason model : Option String)
          → AllLocal w
          → AllLocal
              (escalate g chats wording prompts phrases settings question principal call chunks a
                first w reason model).1
      unfolding escalate
      escalate-AllLocal chunks a first w (some reason) (some model) h =
          after_second-world chunks a first reason model (call (some model) w)
            (stays (some model) w h)
      escalate-AllLocal chunks a first w (some reason) none h = h
      escalate-AllLocal chunks a first w none model h = h

      after_first-AllLocal :
          (chunks : List RetrievedChunk) (r : Result Escape ChatOutcome × World)
          → AllLocal r.1
          → AllLocal
              (after_first g chats wording prompts phrases settings question principal call chunks
                r).1
      unfolding after_first
      after_first-AllLocal chunks (err (gateway_error code attempts), w) h = h
      after_first-AllLocal chunks (err other, w) h = h
      after_first-AllLocal chunks (ok first, w) h = escalate-AllLocal chunks _ first w _ _ h

    -- An answer that may not leave the box asks models only where their provider keeps data on it, the
    -- escalation included.
    pub answer_from_knowledge-AllLocal :
        (history : List ChatMessage) (r : RetrievalResult) (model_choice : Option String)
        (params : ChatParams) (w : World)
        → AllLocal w
        → AllLocal
            (answer_from_knowledge g chats wording prompts phrases settings question principal
              history r model_choice params false w).1
    unfolding answer_from_knowledge
    answer_from_knowledge-AllLocal history r model_choice params w h =
        if-both (λ (x : Result Escape AnswerResult × World). AllLocal x.1) (ltb 0 (length r.chunks))
          (λ e.
            after_first-AllLocal (λ route w'. ask_model g chats route messages params false w')
              (λ route w' h'. ask_model-AllLocal route messages params w' h') r.chunks
              (ask_model g chats model_choice messages params false w)
              (ask_model-AllLocal model_choice messages params w h))
          (λ e. h)
      where
        messages : List ChatMessage
        messages =
            build_messages wording prompts question r.chunks history (ltb 0 r.admitted_by_review)
