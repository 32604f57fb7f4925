-- ===== src/Agent/Answers.antt =====
-- src/opsassist/agent/service.py: `review_near_misses` and `answer_from_knowledge` over the gateway. The
-- record of sent requests starts empty at each call of a model, and is kept behind the earlier ones.
pub mod Grounded
pub mod Local
pub mod Tests
use novax_ai_assignment.Base.{
  ℕ, String, Bool, true, ◌||◌, Option, none, some, List, [], ◌++◌, ◌==◌, ltb, length, is_empty,
  Result, ok, err, if◌then◌else◌,
}
use novax_ai_assignment.Config.{allows_egress}
use novax_ai_assignment.Policy.Auth.{Principal}
use novax_ai_assignment.Gateway.Records.{ChatParams}
use novax_ai_assignment.Gateway.Run.{World, Answer}
use novax_ai_assignment.Gateway.Calls.{Gateway, ChatMessage, ChatResult, Outcome, chat}
use novax_ai_assignment.Knowledge.Retrieval.{RetrievedChunk, RetrievalResult}
use novax_ai_assignment.Agent.Rag.{
  Wording, Prompts, GroundedAnswer, plain_answer, abstain, finalize, build_messages,
  gate_review_messages,
}
use novax_ai_assignment.Agent.Service.{
  Phrases, Escape, gateway_error, other, ChatOutcome, outcome_of, AnswerResult, plain_result,
  EscalationOutcome, admitted_passages, pick_chunks, max_classification, escalation_reason,
  picks_second, clarifying_abstention, with_gap_ticket, result_of, both_paid,
}

-- `_CHATS`: the chat call of each provider that has one.
abbrev pub Chats : Type 0
Chats = String → Option (String → List ChatMessage → ChatParams → ℕ → Answer ChatResult)

abbrev pub append_sent : World → Outcome ChatResult × World → Result Escape ChatOutcome × World
append_sent w (outcome, w') = (outcome_of outcome, record w' { sent = w.sent ++ w'.sent })

-- `gateway.chat`
unfoldable pub ask_model :
    Gateway
    → Chats
    → Option String
    → List ChatMessage
    → ChatParams
    → Bool
    → World
    → Result Escape ChatOutcome × World
ask_model g chats route messages params allow_egress w =
    append_sent w (chat g chats route messages params allow_egress (record w { sent = [] }))

-- The parts of the settings that are read here.
pub record AnswerSettings : Type 0 where
  pub egress_max_classification : String
  pub router_model : Option String
  pub escalation_model : Option String

-- `a or b`, of texts that may be missing.
abbrev pub or_else : Option String → Option String → Option String
or_else none b = b
or_else (some s) b = if is_empty s then b else some s

-- `clarifying_abstention` in place of an answer that abstains.
unfoldable pub clarified : Phrases → Option Principal → GroundedAnswer → GroundedAnswer
clarified phrases principal answer =
    if answer.abstained then clarifying_abstention phrases principal else answer

module _ (g : Gateway) (chats : Chats) (wording : Wording) (prompts : Prompts) (phrases : Phrases)
    (settings : AnswerSettings) where
  abbrev pub judge_params : ChatParams
  judge_params = record { temperature = some 0; max_tokens = 150 }

  unfoldable pub admit_reviewed :
      RetrievalResult → Result Escape ChatOutcome × World → Result Escape RetrievalResult × World
  admit_reviewed r (err (gateway_error code attempts), w) =
      (ok (record r { chunks = []; reviewed = length r.near_misses; admitted_by_review = 0 }), w)
  admit_reviewed r (err other, w) = (err other, w)
  admit_reviewed r (ok outcome, w) =
      let admitted = admitted_passages phrases outcome.result.content (length r.near_misses) in
      (
        ok (record r {
          chunks = pick_chunks r.near_misses admitted;
          reviewed = length r.near_misses;
          admitted_by_review = length admitted;
        }),
        w,
      )

  -- `review_near_misses`
  unfoldable pub review_near_misses :
      String → RetrievalResult → Option String → World → Result Escape RetrievalResult × World
  unfolding admit_reviewed
  review_near_misses question r model_choice w =
      if ltb 0 (length r.chunks)
      then (ok r, w)
      else if ltb 0 (length r.near_misses)
      then admit_reviewed r (
          ask_model g chats (or_else settings.router_model model_choice)
            (gate_review_messages wording prompts question r.near_misses) judge_params
            (allows_egress settings.egress_max_classification (max_classification r.near_misses)) w)
      else (ok r, w)

  -- After the second call: which answer is shown.
  unfoldable pub after_second :
      List RetrievedChunk
      → GroundedAnswer
      → ChatOutcome
      → String
      → String
      → Result Escape ChatOutcome × World
      → Result Escape AnswerResult × World
  after_second chunks answer first reason model (err (gateway_error code attempts), w) = (
    ok (record (result_of answer first) {
      escalation = some (record {
        reason = reason;
        first_model = first.model.id;
        model = model;
        outcome = EscalationOutcome.unavailable;
      });
    }),
    w,
  )
  after_second chunks answer first reason model (err other, w) = (err other, w)
  after_second chunks answer first reason model (ok second, w) =
      let answer' = finalize wording second.result.content chunks in
      let picked = picks_second answer' in
      (
        ok (
            both_paid (if picked then result_of answer' second else result_of answer first) first
              second
              (record {
                reason = reason;
                first_model = first.model.id;
                model = model;
                outcome = if picked then EscalationOutcome.used else EscalationOutcome.kept_first;
              })),
        w,
      )

  -- Whether a second model is asked, and which.
  unfoldable pub second_model : Option String → ChatOutcome → Option String
  second_model reason first = choose reason settings.escalation_model
    where
      choose : Option String → Option String → Option String
      choose none model = none
      choose (some reason) none = none
      choose (some reason) (some model) =
          if is_empty model || model == first.model.id then none else some model

  module _ (question : String) (principal : Option Principal) where
    -- After the first call.
    unfoldable pub escalate :
        (Option String → World → Result Escape ChatOutcome × World)
        → List RetrievedChunk
        → GroundedAnswer
        → ChatOutcome
        → World
        → Option String
        → Option String
        → Result Escape AnswerResult × World
    unfolding after_second
    escalate call chunks answer first w (some reason) (some model) =
        after_second chunks answer first reason model (call (some model) w)
    escalate call chunks answer first w _ _ =
        (ok (with_gap_ticket phrases (result_of answer first) question principal), w)

    unfoldable pub after_first :
        (Option String → World → Result Escape ChatOutcome × World)
        → List RetrievedChunk
        → Result Escape ChatOutcome × World
        → Result Escape AnswerResult × World
    unfolding escalate second_model clarified
    after_first call chunks (err (gateway_error code attempts), w) = (
      ok (record (plain_result (plain_answer abstain true) none) {
        text = "";
        error = some (code, attempts);
      }),
      w,
    )
    after_first call chunks (err other, w) = (err other, w)
    after_first call chunks (ok first, w) =
        let answer = clarified phrases principal (finalize wording first.result.content chunks) in
        let reason = escalation_reason phrases answer (ltb 0 (length chunks)) in
        escalate call chunks answer first w reason (second_model reason first)

    -- `answer_from_knowledge`
    unfoldable pub answer_from_knowledge :
        List ChatMessage
        → RetrievalResult
        → Option String
        → ChatParams
        → Bool
        → World
        → Result Escape AnswerResult × World
    unfolding after_first
    answer_from_knowledge history r model_choice params allow_egress w =
        let messages =
          build_messages wording prompts question r.chunks history (ltb 0 r.admitted_by_review) in
        let call = λ (route : Option String) (w : World).
          ask_model g chats route messages params allow_egress w in
        let asked = after_first call r.chunks (call model_choice w) in
        if ltb 0 (length r.chunks) then asked else (
          ok (
              with_gap_ticket phrases
                (plain_result (clarifying_abstention phrases principal) (some "knowledge")) question
                principal),
          w,
        )
