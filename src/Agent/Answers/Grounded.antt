-- ===== src/Agent/Answers/Grounded.antt =====
-- What an answer of `answer_from_knowledge`, src/opsassist/agent/service.py, rests on.
use novax_ai_assignment.Base.{
  if-both, subst, ◌<◌, String, ◌≡◌, refl, Bool, true, false, Option, none, some, List, [], ◌∷◌, ltb,
  length, All, Result, ok, err, arith, if◌then◌else◌, ◌≢◌,
}
use novax_ai_assignment.Policy.Auth.{Principal}
use novax_ai_assignment.Gateway.Records.{ChatParams}
use novax_ai_assignment.Gateway.Run.{World}
use novax_ai_assignment.Gateway.Calls.{Gateway, ChatMessage}
use novax_ai_assignment.Knowledge.Retrieval.{RetrievedChunk, RetrievalResult}
use novax_ai_assignment.Agent.Rag.{Wording, Prompts, GroundedAnswer, finalize, build_messages}
use novax_ai_assignment.Agent.Rag.Citations.{PointsAt, finalize-IsCited}
use novax_ai_assignment.Agent.Service.{
  Phrases, Escape, gateway_error, other, ChatOutcome, AnswerResult, plain_result, Escalation,
  EscalationOutcome, picks_second, clarifying_abstention, with_gap_ticket, result_of, both_paid,
}
use novax_ai_assignment.Agent.Answers.{
  Chats, AnswerSettings, ask_model, clarified, after_second, escalate, after_first,
  answer_from_knowledge,
}

-- The answer that is shown cites what was retrieved.
pub record Rests (chunks : List RetrievedChunk) (a : GroundedAnswer) : Type 0 where
  pub points : All (PointsAt chunks) a.citations
  pub abstains : a.abstained ≡ true → a.citations ≡ []

pub record IsGrounded (chunks : List RetrievedChunk) (r : AnswerResult) : Type 0 where
  pub points : All (PointsAt chunks) r.answer.citations
  pub abstains : r.answer.abstained ≡ true → r.answer.citations ≡ []
  pub nothing : chunks ≡ [] → r.answer.abstained ≡ true
  pub shown : r.error ≡ none → r.text ≡ r.answer.text
  -- A second answer is shown only if it is better than an abstention.
  pub used :
      (e : Escalation)
      → r.escalation ≡ some e
      → e.outcome ≡ EscalationOutcome.used
      → (r.answer.abstained ≡ false) × (0 < length r.answer.citations)

finalize-Rests :
    (wording : Wording) (raw : String) (chunks : List RetrievedChunk)
    → Rests chunks (finalize wording raw chunks)
finalize-Rests wording raw chunks =
    let c = finalize-IsCited wording raw chunks in
    record { points = c.points; abstains = λ e. (c.abstains e).1 }

clarified-Rests :
    (phrases : Phrases) (principal : Option Principal) (chunks : List RetrievedChunk)
    (a : GroundedAnswer)
    → Rests chunks a
    → Rests chunks (clarified phrases principal a)
unfolding clarified clarifying_abstention
clarified-Rests phrases principal chunks a h =
    if-both (Rests chunks) a.abstained (λ e. record { points = tt; abstains = λ e. refl }) (λ e. h)

nonempty : (xs : List RetrievedChunk) → ltb 0 (length xs) ≡ true → xs ≢ []
nonempty [] h = λ e. cc (h)
nonempty (x ∷ xs) h = λ e. cc (e)

is_nothing : (xs : List RetrievedChunk) → ltb 0 (length xs) ≡ false → xs ≡ []
is_nothing [] h = refl
is_nothing (x ∷ xs) h = absurd (ground arith)

module _ (g : Gateway) (chats : Chats) (wording : Wording) (prompts : Prompts) (phrases : Phrases)
    (settings : AnswerSettings) (question : String) (principal : Option Principal)
    (chunks : List RetrievedChunk) (some_chunks : chunks ≢ []) where
  -- An answer, and what is kept where an exception leaves.
  abbrev pub Sound : Result Escape AnswerResult × World → Type 0
  Sound (err e, w) = Unit
  Sound (ok r, w) = IsGrounded chunks r

  result-IsGrounded :
      (a : GroundedAnswer) (o : ChatOutcome) → Rests chunks a → IsGrounded chunks (result_of a o)
  unfolding result_of
  result-IsGrounded a o h = record {
    points = h.points;
    abstains = h.abstains;
    nothing = λ e. absurd (some_chunks e);
    shown = λ e. refl;
    used = λ e is u. cc (is);
  }

  ticket-IsGrounded :
      (r : AnswerResult)
      → IsGrounded chunks r
      → IsGrounded chunks (with_gap_ticket phrases r question principal)
  unfolding with_gap_ticket
  ticket-IsGrounded r h =
      if-both (IsGrounded chunks) r.answer.abstained
        (λ e. record {
          points = h.points;
          abstains = h.abstains;
          nothing = h.nothing;
          shown = h.shown;
          used = h.used;
        })
        (λ e. h)

  second-Sound :
      (a : GroundedAnswer) (first : ChatOutcome) (reason model : String)
      (r : Result Escape ChatOutcome × World)
      → Rests chunks a
      → Sound (after_second g chats wording prompts phrases settings chunks a first reason model r)
  unfolding after_second result_of both_paid picks_second
  second-Sound a first reason model (err (gateway_error code attempts), w) h = record {
    points = h.points;
    abstains = h.abstains;
    nothing = λ e. absurd (some_chunks e);
    shown = λ e. refl;
    used = λ e is u. ground arith;
  }
  second-Sound a first reason model (err other, w) h = tt
  second-Sound a first reason model (ok second, w) h = paid (picks_second a') refl
    where
      a' : GroundedAnswer
      a' = finalize wording second.result.content chunks

      rests : Rests chunks a'
      rests = finalize-Rests wording second.result.content chunks

      paid :
          (b : Bool)
          → picks_second a' ≡ b
          → IsGrounded chunks (
              both_paid
                (if b then result_of a' second else result_of a first)
                first
                second
                (record {
                  reason = reason;
                  first_model = first.model.id;
                  model = model;
                  outcome = if b then EscalationOutcome.used else EscalationOutcome.kept_first;
                }))
      paid true picked = record {
        points = rests.points;
        abstains = rests.abstains;
        nothing = λ e. absurd (some_chunks e);
        shown = λ e. refl;
        used = λ e is u. (ground arith, ground arith);
      }
      paid false kept = record {
        points = h.points;
        abstains = h.abstains;
        nothing = λ e. absurd (some_chunks e);
        shown = λ e. refl;
        used = λ e is u. ground arith;
      }

  escalate-Sound :
      (call : Option String → World → Result Escape ChatOutcome × World) (a : GroundedAnswer)
      (first : ChatOutcome) (w : World) (reason model : Option String)
      → Rests chunks a
      → Sound (
          escalate g chats wording prompts phrases settings question principal call chunks a first w
            reason model)
  unfolding escalate
  escalate-Sound call a first w (some reason) (some model) h =
      second-Sound a first reason model (call (some model) w) h
  escalate-Sound call a first w (some reason) none h =
      ticket-IsGrounded (result_of a first) (result-IsGrounded a first h)
  escalate-Sound call a first w none model h =
      ticket-IsGrounded (result_of a first) (result-IsGrounded a first h)

  first-Sound :
      (call : Option String → World → Result Escape ChatOutcome × World)
      (r : Result Escape ChatOutcome × World)
      → Sound
          (after_first g chats wording prompts phrases settings question principal call chunks r)
  unfolding after_first
  first-Sound call (err (gateway_error code attempts), w) = record {
    points = tt;
    abstains = λ e. refl;
    nothing = λ e. refl;
    shown = λ e. cc (e);
    used = λ e is u. cc (is);
  }
  first-Sound call (err other, w) = tt
  first-Sound call (ok first, w) = escalate-Sound call _ first w _ _ (
      clarified-Rests phrases principal chunks _
        (finalize-Rests wording first.result.content chunks))

module _ (g : Gateway) (chats : Chats) (wording : Wording) (prompts : Prompts) (phrases : Phrases)
    (settings : AnswerSettings) (question : String) (principal : Option Principal)
    (history : List ChatMessage) (r : RetrievalResult) (model_choice : Option String)
    (params : ChatParams) (allow_egress : Bool) (w : World) where
  abbrev pub answered : Result Escape AnswerResult × World
  answered =
      answer_from_knowledge g chats wording prompts phrases settings question principal history r
        model_choice params allow_egress w

  abbrev Good : Result Escape AnswerResult × World → Type 0
  Good (err e, w') = Unit
  Good (ok a, w') = IsGrounded r.chunks a

  abstention-IsGrounded :
      r.chunks ≡ []
      → IsGrounded r.chunks (
          with_gap_ticket phrases
            (plain_result (clarifying_abstention phrases principal) (some "knowledge"))
            question
            principal)
  unfolding with_gap_ticket clarifying_abstention
  abstention-IsGrounded e = record {
    points = tt;
    abstains = λ e. refl;
    nothing = λ e. refl;
    shown = λ e. refl;
    used = λ e is u. cc (is);
  }

  abbrev messages : List ChatMessage
  messages = build_messages wording prompts question r.chunks history (ltb 0 r.admitted_by_review)

  answered-Good : Good answered
  unfolding answer_from_knowledge
  answered-Good =
      if-both Good (ltb 0 (length r.chunks))
        (λ e.
          first-Sound g chats wording prompts phrases settings question principal r.chunks
            (nonempty r.chunks e)
            (λ route w'. ask_model g chats route messages params allow_egress w')
            (ask_model g chats model_choice messages params allow_egress w))
        (λ e. abstention-IsGrounded (is_nothing r.chunks e))

  -- Whatever the models write, and whether a second one is asked: each citation of an answer shows the
  -- retrieved chunk of its number; an abstention cites nothing; where nothing was retrieved the answer
  -- is an abstention; the text is that of the answer, unless the gateway failed; and a second answer
  -- that was used is no abstention and has a citation.
  pub answer_from_knowledge-IsGrounded :
      (a : AnswerResult)
      → (answer_from_knowledge g chats wording prompts phrases settings question principal history r
          model_choice params allow_egress w).0
        ≡ ok a
      → IsGrounded r.chunks a
  answer_from_knowledge-IsGrounded a is = subst Right is (right answered answered-Good)
    where
      Right : Result Escape AnswerResult → Type 0
      Right (err e) = Unit
      Right (ok a) = IsGrounded r.chunks a

      right : (x : Result Escape AnswerResult × World) → Good x → Right x.0
      right (err e, w') h = h
      right (ok a, w') h = h
