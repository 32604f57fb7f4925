-- ===== src/Agent/Service.antt =====
-- src/opsassist/agent/service.py: the review of near misses, the grounded answer and its escalation to a
-- second model.
use novax_ai_assignment.Base.{
  ℕ, ◌+◌, ◌-◌, String, Bool, true, false, not, ◌&&◌, ◌||◌, Option, none, some, List, [], ◌∷◌, ◌++◌,
  eqb, leb, ltb, length, take_chars, join, Result, ok, err, if◌then◌else◌,
}
use novax_ai_assignment.Config.{highest}
use novax_ai_assignment.Policy.Auth.{Principal, has}
use novax_ai_assignment.Gateway.Errors.{Usage}
use novax_ai_assignment.Gateway.Catalog.{ModelSpec}
use novax_ai_assignment.Gateway.Records.{GatewayErrorCode, AttemptRecord, fallback_used, total_cost}
use novax_ai_assignment.Gateway.Run.{Ended}
use novax_ai_assignment.Gateway.Calls.{ChatResult, Outcome}
use novax_ai_assignment.Knowledge.Chunking.{join_with}
use novax_ai_assignment.Knowledge.Retrieval.{RetrievedChunk}
use novax_ai_assignment.Agent.Rag.{abstain, GroundedAnswer, plain_answer, get_elem?}

-- The regular expressions of the module, its JSON and Python's `sorted`. `relevant` is the list under
-- `relevant` of the first object in a text, an item that is no natural number being none; none where
-- there is no such list. `write_department` matches a permission to write, `not_covered` searches for
-- a statement that something is not covered, and `spaced` is `" ".join(text.split())`.
pub record Phrases : Type 0 where
  pub relevant : String → Option (List (Option ℕ))
  pub write_department : String → Option String
  pub sorted_set : List String → List String
  pub not_covered : String → Bool
  pub spaced : String → String

-- A `GatewayError`, which the functions here catch, or another exception.
pub data Escape : Type 0 where
  gateway_error : GatewayErrorCode → List AttemptRecord → Escape
  other : Escape

-- `ChatOutcome`
pub record ChatOutcome : Type 0 where
  pub result : ChatResult
  pub model : ModelSpec
  pub route : String
  pub attempts : List AttemptRecord

unfoldable pub outcome_of : Outcome ChatResult → Result Escape ChatOutcome
outcome_of (Outcome.unresolved e) = err other
outcome_of Outcome.no_provider = err other
outcome_of (Outcome.ended route (Ended.returned r spec attempts)) =
    ok (record { result = r; model = spec; route = route; attempts = attempts })
outcome_of (Outcome.ended route (Ended.failed code attempts)) = err (gateway_error code attempts)
outcome_of (Outcome.ended route Ended.cancelled) = err other
outcome_of (Outcome.ended route Ended.crashed) = err other

-- A support ticket that is offered.
pub record SuggestedAction : Type 0 where
  pub tool : String
  pub label : String
  pub title : String
  pub severity : String
  pub details : String

pub data EscalationOutcome : Type 0 where
  used kept_first unavailable : EscalationOutcome

pub record Escalation : Type 0 where
  pub reason : String
  pub first_model : String
  pub model : String
  pub outcome : EscalationOutcome

pub record AnswerResult : Type 0 where
  pub text : String
  pub answer : GroundedAnswer
  pub usage : Usage
  pub cost_usd : ℕ
  pub route : Option String
  pub model_id : Option String
  pub provider : Option String
  pub fallback : Bool
  pub finish_reason : Option String
  pub attempts : List AttemptRecord
  pub error : Option (GatewayErrorCode × List AttemptRecord)
  pub escalation : Option Escalation
  pub suggested_action : Option SuggestedAction

abbrev pub no_usage : Usage
no_usage = record { prompt_tokens = 0; completion_tokens = 0; estimated = false }

abbrev pub plain_result : GroundedAnswer → Option String → AnswerResult
plain_result answer route = record {
  text = answer.text;
  answer = answer;
  usage = no_usage;
  cost_usd = 0;
  route = route;
  model_id = none;
  provider = none;
  fallback = false;
  finish_reason = none;
  attempts = [];
  error = none;
  escalation = none;
  suggested_action = none;
}

abbrev pub insert_number : ℕ → List ℕ → List ℕ
insert_number n [] = n ∷ []
insert_number n (m ∷ ms) =
    if ltb n m then n ∷ m ∷ ms else if eqb n m then m ∷ ms else m ∷ insert_number n ms

-- `sorted(n for n in numbers if 1 <= n <= offered)`, of the set of the numbers found.
unfoldable pub passages_of : ℕ → List (Option ℕ) → List ℕ
passages_of offered [] = []
passages_of offered (none ∷ found) = passages_of offered found
passages_of offered (some n ∷ found) =
    let rest = passages_of offered found in
    if leb 1 n && leb n offered then insert_number n rest else rest

-- `admitted_passages`
unfoldable pub admitted_passages : Phrases → String → ℕ → List ℕ
unfolding passages_of
admitted_passages phrases reply offered = from_list (phrases.relevant reply)
  where
    from_list : Option (List (Option ℕ)) → List ℕ
    from_list none = []
    from_list (some found) = passages_of offered found

abbrev pub with_chunk : Option RetrievedChunk → List RetrievedChunk → List RetrievedChunk
with_chunk none rest = rest
with_chunk (some c) rest = c ∷ rest

-- `[offered[n - 1] for n in admitted]`
unfoldable pub pick_chunks : List RetrievedChunk → List ℕ → List RetrievedChunk
pick_chunks offered [] = []
pick_chunks offered (n ∷ admitted) =
    with_chunk (get_elem? offered (n - 1)) (pick_chunks offered admitted)

-- `RetrievalResult.max_classification`
unfoldable pub max_classification : List RetrievedChunk → Option String
max_classification [] = none
max_classification (c ∷ cs) = some (highest c.classification (classes cs))
  where
    classes : List RetrievedChunk → List String
    classes [] = []
    classes (c ∷ cs) = c.classification ∷ classes cs

-- `escalation_reason`
unfoldable pub escalation_reason : Phrases → GroundedAnswer → Bool → Option String
escalation_reason phrases answer retrieved =
    if not retrieved || answer.abstained
    then none
    else if eqb (length answer.citations) 0
    then some "uncited"
    else if phrases.not_covered answer.text
    then some "not_covered"
    else none

-- `pick_answer`: whether the second answer is used.
unfoldable pub picks_second : GroundedAnswer → Bool
picks_second second = ltb 0 (length second.citations) && not second.abstained

unfoldable pub writable_departments : Phrases → List String → List String
writable_departments phrases [] = []
writable_departments phrases (p ∷ ps) =
    add (phrases.write_department p) (writable_departments phrases ps)
  where
    add : Option String → List String → List String
    add none rest = rest
    add (some d) rest = d ∷ rest

unfoldable pub clarify_hint : Phrases → Option Principal → String
unfolding writable_departments
clarify_hint phrases none = ""
clarify_hint phrases (some p) =
    hint (phrases.sorted_set (writable_departments phrases p.permissions))
  where
    hint : List String → String
    hint [] =
        " If this should be covered, rephrase the question with more detail, or ask your department's document owner to publish it."
    hint (d ∷ ds) =
        join
          " If this should be covered, rephrase the question with more detail, or upload the relevant document ("
          (join (join_with ", " (d ∷ ds)) ") from the console.")

unfoldable pub may_raise_ticket : Option Principal → Bool
may_raise_ticket none = false
may_raise_ticket (some p) = has p "ticket:create"

unfoldable pub clarifying_abstention : Phrases → Option Principal → GroundedAnswer
unfolding clarify_hint may_raise_ticket
clarifying_abstention phrases principal =
    let hint = clarify_hint phrases principal in
    plain_answer
      (join abstain (
        if may_raise_ticket principal
        then join hint " You can also raise a ticket for the document owner."
        else hint))
      true

unfoldable pub knowledge_gap_ticket : Phrases → String → Option Principal → Option SuggestedAction
knowledge_gap_ticket phrases question none = none
knowledge_gap_ticket phrases question (some p) =
    let asked = phrases.spaced question in
    if not (has p "ticket:create")
    then none
    else some (record {
      tool = "create_support_ticket";
      label = "Raise a ticket for the document owner";
      title = join "Knowledge gap: " (take_chars 150 asked);
      severity = "low";
      details = join "The assistant could not answer this from the documents approved for " (
          join p.department (
            join
              ". Please publish a document that covers it, or reply with where it is documented.\n\nQuestion: "
              (take_chars 3000 asked)));
    })

-- `_with_gap_ticket`
unfoldable pub with_gap_ticket : Phrases → AnswerResult → String → Option Principal → AnswerResult
unfolding knowledge_gap_ticket
with_gap_ticket phrases result question principal =
    if result.answer.abstained
    then record result { suggested_action = knowledge_gap_ticket phrases question principal }
    else result

-- `_result`
unfoldable pub result_of : GroundedAnswer → ChatOutcome → AnswerResult
result_of answer outcome = record {
  text = answer.text;
  answer = answer;
  usage = outcome.result.usage;
  cost_usd = total_cost outcome.attempts;
  route = some outcome.route;
  model_id = some outcome.model.id;
  provider = some outcome.model.provider;
  fallback = fallback_used outcome.model outcome.attempts;
  finish_reason = outcome.result.finish_reason;
  attempts = outcome.attempts;
  error = none;
  escalation = none;
  suggested_action = none;
}

-- What both calls cost, whichever answer is shown.
unfoldable pub both_paid : AnswerResult → ChatOutcome → ChatOutcome → Escalation → AnswerResult
both_paid chosen first second escalation = record chosen {
  usage = record {
    prompt_tokens = first.result.usage.prompt_tokens + second.result.usage.prompt_tokens;
    completion_tokens =
        first.result.usage.completion_tokens + second.result.usage.completion_tokens;
    estimated = first.result.usage.estimated || second.result.usage.estimated;
  };
  cost_usd = total_cost first.attempts + total_cost second.attempts;
  attempts = first.attempts ++ second.attempts;
  escalation = some escalation;
}
