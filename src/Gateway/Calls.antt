-- ===== src/Gateway/Calls.antt =====
-- src/opsassist/gateway/gateway.py: `chat` and `embed`, over `_run`.
pub mod Egress
use novax_ai_assignment.Base.{
  ℕ, String, Bool, true, false, not, ◌&&◌, Option, none, some, List, [], ◌∷◌, eqb, length, any,
  keep, is_some, Result, ok, err, ◌>>=◌, if◌then◌else◌, ◌-◌,
}
use novax_ai_assignment.Gateway.Errors.{ErrorKind, ProviderError, Usage}
use novax_ai_assignment.Gateway.Breaker.{BackoffPolicy, BreakerRegistry}
use novax_ai_assignment.Gateway.Catalog
use novax_ai_assignment.Gateway.Catalog.{ModelKind, ModelSpec, Catalog, ProviderConfig}
use novax_ai_assignment.Gateway.Catalog.Resolve.{ResolveError, resolve}
use novax_ai_assignment.Gateway.Records.{AttemptRecord, ChatParams, params_for}
use novax_ai_assignment.Gateway.Run.{Env, World, Ended, Reply, Answer, run}

pub record ChatMessage : Type 0 where
  pub role : String
  pub content : String

pub record ChatResult : Type 0 where
  pub content : String
  pub usage : Usage
  pub finish_reason : Option String

-- The coordinates of a vector are not looked at.
pub record EmbeddingResult : Type 0 where
  pub vectors : List (List ℕ)
  pub usage : Usage

-- How a call of the gateway ends: before the run, by `UnknownModelError` or by the `KeyError` of a
-- provider that the catalogue lacks, or as the run does, with the route's name.
pub data Outcome (T : Type 0) : Type 0 where
  unresolved : ResolveError → Outcome T
  no_provider : Outcome T
  ended : String → Ended T → Outcome T

-- The parts of the gateway's environment that are the same for every call.
pub record Gateway : Type 0 where
  pub catalog : Catalog
  pub backoff : BackoffPolicy
  pub request_deadline_s : ℕ
  pub provider : String → Bool
  pub uniform : ℕ → ℕ → ℕ
  pub pause : ℕ → ℕ
  pub sleep_cancelled : ℕ → Bool
  pub others : ℕ → BreakerRegistry → BreakerRegistry

unfoldable pub env_of : {T : Type 0} → Gateway → (ModelSpec → ℕ → Answer T) → (T → Usage) → Env T
env_of g invoke usage_of = record {
  catalog = g.catalog;
  backoff = g.backoff;
  provider = g.provider;
  invoke = invoke;
  usage_of = usage_of;
  uniform = g.uniform;
  pause = g.pause;
  sleep_cancelled = g.sleep_cancelled;
  others = g.others;
}

-- The ids of the targets whose provider sends data off the box; `none` is the `KeyError` of a
-- provider that the catalogue lacks.
unfoldable pub add_egress :
    ModelSpec → Option ProviderConfig → Option (List String) → Option (List String)
add_egress t none rest = none
add_egress t (some p) none = none
add_egress t (some p) (some ids) = if p.data_egress then some (t.id ∷ ids) else some ids

unfoldable pub egress_ids : Catalog → List ModelSpec → Option (List String)
unfolding add_egress
egress_ids c [] = some []
egress_ids c (t ∷ ts) = add_egress t (Catalog.get t.provider c.providers) (egress_ids c ts)

-- `_egress_blocked`
unfoldable pub egress_blocked : Catalog → List ModelSpec → Bool → Option (List String)
unfolding egress_ids
egress_blocked c targets allow_egress = if allow_egress then some [] else egress_ids c targets

-- A run of `_run` on resolved targets.
unfoldable pub finish : {T : Type 0} → String → Ended T × World → Outcome T × World
finish route (e, w) = (ended route e, w)

unfoldable pub run_blocked :
    {T : Type 0}
    → Env T
    → ModelKind
    → String
    → List ModelSpec
    → ℕ
    → World
    → Option (List String)
    → Outcome T × World
unfolding finish
run_blocked env kind route targets deadline_s w none = (no_provider, w)
run_blocked env kind route targets deadline_s w (some blocked) =
    finish route (run env kind targets deadline_s blocked w)

-- The wrapped call of `chat`: the assertion fails for a provider that cannot chat.
unfoldable pub chat_invoke :
    Option (String → List ChatMessage → ChatParams → ℕ → Answer ChatResult)
    → List ChatMessage
    → ChatParams
    → ModelSpec
    → ℕ
    → Answer ChatResult
chat_invoke none messages params spec n = record { elapsed = 0; reply = Reply.crashed }
chat_invoke (some chat) messages params spec n =
    chat spec.provider_model messages (params_for spec params) n

unfoldable pub chat_targets :
    Gateway
    → Env ChatResult
    → Bool
    → World
    → Result ResolveError (String × List ModelSpec)
    → Outcome ChatResult × World
unfolding run_blocked
chat_targets g env allow_egress w (err e) = (unresolved e, w)
chat_targets g env allow_egress w (ok (route, targets)) =
    run_blocked env ModelKind.chat route targets g.request_deadline_s w
      (egress_blocked g.catalog targets allow_egress)

-- `chat`. `chats` gives the chat call of each provider that has one.
unfoldable pub chat :
    Gateway
    → (String → Option (String → List ChatMessage → ChatParams → ℕ → Answer ChatResult))
    → Option String
    → List ChatMessage
    → ChatParams
    → Bool
    → World
    → Outcome ChatResult × World
unfolding chat_targets chat_invoke
chat g chats route messages params allow_egress w =
    let env =
      env_of g (λ spec. chat_invoke (chats spec.provider) messages params spec)
        (λ (r : ChatResult). r.usage) in
    chat_targets g env allow_egress w (resolve g.catalog route ModelKind.chat)

-- A vector of another length than the model declares is a `ProviderResponseError`; a declared
-- length of zero counts as none.
unfoldable pub wrong_length : Option ℕ → List (List ℕ) → Bool
wrong_length none vectors = false
wrong_length (some d) vectors = not (eqb d 0) && any (λ v. not (eqb (length v) d)) vectors

unfoldable pub check_dimensions : ModelSpec → Reply EmbeddingResult → Reply EmbeddingResult
unfolding wrong_length
check_dimensions spec (Reply.returned r) =
    if wrong_length spec.dimensions r.vectors
    then Reply.raised (record {
      kind = ErrorKind.response;
      provider = spec.provider;
      message = "embedding dimension mismatch";
      status_code = none;
    })
    else Reply.returned r
check_dimensions spec reply = reply

unfoldable pub embed_invoke :
    Option (String → List String → String → ℕ → Answer EmbeddingResult)
    → List String
    → String
    → ModelSpec
    → ℕ
    → Answer EmbeddingResult
unfolding check_dimensions
embed_invoke none inputs input_type spec n = record { elapsed = 0; reply = Reply.crashed }
embed_invoke (some embed) inputs input_type spec n =
    let answer = embed spec.provider_model inputs input_type n in
    record answer { reply = check_dimensions spec answer.reply }

unfoldable pub embed_targets :
    Gateway
    → Env EmbeddingResult
    → World
    → Result ResolveError (String × List ModelSpec)
    → Outcome EmbeddingResult × World
unfolding finish
embed_targets g env w (err e) = (unresolved e, w)
embed_targets g env w (ok (route, targets)) =
    finish route (run env ModelKind.embedding targets g.request_deadline_s [] w)

-- `embed`
unfoldable pub embed :
    Gateway
    → (String → Option (String → List String → String → ℕ → Answer EmbeddingResult))
    → Option String
    → List String
    → String
    → World
    → Outcome EmbeddingResult × World
unfolding embed_targets embed_invoke
embed g embeds route inputs input_type w =
    let env =
      env_of g (λ spec. embed_invoke (embeds spec.provider) inputs input_type spec)
        (λ (r : EmbeddingResult). r.usage) in
    embed_targets g env w (resolve g.catalog route ModelKind.embedding)
