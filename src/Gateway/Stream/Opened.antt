-- ===== src/Gateway/Stream/Opened.antt =====
-- src/opsassist/gateway/gateway.py: `stream_chat` as its callers see it, with the choice of the targets
-- and of those that may not be asked.
use novax_ai_assignment.Base.{
  ℕ, String, Bool, Option, none, some, List, [], is_some, Result, ok, err,
}
use novax_ai_assignment.Gateway.Catalog.{ModelKind, ModelSpec}
use novax_ai_assignment.Gateway.Catalog.Resolve.{ResolveError, resolve}
use novax_ai_assignment.Gateway.Records.{ChatParams, params_for}
use novax_ai_assignment.Gateway.Run.{Env, World, Reply}
use novax_ai_assignment.Gateway.Calls.{Gateway, ChatMessage, ChatResult, env_of, egress_blocked}
use novax_ai_assignment.Gateway.Stream.{Timed, Streamed, raised, stream_chat}
use novax_ai_assignment.Gateway.Stream.Shape.{IsStream, stream_chat-IsStream}

-- The streaming call of each provider that has one, by the model, the messages and the parameters.
abbrev pub Streams : Type 0
Streams = String → Option (String → List ChatMessage → ChatParams → ℕ → List Timed)

-- The limits of a stream, from the settings.
pub record StreamLimits : Type 0 where
  pub stream_deadline_s : ℕ
  pub stream_idle_timeout_s : ℕ

abbrev pub items_of :
    Option (String → List ChatMessage → ChatParams → ℕ → List Timed)
    → List ChatMessage
    → ChatParams
    → ModelSpec
    → ℕ
    → List Timed
items_of none messages params spec n = []
items_of (some stream) messages params spec n =
    stream spec.provider_model messages (params_for spec params) n

-- A stream calls nothing but `stream_chat` of a provider that has it.
abbrev pub stream_env : Gateway → Streams → Env ChatResult
stream_env g streams =
    record (env_of g (λ spec n. record { elapsed = 0; reply = Reply.crashed })
      (λ (r : ChatResult). r.usage)) { provider = λ p. is_some (streams p) }

module _ (g : Gateway) (streams : Streams) (limits : StreamLimits) (messages : List ChatMessage)
    (params : ChatParams) where
  abbrev pub stream_blocked : List ModelSpec → World → Option (List String) → Streamed × World
  stream_blocked targets w none = (raised [], w)
  stream_blocked targets w (some blocked) =
      stream_chat (stream_env g streams)
        (λ spec. items_of (streams spec.provider) messages params spec) messages
        limits.stream_idle_timeout_s targets blocked limits.stream_deadline_s w

  abbrev pub stream_targets :
      Bool → World → Result ResolveError (String × List ModelSpec) → Streamed × World
  stream_targets allow_egress w (err e) = (raised [], w)
  stream_targets allow_egress w (ok (route, targets)) =
      stream_blocked targets w (egress_blocked g.catalog targets allow_egress)

  unfoldable pub open_stream : Option String → Bool → World → Streamed × World
  open_stream route allow_egress w =
      stream_targets allow_egress w (resolve g.catalog route ModelKind.chat)

  blocked-IsStream :
      (targets : List ModelSpec) (w : World) (blocked : Option (List String))
      → IsStream (stream_blocked targets w blocked).0
  blocked-IsStream targets w none = tt
  blocked-IsStream targets w (some blocked) =
      stream_chat-IsStream (stream_env g streams)
        (λ spec. items_of (streams spec.provider) messages params spec) messages
        limits.stream_idle_timeout_s targets blocked limits.stream_deadline_s w

  targets-IsStream :
      (allow_egress : Bool) (w : World) (r : Result ResolveError (String × List ModelSpec))
      → IsStream (stream_targets allow_egress w r).0
  targets-IsStream allow_egress w (err e) = tt
  targets-IsStream allow_egress w (ok (route, targets)) =
      blocked-IsStream targets w (egress_blocked g.catalog targets allow_egress)

  pub open_stream-IsStream :
      (route : Option String) (allow_egress : Bool) (w : World)
      → IsStream (open_stream route allow_egress w).0
  unfolding open_stream
  open_stream-IsStream route allow_egress w =
      targets-IsStream allow_egress w (resolve g.catalog route ModelKind.chat)
