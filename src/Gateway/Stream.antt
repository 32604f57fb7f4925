-- ===== src/Gateway/Stream.antt =====
-- src/opsassist/gateway/gateway.py: `stream_chat`, over the parts that it shares with `_run`. The test
-- `provider` of the environment is here that a provider is a `ChatProvider`. A client that goes away
-- is seen where the stream waits for the next item.
pub mod Shape
pub mod Opened
use novax_ai_assignment.Base.{
  ℕ, zero, suc, ◌+◌, ◌-◌, min, String, Bool, true, false, not, Option, none, some, List, [], ◌∷◌,
  ◌++◌, leb, every, count_chars, join, if◌then◌else◌,
}
use novax_ai_assignment.Gateway.Errors.{ErrorKind, ProviderError, Usage, estimate_tokens}
use novax_ai_assignment.Gateway.Breaker.{get, put, record_success}
use novax_ai_assignment.Gateway.Catalog
use novax_ai_assignment.Gateway.Catalog.{ModelKind, ProviderConfig, ModelSpec}
use novax_ai_assignment.Gateway.Records.{
  AttemptOutcome, GatewayErrorCode, AttemptRecord, attempt_record, failure_outcome, is_skipped,
}
use novax_ai_assignment.Gateway.Run
use novax_ai_assignment.Gateway.Run.{
  Env, World, Next, wait, note, admit, update_breaker, on_error, timeout_error,
}
use novax_ai_assignment.Gateway.Calls.{ChatMessage}

-- What an item of a provider's stream brings: `StreamDelta`, `StreamEnd`, a `ProviderError`, the
-- cancellation of the request, or another exception.
pub data Pulled : Type 0 where
  delta : String → Pulled
  final : Usage → Option String → Pulled
  failed : ProviderError → Pulled
  gone broken : Pulled

pub record Timed : Type 0 where
  pub elapsed : ℕ
  pub pulled : Pulled

pub data StreamCode : Type 0 where
  of_gateway : GatewayErrorCode → StreamCode
  provider_error_mid_stream : StreamCode

-- `StreamStarted`, `StreamDelta`, `StreamCompleted` and `StreamFailed`.
pub data StreamEvent : Type 0 where
  started : ModelSpec → Bool → StreamEvent
  shown : String → StreamEvent
  completed : ModelSpec → Usage → Option String → List AttemptRecord → StreamEvent
  stopped : StreamCode → Bool → List AttemptRecord → StreamEvent

-- How a part of the stream ends: the generator returns, or an exception passes through, after these
-- events; or nothing was shown, and another attempt or the next target follows.
pub data Streamed : Type 0 where
  closed raised : List StreamEvent → Streamed
  again move_on : List AttemptRecord → Streamed

-- How the items of one stream end.
pub data Finish : Type 0 where
  done : Usage → Option String → Finish
  erred : ProviderError → Finish
  left crashed : Finish

-- The deltas that were shown, and how the stream ended.
pub record Relayed : Type 0 where
  pub deltas : List String
  pub finish : Finish
  pub world : World

-- `ProviderResponseError`, where the stream ends without its end marker
abbrev pub no_marker : ModelSpec → ProviderError
no_marker spec = record {
  kind = ErrorKind.response;
  provider = spec.provider;
  message = "stream ended without a completion marker";
  status_code = none;
}

unfoldable pub prompt_estimate : List ChatMessage → ℕ
prompt_estimate [] = 0
prompt_estimate (m ∷ ms) = estimate_tokens (count_chars m.content) + prompt_estimate ms

unfoldable pub concat_texts : List String → String
concat_texts [] = ""
concat_texts (s ∷ ss) = join s (concat_texts ss)

-- `_partial_usage`
unfoldable pub partial_usage : List ChatMessage → List String → Usage
unfolding prompt_estimate concat_texts
partial_usage messages produced = record {
  prompt_tokens = prompt_estimate messages;
  completion_tokens = estimate_tokens (count_chars (concat_texts produced));
  estimated = true;
}

unfoldable pub event_list : List String → List StreamEvent → List StreamEvent
event_list [] end = end
event_list (s ∷ deltas) end = shown s ∷ event_list deltas end

-- `bool(attempts)`
unfoldable pub some_attempt : List AttemptRecord → Bool
some_attempt [] = false
some_attempt (a ∷ l) = true

module _ {T : Type 0} (env : Env T) (streams : ModelSpec → ℕ → List Timed)
    (messages : List ChatMessage) (idle_timeout_s : ℕ) where
  -- `_next_item` and the loop over the deltas, from an item on that may take the given time.
  unfoldable pub relay : ModelSpec → ℕ → ℕ → World → List Timed → Relayed
  unfolding timeout_error wait
  relay spec deadline timeout w [] = record {
    deltas = [];
    finish = erred (no_marker spec);
    world = w;
  }
  relay spec deadline timeout w (c ∷ rest) =
      let at = wait env w c.elapsed in
      let idle = min idle_timeout_s (deadline - at.now) in
      let more = relay spec deadline idle at rest in
      if leb timeout c.elapsed
      then record {
        deltas = [];
        finish = erred (timeout_error env spec);
        world = wait env w timeout;
      }
      else elim c.pulled [
        | final usage reason ↦ record { deltas = []; finish = done usage reason; world = at }
        | failed err ↦ record { deltas = []; finish = erred err; world = at }
        | gone ↦ record { deltas = []; finish = left; world = at }
        | broken ↦ record { deltas = []; finish = crashed; world = at }
        | delta s ↦
            if leb idle 0
            then record { deltas = s ∷ []; finish = erred (timeout_error env spec); world = at }
            else record { deltas = s ∷ more.deltas; finish = more.finish; world = more.world }
      ]

  -- What `_should_retry` and the answers before the first item lead to.
  unfoldable pub from_next : Next T → Streamed
  from_next (Run.stop (Run.Ended.failed code attempts)) =
      closed (stopped (of_gateway code) false attempts ∷ [])
  from_next (Run.stop _) = raised []
  from_next (Run.again attempts) = again attempts
  from_next (Run.move_on attempts) = move_on attempts

  opening : ModelSpec → List AttemptRecord → List String → List StreamEvent
  opening spec attempts [] = []
  opening spec attempts (s ∷ deltas) =
      started spec (some_attempt attempts) ∷ event_list (s ∷ deltas) []

  -- The `except ProviderError` clause: before the first item it is that of `_run`.
  unfoldable pub on_stream_error :
      ModelSpec
      → ProviderError
      → ℕ
      → ℕ
      → ℕ
      → ℕ
      → Option ℕ
      → World
      → List AttemptRecord
      → List String
      → Streamed × World
  unfolding from_next
  on_stream_error spec err n max_attempts deadline began ttft w attempts [] =
      let (next, w') =
        on_error env ModelKind.chat spec err n max_attempts deadline began w attempts in
      (from_next next, w')
  on_stream_error spec err n max_attempts deadline began ttft w attempts (s ∷ deltas) =
      let a =
        attempt_record ModelKind.chat spec n (failure_outcome err.kind) (w.now - began)
          (some (partial_usage messages (s ∷ deltas))) ttft (some err) in
      let attempts' = attempts ++ (a ∷ []) in
      (
        closed (
            started spec (some_attempt attempts)
            ∷ event_list (s ∷ deltas) (stopped provider_error_mid_stream true attempts' ∷ [])),
        note env (update_breaker env w spec err.kind) a,
      )

  -- The `try` statement around one stream, by how it ended.
  unfoldable pub after_stream :
      ModelSpec
      → ℕ
      → ℕ
      → ℕ
      → ℕ
      → Option ℕ
      → List AttemptRecord
      → World
      → List String
      → Finish
      → Streamed × World
  unfolding on_stream_error opening
  after_stream spec n max_attempts deadline began ttft attempts w deltas (done usage reason) =
      let a =
        attempt_record ModelKind.chat spec n AttemptOutcome.success (w.now - began) (some usage)
          ttft none in
      let attempts' = attempts ++ (a ∷ []) in
      let w' = record w {
        registry = put w.registry spec.id (record_success (get w.registry spec.id));
      } in
      (
        closed (
            started spec (some_attempt attempts)
            ∷ event_list deltas (completed spec usage reason attempts' ∷ [])),
        note env w' a,
      )
  after_stream spec n max_attempts deadline began ttft attempts w deltas (erred err) =
      on_stream_error spec err n max_attempts deadline began ttft w attempts deltas
  after_stream spec n max_attempts deadline began ttft attempts w deltas left = (
    raised (opening spec attempts deltas),
    note env w (
        attempt_record ModelKind.chat spec n AttemptOutcome.cancelled (w.now - began)
          (some (partial_usage messages deltas)) ttft none),
  )
  after_stream spec n max_attempts deadline began ttft attempts w deltas crashed =
      (raised (opening spec attempts deltas), w)

  -- The time to the first item, where one was shown.
  unfoldable pub first_item : List Timed → List String → Finish → Option ℕ
  first_item [] deltas f = none
  first_item (c ∷ stream) (s ∷ deltas) f = some c.elapsed
  first_item (c ∷ stream) [] (done usage reason) = some c.elapsed
  first_item (c ∷ stream) [] f = none

  -- One round of the loop over the attempts.
  unfoldable pub stream_attempt :
      ModelSpec → ProviderConfig → ℕ → ℕ → World → List AttemptRecord → Streamed × World
  unfolding relay after_stream first_item
  stream_attempt spec cfg deadline n w attempts =
      let stream = streams spec w.awaits in
      let r = relay spec deadline (min cfg.timeout_s (deadline - w.now)) w stream in
      if leb deadline w.now
      then (closed (stopped (of_gateway GatewayErrorCode.deadline_exceeded) false attempts ∷ []), w)
      else after_stream spec n cfg.max_attempts deadline w.now (first_item stream r.deltas r.finish)
          attempts r.world r.deltas r.finish

  unfoldable pub next_try :
      Streamed × World → (World → List AttemptRecord → Streamed × World) → Streamed × World
  next_try (again attempts, w) rest = rest w attempts
  next_try (s, w) rest = (s, w)

  -- The loop over the attempts, by the rounds that are left.
  unfoldable pub stream_rounds :
      ModelSpec → ProviderConfig → ℕ → ℕ → ℕ → World → List AttemptRecord → Streamed × World
  unfolding stream_attempt next_try
  stream_rounds spec cfg deadline zero n w attempts = (move_on attempts, w)
  stream_rounds spec cfg deadline (suc k) n w attempts =
      next_try (stream_attempt spec cfg deadline n w attempts)
        (stream_rounds spec cfg deadline k (n + 1))

  unfoldable pub stream_serve :
      ModelSpec → ℕ → World → List AttemptRecord → Option ProviderConfig → Streamed × World
  unfolding stream_rounds
  stream_serve spec deadline w attempts none = (raised [], w)
  stream_serve spec deadline w attempts (some cfg) =
      stream_rounds spec cfg deadline cfg.max_attempts 1 w attempts

  unfoldable pub stream_visit : ℕ → ModelSpec → Bool × List AttemptRecord × World → Streamed × World
  unfolding stream_serve
  stream_visit deadline spec (false, attempts, w) = (move_on attempts, w)
  stream_visit deadline spec (true, attempts, w) =
      stream_serve spec deadline w attempts (Catalog.get spec.provider env.catalog.providers)

  unfoldable pub next_model :
      Streamed × World → (World → List AttemptRecord → Streamed × World) → Streamed × World
  next_model (move_on attempts, w) rest = rest w attempts
  next_model (again attempts, w) rest = rest w attempts
  next_model (s, w) rest = (s, w)

  -- The loop over the targets.
  unfoldable pub stream_all :
      List String → ℕ → List ModelSpec → World → List AttemptRecord → Streamed × World
  unfolding stream_visit next_model
  stream_all blocked deadline [] w attempts = (
    closed (
        stopped
          (of_gateway (
            if every is_skipped attempts
            then GatewayErrorCode.no_available_provider
            else GatewayErrorCode.provider_unavailable))
          false attempts
        ∷ []),
    w,
  )
  stream_all blocked deadline (spec ∷ specs) w attempts =
      next_model (stream_visit deadline spec (admit env ModelKind.chat blocked spec w attempts))
        (stream_all blocked deadline specs)

  -- `stream_chat`, from the targets on
  unfoldable pub stream_chat : List ModelSpec → List String → ℕ → World → Streamed × World
  unfolding stream_all
  stream_chat targets blocked deadline_s w = stream_all blocked (w.now + deadline_s) targets w []
