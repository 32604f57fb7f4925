-- ===== src/Gateway/Run.antt =====
-- src/opsassist/gateway/gateway.py: `_run`, `_admit`, `_should_retry`, and the calls `chat` and
-- `embed` that use them. What lies outside the gateway is the environment `Env`: the providers'
-- answers, the clock and the other requests that run while this one waits.
pub mod Rules
pub mod Requests
pub mod Results
pub mod Budget
pub mod Probe
use novax_ai_assignment.Base.{
  ℕ, zero, suc, ◌+◌, ◌-◌, ◌≤◌, min, String, Bool, true, false, not, ◌||◌, ◌&&◌, Option, none, some,
  List, [], ◌∷◌, ◌++◌, ltb, leb, eqb, every, contains, keep, is_some, if◌then◌else◌,
}
use novax_ai_assignment.Gateway.Errors.{ErrorKind, ProviderError, Usage, kind_retryable}
use novax_ai_assignment.Gateway.Breaker.{
  BackoffPolicy, delay, BreakerState, BreakerRegistry, state, allow, record_success, record_failure,
  get, put,
}
use novax_ai_assignment.Gateway.Catalog
use novax_ai_assignment.Gateway.Catalog.{ModelKind, ProviderConfig, ModelSpec, Catalog}
use novax_ai_assignment.Gateway.Records.{
  AttemptOutcome, GatewayErrorCode, AttemptRecord, attempt_record, skipped_record, failure_outcome,
  trips_breaker, is_bad_request, is_skipped,
}

-- What a provider's call ends in: a value, a `ProviderError`, a `TimeoutError` of its own, the
-- cancellation of the request, or another exception.
pub data Reply (T : Type 0) : Type 0 where
  returned : T → Reply T
  raised : ProviderError → Reply T
  timed_out cancelled crashed : Reply T

pub record Answer (T : Type 0) : Type 0 where
  pub elapsed : ℕ
  pub reply : Reply T

-- A request that was sent to a provider: to which model, when and with which timeout.
pub record Sent : Type 0 where
  pub model : ModelSpec
  pub at : ℕ
  pub timeout : ℕ

-- `awaits` counts the points at which the request has given up the event loop.
pub record World : Type 0 where
  pub now : ℕ
  pub awaits : ℕ
  pub registry : BreakerRegistry
  pub sent : List Sent
  pub recorded : List AttemptRecord

-- `provider` is the test that `self.providers` holds a provider. The rest is given the number of
-- the await: the answer of the provider, the random delay, how long recording takes, whether the
-- request is cancelled while it sleeps, and what other requests do to the breakers meanwhile.
pub record Env (T : Type 0) : Type 0 where
  pub catalog : Catalog
  pub backoff : BackoffPolicy
  pub provider : String → Bool
  pub invoke : ModelSpec → ℕ → Answer T
  pub usage_of : T → Usage
  pub uniform : ℕ → ℕ → ℕ
  pub pause : ℕ → ℕ
  pub sleep_cancelled : ℕ → Bool
  pub others : ℕ → BreakerRegistry → BreakerRegistry

-- How `_run` ends: its result, a `GatewayError`, or an exception that passes through.
pub data Ended (T : Type 0) : Type 0 where
  returned : T → ModelSpec → List AttemptRecord → Ended T
  failed : GatewayErrorCode → List AttemptRecord → Ended T
  cancelled crashed : Ended T

-- How a part of `_run` ends: with the whole, with another attempt, or with the next target.
pub data Next (T : Type 0) : Type 0 where
  stop : Ended T → Next T
  again move_on : List AttemptRecord → Next T

module _ {T : Type 0} (env : Env T) where
  -- Time passes and other requests run.
  unfoldable pub wait : World → ℕ → World
  wait w time = record w {
    now = w.now + time;
    awaits = w.awaits + 1;
    registry = env.others w.awaits w.registry;
  }

  -- `_record`: what the recorder raises is swallowed.
  unfoldable pub note : World → AttemptRecord → World
  unfolding wait
  note w a = wait (record w { recorded = w.recorded ++ (a ∷ []) }) (env.pause w.awaits)

  -- `async with asyncio.timeout(timeout): await invoke(spec)`
  unfoldable pub ask : World → ModelSpec → ℕ → Reply T × World
  unfolding wait
  ask w spec timeout =
      let answer = env.invoke spec w.awaits in
      let w' = record w {
        sent = w.sent ++ (record { model = spec; at = w.now; timeout = timeout } ∷ []);
      } in
      if leb timeout answer.elapsed
      then (Reply.timed_out, wait w' timeout)
      else (answer.reply, wait w' answer.elapsed)

  -- `_admit`
  unfoldable pub refuse :
      ModelKind
      → ModelSpec
      → World
      → List AttemptRecord
      → String
      → Bool × List AttemptRecord × World
  refuse kind spec w attempts reason =
      (false, attempts ++ (skipped_record kind spec reason ∷ []), w)

  unfoldable pub admit_by :
      ModelKind → ModelSpec → World → List AttemptRecord → Bool → Bool × List AttemptRecord × World
  unfolding refuse
  admit_by kind spec w attempts true = (true, attempts, w)
  admit_by kind spec w attempts false = refuse kind spec w attempts "circuit_open"

  unfoldable pub admit :
      ModelKind
      → List String
      → ModelSpec
      → World
      → List AttemptRecord
      → Bool × List AttemptRecord × World
  unfolding refuse admit_by
  admit kind blocked spec w attempts =
      if contains blocked spec.id
      then refuse kind spec w attempts "egress_not_permitted"
      else if not (env.provider spec.provider)
      then refuse kind spec w attempts "provider_disabled"
      else (let (allowed, b) = allow (get w.registry spec.id) w.now in
          admit_by kind spec (record w { registry = put w.registry spec.id b }) attempts allowed)

  -- `_update_breaker`
  unfoldable pub update_breaker : World → ModelSpec → ErrorKind → World
  update_breaker w spec k =
      if trips_breaker k
      then record w {
        registry = put w.registry spec.id (record_failure (get w.registry spec.id) w.now);
      }
      else w

  unfoldable pub is_closed : BreakerState → Bool
  is_closed BreakerState.closed = true
  is_closed _ = false

  unfoldable pub sleep : World → ℕ → List AttemptRecord → Next T × World
  unfolding wait
  sleep w time attempts =
      (if env.sleep_cancelled w.awaits then stop Ended.cancelled else again attempts, wait w time)

  -- `_should_retry`, with the sleep: `move_on` where it answers False.
  unfoldable pub should_retry :
      ModelSpec → ProviderError → ℕ → ℕ → ℕ → World → List AttemptRecord → Next T × World
  unfolding is_closed sleep
  should_retry spec err n max_attempts deadline w attempts =
      let time = delay env.backoff (env.uniform w.awaits) n err in
      if not (kind_retryable err.kind) || leb max_attempts n
      then (move_on attempts, w)
      else if not (is_closed (state (get w.registry spec.id) w.now))
      then (move_on attempts, w)
      else if leb deadline (w.now + time)
      then (move_on attempts, w)
      else sleep w time attempts

  -- The `except ProviderError` clause.
  unfoldable pub on_error :
      ModelKind
      → ModelSpec
      → ProviderError
      → ℕ
      → ℕ
      → ℕ
      → ℕ
      → World
      → List AttemptRecord
      → Next T × World
  on_error kind spec err n max_attempts deadline started w attempts =
      let a =
        attempt_record kind spec n (failure_outcome err.kind) (w.now - started) none none
          (some err) in
      let attempts' = attempts ++ (a ∷ []) in
      let w' = note (update_breaker w spec err.kind) a in
      if is_bad_request err.kind
      then (stop (failed GatewayErrorCode.bad_request attempts'), w')
      else should_retry spec err n max_attempts deadline w' attempts'

  unfoldable pub timeout_error : ModelSpec → ProviderError
  timeout_error spec = record {
    kind = ErrorKind.timeout;
    provider = spec.provider;
    message = "no response in time";
    status_code = none;
  }

  -- The `try` statement around one attempt, by what the call ended in.
  unfoldable pub after_reply :
      ModelKind → ModelSpec → ℕ → ℕ → ℕ → ℕ → List AttemptRecord → World → Reply T → Next T × World
  unfolding timeout_error
  after_reply kind spec n max_attempts deadline started attempts w (Reply.returned result) =
      let a =
        attempt_record kind spec n AttemptOutcome.success (w.now - started)
          (some (env.usage_of result)) none none in
      let w' = record w {
        registry = put w.registry spec.id (record_success (get w.registry spec.id));
      } in
      (stop (returned result spec (attempts ++ (a ∷ []))), note w' a)
  after_reply kind spec n max_attempts deadline started attempts w (Reply.raised err) =
      on_error kind spec err n max_attempts deadline started w attempts
  after_reply kind spec n max_attempts deadline started attempts w Reply.timed_out =
      on_error kind spec (timeout_error spec) n max_attempts deadline started w attempts
  after_reply kind spec n max_attempts deadline started attempts w Reply.cancelled = (
    stop Ended.cancelled,
    note w (attempt_record kind spec n AttemptOutcome.cancelled (w.now - started) none none none),
  )
  after_reply kind spec n max_attempts deadline started attempts w Reply.crashed =
      (stop Ended.crashed, w)

  -- One round of the loop over the attempts.
  unfoldable pub attempt :
      ModelKind → ModelSpec → ProviderConfig → ℕ → ℕ → World → List AttemptRecord → Next T × World
  attempt kind spec cfg deadline n w attempts =
      if leb deadline w.now
      then (stop (failed GatewayErrorCode.deadline_exceeded attempts), w)
      else (let (reply, w') = ask w spec (min cfg.timeout_s (deadline - w.now)) in
          after_reply kind spec n cfg.max_attempts deadline w.now attempts w' reply)

  -- Go on with another attempt, if there is one.
  unfoldable pub next_round :
      Next T × World → (World → List AttemptRecord → Next T × World) → Next T × World
  next_round (stop e, w) rest = (stop e, w)
  next_round (move_on attempts, w) rest = (move_on attempts, w)
  next_round (again attempts, w) rest = rest w attempts

  -- `for n in range(1, cfg.max_attempts + 1)`, by the rounds that are left.
  unfoldable pub rounds :
      ModelKind
      → ModelSpec
      → ProviderConfig
      → ℕ
      → ℕ
      → ℕ
      → World
      → List AttemptRecord
      → Next T × World
  rounds kind spec cfg deadline zero n w attempts = (move_on attempts, w)
  rounds kind spec cfg deadline (suc k) n w attempts =
      next_round (attempt kind spec cfg deadline n w attempts)
        (rounds kind spec cfg deadline k (n + 1))

  -- The body of the loop over the targets, for a target that was admitted.
  unfoldable pub serve :
      ModelKind
      → ModelSpec
      → ℕ
      → World
      → List AttemptRecord
      → Option ProviderConfig
      → Next T × World
  serve kind spec deadline w attempts none = (stop Ended.crashed, w)
  serve kind spec deadline w attempts (some cfg) =
      rounds kind spec cfg deadline cfg.max_attempts 1 w attempts

  unfoldable pub visit :
      ModelKind → List String → ℕ → ModelSpec → World → List AttemptRecord → Next T × World
  visit kind blocked deadline spec w attempts =
      let (admitted, attempts', w') = admit kind blocked spec w attempts in
      if admitted
      then serve kind spec deadline w' attempts' (Catalog.get spec.provider env.catalog.providers)
      else (move_on attempts', w')

  -- Go on with the next target, unless the run has ended.
  unfoldable pub next_target :
      Next T × World → (World → List AttemptRecord → Ended T × World) → Ended T × World
  next_target (stop e, w) rest = (e, w)
  next_target (move_on attempts, w) rest = rest w attempts
  next_target (again attempts, w) rest = rest w attempts

  -- the errors after the loop over the targets
  unfoldable pub exhausted : List AttemptRecord → Ended T
  exhausted attempts =
      failed
        (if every is_skipped attempts
          then GatewayErrorCode.no_available_provider
          else GatewayErrorCode.provider_unavailable)
        attempts

  unfoldable pub visit_all :
      ModelKind → List String → ℕ → List ModelSpec → World → List AttemptRecord → Ended T × World
  unfolding exhausted
  visit_all kind blocked deadline [] w attempts = (exhausted attempts, w)
  visit_all kind blocked deadline (spec ∷ specs) w attempts =
      next_target (visit kind blocked deadline spec w attempts)
        (visit_all kind blocked deadline specs)

  -- `_run`
  unfoldable pub run : ModelKind → List ModelSpec → ℕ → List String → World → Ended T × World
  run kind targets deadline_s blocked w = visit_all kind blocked (w.now + deadline_s) targets w []
