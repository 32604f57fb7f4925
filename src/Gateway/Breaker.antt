-- ===== src/Gateway/Breaker.antt =====
-- src/opsassist/gateway/resilience.py: the backoff, the circuit breaker and its registry. The
-- clock's reading is an argument `now` of each method that reads it.
pub mod Laws
pub mod Stuck
use novax_ai_assignment.Base.{
  ℕ, zero, suc, ◌+◌, ◌-◌, ◌*◌, ◌^◌, min, String, ◌≡◌, Bool, true, false, not, ◌&&◌, ◌||◌, Option,
  none, some, List, [], ◌∷◌, leb, if◌then◌else◌, is_some, ◌==◌,
}
use novax_ai_assignment.Gateway.Errors.{ErrorKind, ProviderError}

pub record BackoffPolicy : Type 0 where
  pub base_s : ℕ
  pub cap_s : ℕ

-- `uniform` is the random generator's `uniform(0, ceiling)`. The power is that of the retry's
-- number, from 1.
unfoldable pub delay : BackoffPolicy → (ℕ → ℕ) → ℕ → ProviderError → ℕ
delay policy uniform attempt error = elim error.kind [
  | ErrorKind.rate_limited (some retry_after) ↦ min retry_after policy.cap_s
  | _ ↦ uniform (min policy.cap_s (policy.base_s * 2 ^ (attempt - 1)))
]

pub data BreakerState : Type 0 where
  closed opened half_open : BreakerState

pub record CircuitBreaker : Type 0 where
  pub failure_threshold : ℕ
  pub cooldown_s : ℕ
  pub failures : ℕ
  pub opened_at : Option ℕ
  pub probe_in_flight : Bool

state_at : CircuitBreaker → ℕ → Option ℕ → BreakerState
state_at b now none = BreakerState.closed
state_at b now (some t) =
    if leb (t + b.cooldown_s) now then BreakerState.half_open else BreakerState.opened

unfoldable pub state : CircuitBreaker → ℕ → BreakerState
unfolding state_at
state b now = state_at b now b.opened_at

allow_in : CircuitBreaker → BreakerState → Bool × CircuitBreaker
allow_in b BreakerState.closed = (true, b)
allow_in b BreakerState.half_open =
    if not b.probe_in_flight then (true, record b { probe_in_flight = true }) else (false, b)
allow_in b BreakerState.opened = (false, b)

unfoldable pub allow : CircuitBreaker → ℕ → Bool × CircuitBreaker
unfolding allow_in state
allow b now = allow_in b (state b now)

unfoldable pub record_success : CircuitBreaker → CircuitBreaker
record_success b = record b { failures = 0; opened_at = none; probe_in_flight = false }

unfoldable pub record_failure : CircuitBreaker → ℕ → CircuitBreaker
record_failure b now = record b {
  probe_in_flight = false;
  failures = b.failures + 1;
  opened_at =
      if is_some b.opened_at || leb b.failure_threshold (b.failures + 1)
      then some now
      else b.opened_at;
}

unfoldable pub fresh : ℕ → ℕ → CircuitBreaker
fresh threshold cooldown = record {
  failure_threshold = threshold;
  cooldown_s = cooldown;
  failures = 0;
  opened_at = none;
  probe_in_flight = false;
}

-- The registry's dict: a breaker per model id, made when first asked for.
pub record BreakerRegistry : Type 0 where
  pub threshold : ℕ
  pub cooldown : ℕ
  pub breakers : String → Option CircuitBreaker

breaker_or : CircuitBreaker → Option CircuitBreaker → CircuitBreaker
breaker_or d none = d
breaker_or d (some b) = b

-- `get`; the object that it returns is shared, so what a method writes to it is put back by `put`.
unfoldable pub get : BreakerRegistry → String → CircuitBreaker
unfolding breaker_or fresh
get r model_id = breaker_or (fresh r.threshold r.cooldown) (r.breakers model_id)

unfoldable pub put : BreakerRegistry → String → CircuitBreaker → BreakerRegistry
put r model_id b = record r { breakers = λ k. if model_id == k then some b else r.breakers k }
