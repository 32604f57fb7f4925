-- ===== src/Gateway/Breaker/Laws.antt =====
-- The circuit breaker against its life cycle: the calls of its methods, and what their history
-- alone says of its state.
use novax_ai_assignment.Base.{
  ℕ, ◌+◌, ◌<◌, ◌≡◌, some, none, List, [], ◌∷◌, arith, ltb, leb, if◌then◌else◌,
}
use novax_ai_assignment.Gateway.Breaker.{
  CircuitBreaker, BreakerState, state, allow, record_success, record_failure, fresh,
}

-- A method call with the clock's reading.
pub data Call : Type 0 where
  allows fails : ℕ → Call
  succeeds : Call

unfoldable pub step : CircuitBreaker → Call → CircuitBreaker
unfolding allow record_failure record_success
step b (Call.allows now) = (allow b now).1
step b (Call.fails now) = record_failure b now
step b Call.succeeds = record_success b

unfoldable pub run : CircuitBreaker → List Call → CircuitBreaker
run b [] = b
run b (c ∷ cs) = run (step b c) cs

-- The failures since the last success, and the time of the last failure.
unfoldable pub streak : ℕ → List Call → ℕ
streak n [] = n
streak n (Call.allows now ∷ cs) = streak n cs
streak n (Call.fails now ∷ cs) = streak (n + 1) cs
streak n (Call.succeeds ∷ cs) = streak 0 cs

unfoldable pub last_failure : ℕ → List Call → ℕ
last_failure t [] = t
last_failure t (Call.fails now ∷ cs) = last_failure now cs
last_failure t (c ∷ cs) = last_failure t cs

record Tracks (threshold cooldown n t : ℕ) (b : CircuitBreaker) : Type 0 where
  threshold_same : b.failure_threshold ≡ threshold
  cooldown_same : b.cooldown_s ≡ cooldown
  counted : b.failures ≡ n
  opened : b.opened_at ≡ (if leb threshold n then some t else none)

module _ {threshold cooldown n t : ℕ} {b : CircuitBreaker}
    (v : Tracks threshold cooldown n t b) where
  allow-Tracks : (now : ℕ) → Tracks threshold cooldown n t (allow b now).1
  unfolding allow
  allow-Tracks now = record {
    threshold_same = ground (arith, v.threshold_same);
    cooldown_same = ground (arith, v.cooldown_same);
    counted = ground (arith, v.counted);
    opened = ground (arith, v.opened);
  }

  record_failure-Tracks : (now : ℕ) → Tracks threshold cooldown (n + 1) now (record_failure b now)
  unfolding record_failure
  record_failure-Tracks now = record {
    threshold_same = v.threshold_same;
    cooldown_same = v.cooldown_same;
    counted = ground (arith, v.counted);
    opened = ground (arith, v.threshold_same, v.counted, v.opened);
  }

  record_success-Tracks : 0 < threshold → Tracks threshold cooldown 0 t (record_success b)
  unfolding record_success
  record_success-Tracks h = record {
    threshold_same = v.threshold_same;
    cooldown_same = v.cooldown_same;
    counted = ground arith;
    opened = ground arith;
  }

run-Tracks :
    {threshold cooldown : ℕ} (n t : ℕ) (b : CircuitBreaker) (cs : List Call)
    → 0 < threshold
    → Tracks threshold cooldown n t b
    → Tracks threshold cooldown (streak n cs) (last_failure t cs) (run b cs)
unfolding step run streak last_failure
run-Tracks n t b [] h v = v
run-Tracks n t b (Call.allows now ∷ cs) h v = run-Tracks n t _ cs h (allow-Tracks v now)
run-Tracks n t b (Call.fails now ∷ cs) h v =
    run-Tracks (n + 1) now _ cs h (record_failure-Tracks v now)
run-Tracks n t b (Call.succeeds ∷ cs) h v = run-Tracks 0 t _ cs h (record_success-Tracks v h)

fresh-Tracks :
    (threshold cooldown : ℕ)
    → 0 < threshold
    → Tracks threshold cooldown 0 0 (fresh threshold cooldown)
unfolding fresh
fresh-Tracks threshold cooldown h = record {
  threshold_same = ground arith;
  cooldown_same = ground arith;
  counted = ground arith;
  opened = ground arith;
}

unfoldable pub state_of_history : ℕ → ℕ → List Call → ℕ → BreakerState
state_of_history threshold cooldown cs now =
    if ltb (streak 0 cs) threshold
    then BreakerState.closed
    else if leb (last_failure 0 cs + cooldown) now
    then BreakerState.half_open
    else BreakerState.opened

-- After any calls of its methods, a new breaker whose threshold is positive is closed exactly while
-- the failures since the last success are fewer than the threshold; from then on it is open until
-- the cooldown has passed since the last failure, and half-open after that.
pub state-run :
    (threshold cooldown : ℕ) (cs : List Call) (now : ℕ)
    → 0 < threshold
    → state (run (fresh threshold cooldown) cs) now ≡ state_of_history threshold cooldown cs now
unfolding state state_of_history
state-run threshold cooldown cs now h =
    let v = run-Tracks 0 0 _ cs h (fresh-Tracks threshold cooldown h) in
    ground (arith, v.cooldown_same, v.opened)
