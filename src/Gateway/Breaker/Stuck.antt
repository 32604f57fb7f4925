-- ===== src/Gateway/Breaker/Stuck.antt =====
-- The half-open probe: one at a time, and what happens when its result is never recorded.
use novax_ai_assignment.Base.{ℕ, ◌≡◌, refl, Bool, true, false, List, [], ◌∷◌, arith, is_some}
use novax_ai_assignment.Gateway.Breaker.{CircuitBreaker, BreakerState, state, allow}

-- The answers of `allow` to callers that come one after the other, with no result recorded between.
unfoldable pub allow_all : CircuitBreaker → List ℕ → List Bool
allow_all b [] = []
allow_all b (now ∷ times) = (allow b now).0 ∷ allow_all (allow b now).1 times

unfoldable pub refusals : List ℕ → List Bool
refusals [] = []
refusals (now ∷ times) = false ∷ refusals times

allow_busy :
    (b : CircuitBreaker) (now : ℕ)
    → is_some b.opened_at ≡ true
    → b.probe_in_flight ≡ true
    → allow b now ≡ (false, b)
unfolding allow
allow_busy b now o p = ground arith

pub allow_all_busy :
    (b : CircuitBreaker) (times : List ℕ)
    → is_some b.opened_at ≡ true
    → b.probe_in_flight ≡ true
    → allow_all b times ≡ refusals times
unfolding allow_all refusals
allow_all_busy b [] o p = refl
allow_all_busy b (now ∷ times) o p =
    ground (arith, allow_busy b now o p, allow_all_busy b times o p)

-- A half-open breaker with no probe out lets exactly one caller through: the first is admitted, and
-- every later one is refused at whatever time it comes, as long as neither a success nor a failure
-- is recorded.
pub allow-half_open :
    (b : CircuitBreaker) (now : ℕ) (times : List ℕ)
    → state b now ≡ BreakerState.half_open
    → b.probe_in_flight ≡ false
    → allow_all b (now ∷ times) ≡ true ∷ refusals times
unfolding allow_all
allow-half_open b now times h p =
    unfold allow state in ground (arith, allow_all_busy (record b { probe_in_flight = true }) times)
