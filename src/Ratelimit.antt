-- ===== src/Ratelimit.antt =====
-- src/opsassist/ratelimit.py: the token bucket of the Lua script, the choice of a bucket and the decision of
-- `RateLimiter.check`. A rate is a number of tokens per minute and time counts seconds, so the tokens
-- that a bucket holds are written in sixtieths and are exact; the script computes them in doubles, whose
-- rounding is not modelled.
pub mod Laws
mod Tests
use novax_ai_assignment.Base.{
  ℕ, ◌+◌, ◌-◌, ◌*◌, ◌/◌, min, max, String, Bool, true, false, ◌||◌, Option, none, some, List, [],
  ◌∷◌, leb, ltb, contains, any, not, ◌==◌, if◌then◌else◌,
}

-- The hash of a key: its tokens, in sixtieths, and the time of its last use. Both are written together.
-- The tokens are `have - owed`, which is below zero after a clock has stepped back far enough.
pub record Bucket : Type 0 where
  pub have : ℕ
  pub owed : ℕ
  pub ts : ℕ

-- The tokens of a bucket, as a difference.
pub record Level : Type 0 where
  pub have : ℕ
  pub owed : ℕ

-- What the script is called with: tokens per minute and the size of the bucket; the cost is one token.
pub record Budget : Type 0 where
  pub per_minute : ℕ
  pub burst : ℕ

abbrev pub cost : ℕ
cost = 60

abbrev pub full : Budget → ℕ
full budget = budget.burst * 60

-- `math.ceil(burst / rate) + 60`, the seconds after which an unused key goes away.
unfoldable pub expiry : Budget → ℕ
expiry budget = (full budget + (budget.per_minute - 1)) / budget.per_minute + 60

-- What `HMGET` finds at a time.
unfoldable pub stored : Budget → ℕ → Option Bucket → Option Bucket
unfolding expiry
stored budget now none = none
stored budget now (some b) = if ltb now (b.ts + expiry budget) then some b else none

-- `math.min(burst, tokens)`
unfoldable pub at_most : Budget → ℕ → ℕ → Level
at_most budget have owed = record { have = min (full budget + owed) have; owed = owed }

-- The tokens after the refill; a clock that steps back takes tokens away.
unfoldable pub refilled : Budget → ℕ → Option Bucket → Level
unfolding at_most
refilled budget now none = record { have = full budget; owed = 0 }
refilled budget now (some b) =
    if leb b.ts now
    then at_most budget (b.have + (now - b.ts) * budget.per_minute) b.owed
    else at_most budget b.have (b.owed + (b.ts - now) * budget.per_minute)

-- The answer: whether the request is allowed, the wait in seconds until a token is there, rounded up,
-- and the tokens left, where less than none counts as none.
pub record Answer : Type 0 where
  pub allowed : Bool
  pub retry : ℕ
  pub tokens : ℕ

unfoldable pub script : Budget → ℕ → Option Bucket → Answer × Bucket
unfolding stored refilled
script budget now old =
    let l = refilled budget now (stored budget now old) in
    let wait = (cost + l.owed - l.have + (budget.per_minute - 1)) / budget.per_minute in
    if leb (cost + l.owed) l.have
    then (
      record { allowed = true; retry = 0; tokens = l.have - cost - l.owed },
      record { have = l.have - cost; owed = l.owed; ts = now },
    )
    else (
      record { allowed = false; retry = wait; tokens = l.have - l.owed },
      record { have = l.have; owed = l.owed; ts = now },
    )

pub record Decision : Type 0 where
  pub allowed : Bool
  pub retry_after : ℕ
  pub remaining : ℕ
  pub bucket : String

-- `check`; the answer is none where Redis fails, and the request passes.
unfoldable pub decision : Budget → String → Option Answer → Decision
decision budget bucket none = record {
  allowed = true;
  retry_after = 0;
  remaining = budget.burst;
  bucket = bucket;
}
decision budget bucket (some a) = record {
  allowed = a.allowed;
  retry_after = max 1 a.retry;
  remaining = a.tokens / 60;
  bucket = bucket;
}

abbrev pub exempt_paths : List String
exempt_paths = "/healthz" ∷ "/readyz" ∷ "/metrics" ∷ []

abbrev pub expensive_prefixes : List String
expensive_prefixes = "/api/chat" ∷ "/api/embeddings" ∷ "/api/search" ∷ "/api/documents" ∷ []

-- `bucket_for`; `starts_with` is Python's.
unfoldable pub bucket_for : (String → String → Bool) → String → String
bucket_for starts_with path =
    if any (starts_with path) expensive_prefixes then "expensive" else "standard"

-- The settings that the middleware reads.
pub record Settings : Type 0 where
  pub enabled : Bool
  pub standard : Budget
  pub expensive : Budget

-- What the middleware does with a request: it is passed on unlimited, passed on, or answered with 429
-- and a time to wait.
pub data Verdict : Type 0 where
  passed admitted : Verdict
  refused : ℕ → Verdict

-- `RateLimitMiddleware.__call__`; `check` is the call of the limiter, and none where there is none yet.
unfoldable pub limit :
    (String → String → Bool)
    → Settings
    → Bool
    → String
    → Option (String → Budget → Decision)
    → Verdict
unfolding bucket_for
limit starts_with settings is_http path none = Verdict.passed
limit starts_with settings is_http path (some check) =
    let bucket = bucket_for starts_with path in
    let d =
      check bucket (if bucket == "expensive" then settings.expensive else settings.standard) in
    if not is_http || not settings.enabled || contains exempt_paths path
    then Verdict.passed
    else if d.allowed
    then Verdict.admitted
    else Verdict.refused d.retry_after
