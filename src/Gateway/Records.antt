-- ===== src/Gateway/Records.antt =====
-- src/opsassist/gateway/gateway.py: the records of attempts and the small helpers of the gateway.
use novax_ai_assignment.Base.{
  ℕ, String, Bool, true, false, not, ◌&&◌, Option, none, some, List, [], ◌∷◌, ◌==◌, any, is_some,
  take_chars, join, if◌then◌else◌, ◌+◌,
}
use novax_ai_assignment.Gateway.Errors.{ErrorKind, ProviderError, Usage, kind_retryable}
use novax_ai_assignment.Gateway.Catalog.{ModelKind, ModelSpec, estimate_cost_usd}

pub data AttemptOutcome : Type 0 where
  success error timeout cancelled skipped : AttemptOutcome

pub data GatewayErrorCode : Type 0 where
  bad_request provider_unavailable no_available_provider deadline_exceeded : GatewayErrorCode

-- Times are in the unit of the durations, and the cost is in that of `estimate_cost_usd`.
pub record AttemptRecord : Type 0 where
  pub kind : ModelKind
  pub model_id : String
  pub provider : String
  pub attempt : ℕ
  pub outcome : AttemptOutcome
  pub latency_ms : ℕ
  pub ttft_ms : Option ℕ
  pub usage : Option Usage
  pub cost_usd : ℕ
  pub error_type : Option String
  pub detail : Option String

abbrev pub is_skipped : AttemptRecord → Bool
is_skipped a = elim a.outcome [ AttemptOutcome.skipped ↦ true | _ ↦ false ]

abbrev pub is_success : AttemptRecord → Bool
is_success a = elim a.outcome [ AttemptOutcome.success ↦ true | _ ↦ false ]

-- `type(error).__name__`
type_name : ErrorKind → String
type_name ErrorKind.base = "ProviderError"
type_name ErrorKind.timeout = "ProviderTimeout"
type_name ErrorKind.unavailable = "ProviderUnavailable"
type_name (ErrorKind.rate_limited r) = "ProviderRateLimited"
type_name ErrorKind.auth = "ProviderAuthError"
type_name ErrorKind.model_not_found = "ProviderModelNotFound"
type_name ErrorKind.bad_request = "ProviderBadRequest"
type_name ErrorKind.response = "ProviderResponseError"

-- `str(error)[:300]`
detail_of : ProviderError → String
detail_of e = take_chars 300 (join "[" (join e.provider (join "] " e.message)))

cost_of : ModelSpec → Option Usage → ℕ
cost_of spec none = 0
cost_of spec (some u) = estimate_cost_usd spec u.prompt_tokens u.completion_tokens

error_name : Option ProviderError → Option String
unfolding type_name
error_name none = none
error_name (some e) = some (type_name e.kind)

error_detail : Option ProviderError → Option String
unfolding detail_of
error_detail none = none
error_detail (some e) = some (detail_of e)

-- `_attempt`, less its metrics and its log line; `latency` is the time since the attempt started.
unfoldable pub attempt_record :
    ModelKind
    → ModelSpec
    → ℕ
    → AttemptOutcome
    → ℕ
    → Option Usage
    → Option ℕ
    → Option ProviderError
    → AttemptRecord
unfolding cost_of error_name error_detail
attempt_record kind spec n outcome latency usage ttft err = record {
  kind = kind;
  model_id = spec.id;
  provider = spec.provider;
  attempt = n;
  outcome = outcome;
  latency_ms = latency;
  ttft_ms = ttft;
  usage = usage;
  cost_usd = cost_of spec usage;
  error_type = error_name err;
  detail = error_detail err;
}

unfoldable pub skipped_record : ModelKind → ModelSpec → String → AttemptRecord
skipped_record kind spec reason = record {
  kind = kind;
  model_id = spec.id;
  provider = spec.provider;
  attempt = 0;
  outcome = AttemptOutcome.skipped;
  latency_ms = 0;
  ttft_ms = none;
  usage = none;
  cost_usd = 0;
  error_type = none;
  detail = some reason;
}

-- `"timeout" if isinstance(err, ProviderTimeout) else "error"`
unfoldable pub failure_outcome : ErrorKind → AttemptOutcome
failure_outcome ErrorKind.timeout = AttemptOutcome.timeout
failure_outcome _ = AttemptOutcome.error

-- The tests of `_update_breaker`: whether the error is recorded as a failure of the model.
unfoldable pub trips_breaker : ErrorKind → Bool
unfolding kind_retryable
trips_breaker ErrorKind.bad_request = false
trips_breaker ErrorKind.model_not_found = false
trips_breaker ErrorKind.auth = true
trips_breaker ErrorKind.response = true
trips_breaker k = kind_retryable k

unfoldable pub is_bad_request : ErrorKind → Bool
is_bad_request ErrorKind.bad_request = true
is_bad_request _ = false

-- `ChatOutcome.fallback_used` and `ChatOutcome.cost_usd`
unfoldable pub fallback_used : ModelSpec → List AttemptRecord → Bool
fallback_used spec attempts = any (λ a. not (a.model_id == spec.id)) attempts

unfoldable pub total_cost : List AttemptRecord → ℕ
total_cost [] = 0
total_cost (a ∷ attempts) = a.cost_usd + total_cost attempts

pub record ChatParams : Type 0 where
  pub temperature : Option ℕ
  pub max_tokens : ℕ

unfoldable pub params_for : ModelSpec → ChatParams → ChatParams
params_for spec params =
    if not spec.supports_temperature && is_some params.temperature
    then record params { temperature = none }
    else params
