-- ===== src/Gateway/Errors.antt =====
-- src/opsassist/providers/base.py: the `ProviderError` hierarchy, the usage record and the token
-- estimate. Durations are natural numbers of one unit.
use novax_ai_assignment.Base.{
  ℕ, ◌+◌, ◌/◌, max, String, Bool, true, false, ◌||◌, Option, none, some, eqb, leb, if◌then◌else◌,
  is_empty,
}

-- The subclasses of `ProviderError`; `base` is an instance of the class itself.
pub data ErrorKind : Type 0 where
  base timeout unavailable auth model_not_found bad_request response : ErrorKind
  rate_limited : Option ℕ → ErrorKind

pub record ProviderError : Type 0 where
  pub kind : ErrorKind
  pub provider : String
  pub message : String
  pub status_code : Option ℕ

-- The class attribute `retryable`.
unfoldable pub kind_retryable : ErrorKind → Bool
kind_retryable ErrorKind.timeout = true
kind_retryable ErrorKind.unavailable = true
kind_retryable (ErrorKind.rate_limited r) = true
kind_retryable _ = false

abbrev pub retryable : ProviderError → Bool
retryable e = kind_retryable e.kind

pub record Usage : Type 0 where
  pub prompt_tokens : ℕ
  pub completion_tokens : ℕ
  pub estimated : Bool

unfoldable pub total_tokens : Usage → ℕ
total_tokens u = u.prompt_tokens + u.completion_tokens

-- `count` is the number of characters of the text.
unfoldable pub estimate_tokens : ℕ → ℕ
estimate_tokens count = if eqb count 0 then 0 else max 1 ((count + 3) / 4)

-- `parse_float` is Python's `float`, and `none` its `ValueError`. The body of the answer, which only
-- goes into the message, is passed as the message.
unfoldable pub classify_http_status :
    (String → Option ℕ) → String → ℕ → String → Option String → ProviderError
classify_http_status parse_float provider status body retry_after =
    if eqb status 429
    then record {
      kind = ErrorKind.rate_limited (retry_s retry_after);
      provider = provider;
      message = body;
      status_code = some 429;
    }
    else record {
      kind =
          if eqb status 401 || eqb status 403
          then ErrorKind.auth
          else if eqb status 404
          then ErrorKind.model_not_found
          else if eqb status 408 || leb 500 status
          then ErrorKind.unavailable
          else ErrorKind.bad_request;
      provider = provider;
      message = body;
      status_code = some status;
    }
  where
    retry_s : Option String → Option ℕ
    retry_s none = none
    retry_s (some text) = if is_empty text then none else parse_float text
