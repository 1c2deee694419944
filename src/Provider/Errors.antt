-- ===== src/Provider/Errors.antt =====
-- crates/adaclaw-providers/src/error.rs. An `anyhow::Error` is a `ProviderError` or another error
-- with its text. Texts are compared in lower case, as code points.
use ada_claw.Prelude.{
  ℕ, String, Bool, true, false, ◌&&◌, ◌||◌, Option, List, [], ◌∷◌, leb, ◌==◌, if◌then◌else◌, any,
  Codes, codes, to_lower, contains_text,
}

pub data ProviderErrorKind : Type 0 where
  rate_limit billing auth_error bad_request server_error timeout unknown : ProviderErrorKind

unfoldable pub is_retryable : ProviderErrorKind → Bool
is_retryable server_error = true
is_retryable timeout = true
is_retryable unknown = true
is_retryable _ = false

unfoldable pub counts_as_circuit_failure : ProviderErrorKind → Bool
counts_as_circuit_failure server_error = true
counts_as_circuit_failure timeout = true
counts_as_circuit_failure unknown = true
counts_as_circuit_failure rate_limit = true
counts_as_circuit_failure billing = true
counts_as_circuit_failure _ = false

pub record ProviderError : Type 0 where
  pub kind : ProviderErrorKind
  pub status : ℕ
  pub message : String
  pub retry_after_secs : Option ℕ

kind_of_status : ℕ → ProviderErrorKind
kind_of_status status =
    if status == 400
    then bad_request
    else if status == 401 || status == 403
    then auth_error
    else if status == 402
    then billing
    else if status == 408
    then timeout
    else if status == 429
    then rate_limit
    else if leb 500 status && leb status 599
    then server_error
    else unknown

unfoldable pub from_status : ℕ → String → Option ℕ → ProviderError
unfolding kind_of_status
from_status status body retry_after_secs = record {
  kind = kind_of_status status;
  status = status;
  message = body;
  retry_after_secs = retry_after_secs;
}

pub data Error : Type 0 where
  provider_error : ProviderError → Error
  other : String → Error

unfoldable pub contains_any : Codes → List String → Bool
contains_any haystack needles = any (λ n. contains_text (codes n) haystack) needles

-- The tests on the text, in their order.
unfoldable pub classify_text : Codes → ProviderErrorKind
unfolding contains_any contains_text
classify_text s =
    if contains_any s (
      "429" ∷ "rate limit" ∷ "rate_limit" ∷ "ratelimit" ∷ "too many requests"
      ∷ "exceeded your current quota" ∷ "exceeded quota" ∷ "resource has been exhausted"
      ∷ "resource_exhausted" ∷ "quota exceeded" ∷ "usage limit" ∷ [])
    then rate_limit
    else if contains_any s ("overloaded_error" ∷ "overloaded" ∷ [])
    then rate_limit
    else if contains_any s (
        "402" ∷ "payment required" ∷ "insufficient credits" ∷ "credit balance" ∷ "plans & billing"
        ∷ "insufficient balance" ∷ "billing" ∷ [])
    then billing
    else if contains_any s (
        "408" ∷ "timeout" ∷ "timed out" ∷ "deadline exceeded" ∷ "context deadline exceeded"
        ∷ "request timeout" ∷ "connection timed out" ∷ [])
    then timeout
    else if contains_any s (
        "401" ∷ "403" ∷ "invalid api key" ∷ "invalid_api_key" ∷ "incorrect api key"
        ∷ "invalid token" ∷ "authentication" ∷ "re-authenticate" ∷ "oauth token refresh failed"
        ∷ "unauthorized" ∷ "forbidden" ∷ "access denied" ∷ "expired" ∷ "token has expired"
        ∷ "no credentials found" ∷ "no api key found" ∷ [])
    then auth_error
    else if contains_any s (
        "400" ∷ "bad request" ∷ "invalid request" ∷ "invalid_request_error"
        ∷ "string should match pattern" ∷ "tool_use.id" ∷ "tool_use_id"
        ∷ "messages.1.content.1.tool_use.id" ∷ "invalid request format" ∷ [])
    then bad_request
    else if contains_any s (
        "500" ∷ "502" ∷ "503" ∷ "521" ∷ "522" ∷ "523" ∷ "524" ∷ "529" ∷ "internal server error"
        ∷ "service unavailable" ∷ "bad gateway" ∷ [])
    then server_error
    else unknown

unfoldable pub classify_error : Error → ProviderErrorKind
unfolding classify_text
classify_error (provider_error pe) = pe.kind
classify_error (other text) = classify_text (to_lower (codes text))
