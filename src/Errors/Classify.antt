-- ===== src/Errors/Classify.antt =====
-- internal/errors/classify.go: ClassifyAccountStatus and ClassifyUpstreamError. The cases of a
-- switch are tested in the order of the source.
use orchids_2api.Prelude.{String, Bool, true, false, ◌||◌, [], ◌∷◌, str_eq, if◌then◌else◌}
use orchids_2api.Prelude.Text.{is_empty, contains, has_suffix, to_lower}
use orchids_2api.Errors.Markers.{
  contains_any, has_explicit_http_status, scan_status_code, leading_status_code,
  is_shared_upstream_queue_refusal, is_upstream_queue_gate, is_upstream_service_unavailable,
  is_cline_model_entitlement, is_credit_exhaustion,
}

-- The switch at the end of ClassifyAccountStatus.
unfoldable pub account_status_of_phrases : String → String
account_status_of_phrases lower =
    if has_explicit_http_status lower "401"
      || contains_any lower (
          "refresh token is expired" ∷ "new browser login is required" ∷ "sign in again"
          ∷ "signed out" ∷ "signed_out" ∷ "unauthenticated" ∷ "no active sessions found" ∷ [])
    then "401"
    else if has_explicit_http_status lower "403" || contains lower "forbidden"
    then "403"
    else if has_explicit_http_status lower "404"
    then "404"
    else if has_explicit_http_status lower "402"
        || is_credit_exhaustion lower
        || contains lower "quota_limit"
    then "402"
    else if has_explicit_http_status lower "429"
        || contains_any lower (
            "qoder agent limit reached" ∷ "agentlimitresettime" ∷ "too many requests" ∷ "rate limit"
            ∷ "rate_limit" ∷ "no remaining quota" ∷ "quota exceeded" ∷ [])
    then "429"
    else ""

-- The two refusals that ClassifyAccountStatus answers before it looks for a status code.
unfoldable pub blames_model_or_plan : String → Bool
blames_model_or_plan lower =
    contains_any lower ("model is not found" ∷ "model not found" ∷ [])
    || contains_any lower ("no usable plan or allowance" ∷ "qoder.com/pricing" ∷ [])
    || is_cline_model_entitlement lower

-- ClassifyAccountStatus
unfoldable pub classify_account_status : String → String
unfolding account_status_of_phrases
classify_account_status s =
    let lower = to_lower s in
    let leading = leading_status_code lower in
    let scanned = scan_status_code lower in
    if blames_model_or_plan lower
    then ""
    else if is_empty leading
    then if is_empty scanned then account_status_of_phrases lower else scanned
    else leading

-- UpstreamErrorClass
pub record UpstreamErrorClass : Type 0 where
  pub category : String
  pub retryable : Bool
  pub switch_account : Bool

abbrev final : String → UpstreamErrorClass
final c = record { category = c; retryable = false; switch_account = false }

abbrev stay : String → UpstreamErrorClass
stay c = record { category = c; retryable = true; switch_account = false }

abbrev rotate : String → UpstreamErrorClass
rotate c = record { category = c; retryable = true; switch_account = true }

-- The cases of ClassifyUpstreamError from the refused credential on.
unfoldable pub classify_by_status : String → UpstreamErrorClass
classify_by_status lower =
    if has_explicit_http_status lower "401"
      || contains_any lower (
          "refresh token is expired" ∷ "new browser login is required" ∷ "sign in again"
          ∷ "signed out" ∷ "signed_out" ∷ "invalid_api_key" ∷ [])
    then rotate "auth"
    else if is_cline_model_entitlement lower
    then rotate "model_unavailable"
    else if has_explicit_http_status lower "403"
    then rotate "auth_blocked"
    else if has_explicit_http_status lower "404"
    then final "auth_blocked"
    else if contains lower "input is too long" || has_explicit_http_status lower "400"
    then final "client"
    else if has_explicit_http_status lower "402"
        || is_credit_exhaustion lower
        || contains lower "quota_limit"
    then rotate "quota_exhausted"
    else if contains lower "code=6004"
    then rotate "rate_limit"
    else if has_explicit_http_status lower "429"
        || contains_any lower (
            "qoder agent limit reached" ∷ "qoder model rate limited" ∷ "cline inference cap reached"
            ∷ "available upstream accounts are rate-limited" ∷ "agentlimitresettime"
            ∷ "too many requests" ∷ "rate limit" ∷ "rate_limit" ∷ "no remaining quota"
            ∷ "quota exceeded" ∷ [])
    then rotate "rate_limit"
    else if contains_any lower ("timeout" ∷ "deadline exceeded" ∷ "context deadline" ∷ [])
    then rotate "timeout"
    else if contains_any lower (
          "connection reset" ∷ "connection refused" ∷ "unexpected eof" ∷ "use of closed"
          ∷ "broken pipe" ∷ [])
        || has_suffix lower ": eof"
        || str_eq lower "eof"
    then rotate "network"
    else if has_explicit_http_status lower "500"
        || has_explicit_http_status lower "502"
        || has_explicit_http_status lower "503"
        || has_explicit_http_status lower "504"
        || contains_any lower ("llm_unavailable" ∷ "internal_error" ∷ [])
    then rotate "server"
    else rotate "unknown"

-- A refusal that is the same for every account, and else the cases that follow it.
unfoldable pub classify_shared_refusal : String → UpstreamErrorClass
classify_shared_refusal lower =
    if is_upstream_queue_gate lower
    then stay "upstream_queue"
    else if is_upstream_service_unavailable lower
    then stay "upstream_unavailable"
    else if is_shared_upstream_queue_refusal lower
    then final "rate_limit"
    else classify_by_status lower

-- The cases that are decided before the shared refusals.
unfoldable pub classify_lower : String → UpstreamErrorClass
classify_lower lower =
    if contains_any lower ("context canceled" ∷ "canceled" ∷ [])
    then final "canceled"
    else if contains_any lower (" is not configured" ∷ "configuration error" ∷ "client is nil" ∷ [])
    then final "configuration"
    else if contains_any lower
        ("content policy rejected" ∷ "datainspectionfailed" ∷ "input text data may contain" ∷ [])
    then final "client"
    else if contains lower "empty upstream stream"
    then final "protocol"
    else if contains lower "rejected the request parameters"
    then final "client"
    else if contains_any lower ("protocol error" ∷ "no usable stream events" ∷ [])
    then final "protocol"
    else if contains lower "pacing registry capacity reached"
    then stay "local_overload"
    else if contains lower "billing daily count exceeded"
    then rotate "quota_exhausted"
    else if contains lower "no usable plan or allowance"
    then rotate "model_unavailable"
    else if contains_any lower (
        "model is not found" ∷ "model not found" ∷ "model is not supported" ∷ "model is not allowed"
        ∷ "no_implementation_available" ∷ "context_window_exceeded" ∷ "max_token_limit"
        ∷ "duplicate request" ∷ [])
    then final "client"
    else classify_shared_refusal lower

-- ClassifyUpstreamError
unfoldable pub classify_upstream_error : String → UpstreamErrorClass
classify_upstream_error s = classify_lower (to_lower s)
