-- ===== src/Policy/Classify.antt =====
-- internal/accountpolicy/policy.go: Classify, which turns an upstream error into a verdict. The cases
-- stand in the order of the source, in the groups that the definitions below name.
use orchids_2api.Prelude.{
  String, Bool, true, false, not, ◌&&◌, ◌||◌, Option, none, some, [], ◌∷◌, str_eq, if◌then◌else◌,
}
use orchids_2api.Prelude.Int.{pos, leb_ℤ}
use orchids_2api.Prelude.Text.{remove_char, trim_space, to_lower, contains, equal_fold}
use orchids_2api.Prelude.Time.{Time, Duration, is_zero, after, sub}
use orchids_2api.Prelude.Assoc.{string_eq, nat_eq}
use orchids_2api.Account.{
  Account, ModelCooldownReason, account_status_qoder_quota_exhausted,
  account_status_work_buddy_quota_exhausted, model_cooldown_throttled, model_cooldown_unavailable,
}
use orchids_2api.Errors.Markers.{contains_any, is_credit_exhaustion}
use orchids_2api.Errors.Classify.{classify_upstream_error, classify_account_status}
use orchids_2api.Policy.Verdict.{
  Verdict, scope_none, scope_model, scope_account, scope_credential, no_verdict, success,
}
use orchids_2api.Policy.Hold.{
  is_grok, cooldown_payment, cooldown_rate_limit_base, cooldown_blocked, cooldown_blocked_gro,
  credential_reverify,
}

-- What Classify reads of a Go error: its text, and the wait of the first error in its chain that
-- implements RetryAfter.
pub record UpstreamError : Type 0 where
  pub text : String
  pub retry_after : Option Duration

-- isClientRefusal
unfoldable pub is_client_refusal : String → Bool
is_client_refusal lower = contains_any lower (
    "content policy rejected" ∷ "datainspectionfailed" ∷ "input text data may contain"
    ∷ "rejected the request parameters" ∷ [])

-- isGlobalUpstreamRefusal
unfoldable pub is_global_upstream_refusal : String → Bool
is_global_upstream_refusal s = contains_any (remove_char 0x5c (to_lower s)) (
    "qoder gateway is busy" ∷ "available upstream accounts are rate-limited"
    ∷ "available upstream accounts are rate limited" ∷ "10605" ∷ "\"serviceavailable\":false"
    ∷ "\"isqueued\":true" ∷ [])

-- isEntitlementRefusal
unfoldable pub is_entitlement_refusal : String → Bool
is_entitlement_refusal lower =
    contains_any lower (
      "no usable plan or allowance" ∷ "not subscribed to required model plan"
      ∷ "only available via cline product surfaces" ∷ [])
    || contains lower "http 403" && contains lower "entitlement"

-- modelCooldownKindFor
unfoldable pub model_cooldown_kind_for : String → ModelCooldownReason
unfolding is_entitlement_refusal
model_cooldown_kind_for lower =
    if is_entitlement_refusal lower then model_cooldown_unavailable else model_cooldown_throttled

-- isModelScopedFailure
unfoldable pub is_model_scoped_failure : String → Bool
is_model_scoped_failure lower =
    contains_any lower (
      "code=6004" ∷ "qoder gateway is busy" ∷ "qoder agent limit reached"
      ∷ "qoder model rate limited" ∷ "available upstream accounts are rate-limited"
      ∷ "agentlimitresettime" ∷ "model is not found" ∷ "model not found"
      ∷ "no_implementation_available" ∷ "context_window_exceeded" ∷ "max_token_limit"
      ∷ "model unavailable" ∷ "not subscribed to required model plan"
      ∷ "only available via cline product surfaces" ∷ [])
    || contains lower "http 403" && contains lower "entitlement"
    || contains lower "requested base model"

-- accountType, and isGrok of an account that may be missing.
unfoldable pub account_type_of : Option Account → String
account_type_of none = ""
account_type_of (some acc) = acc.account_type

unfoldable pub is_grok_account : Option Account → Bool
is_grok_account none = false
is_grok_account (some acc) = is_grok acc

-- credentialMessage
unfoldable pub credential_message : Option Account → String
unfolding is_grok_account account_type_of
credential_message acc =
    let typ = trim_space (account_type_of acc) in
    if is_grok_account acc
    then "上游拒绝该 Grok Build OAuth 授权，请在账号管理中重新完成官方登录"
    else if equal_fold typ "workbuddy"
    then "上游拒绝该 WorkBuddy 授权，请在账号管理中重新完成 OAuth 登录"
    else if equal_fold typ "cline"
    then "上游拒绝该 Cline 授权，请在账号管理中重新完成 OAuth 登录"
    else "上游拒绝该凭据，需要重新登录后重试"

-- Retryable
unfoldable pub retryable_error : Option UpstreamError → Bool
retryable_error none = false
retryable_error (some err) = (classify_upstream_error err.text).retryable

-- The daily count of a Qoder account: until its known reset, or for a day.
unfoldable pub daily_count_cooldown : Option Account → Time → Duration
daily_count_cooldown none now = pos cooldown_payment
daily_count_cooldown (some acc) now =
    let reset = acc.qoder_quota.reset_at in
    if not (is_zero reset) && after reset now then sub reset now else pos cooldown_payment

-- creditExhaustionVerdict
unfoldable pub credit_exhaustion_verdict :
    Option Account → String → UpstreamError → Time → Option Verdict
credit_exhaustion_verdict acc message err at =
    let typ = trim_space (account_type_of acc) in
    let spent = record no_verdict {
      message = message;
      scope = scope_account;
      retryable = retryable_error (some err);
      switch_account = true;
      at = at;
    } in
    if equal_fold typ "workbuddy"
    then some (record spent { status = account_status_work_buddy_quota_exhausted })
    else if equal_fold typ "qoder"
    then some (record spent { status = account_status_qoder_quota_exhausted })
    else none

-- The switch on ClassifyAccountStatus at the end of Classify.
unfoldable pub classify_status : Time → Option Account → UpstreamError → String → Verdict
classify_status now acc err message =
    let status = classify_account_status message in
    let rotated = record no_verdict {
      status = status;
      message = message;
      scope = scope_account;
      retryable = retryable_error (some err);
      switch_account = true;
      at = now;
    } in
    if str_eq status "401"
    then record rotated {
      message = credential_message acc;
      scope = scope_credential;
      needs_login = true;
      cooldown = pos credential_reverify;
    }
    else if str_eq status "403" || str_eq status "404"
    then record rotated {
      cooldown = pos (if is_grok_account acc then cooldown_blocked_gro else cooldown_blocked);
    }
    else if str_eq status "402"
    then record rotated { cooldown = pos cooldown_payment }
    else if str_eq status "429"
    then record rotated { cooldown = pos cooldown_rate_limit_base }
    else record rotated { status = ""; message = ""; scope = scope_none }

-- A model-scoped complaint, and else the status of the account.
unfoldable pub classify_model_scope :
    Time → Option Account → UpstreamError → String → String → Verdict
classify_model_scope now acc err message model =
    if is_model_scoped_failure (to_lower message)
    then record no_verdict {
      scope = scope_model;
      message = message;
      model = model;
      retryable = retryable_error (some err);
      switch_account = true;
      cooldown = pos cooldown_rate_limit_base;
      model_cooldown_kind = model_cooldown_kind_for (to_lower message);
      at = now;
    }
    else classify_status now acc err message

-- An error that carries its own wait, and else a model-scoped complaint.
unfoldable pub classify_retry_after :
    Time → Option Account → UpstreamError → String → String → Verdict
classify_retry_after now acc err message model = elim err.retry_after [
  | none ↦ classify_model_scope now acc err message model
  | some wait ↦ record no_verdict {
    status = "429";
    message = message;
    scope = scope_account;
    retryable = true;
    switch_account = true;
    cooldown = if leb_ℤ wait (pos 0) then pos cooldown_rate_limit_base else wait;
    at = now;
  }
]

-- A spent balance on a channel with a free tier, and else an error that carries its own wait.
unfoldable pub classify_spent : Time → Option Account → UpstreamError → String → String → Verdict
classify_spent now acc err message model =
    if is_credit_exhaustion (to_lower message)
    then elim (credit_exhaustion_verdict acc message err now) [
      | none ↦ classify_retry_after now acc err message model
      | some verdict ↦ verdict
    ]
    else classify_retry_after now acc err message model

-- The refusals that record nothing on the account, and else a spent balance.
unfoldable pub classify_refusal : Time → Option Account → UpstreamError → String → String → Verdict
classify_refusal now acc err message model =
    let lower = to_lower message in
    let refused = record no_verdict { scope = scope_none; message = message; at = now } in
    if is_global_upstream_refusal lower
    then record no_verdict {
      scope = scope_model;
      message = message;
      model = model;
      retryable = true;
      at = now;
    }
    else if is_client_refusal lower
    then refused
    else if contains lower "empty upstream stream"
    then refused
    else classify_spent now acc err message model

-- Classify
unfoldable pub classify : Time → Option Account → Option UpstreamError → String → Verdict
unfolding daily_count_cooldown account_type_of
classify now acc none model = success now
classify now acc (some err) model =
    let message = trim_space err.text in
    let lower = to_lower message in
    let is_qoder = equal_fold (account_type_of acc) "qoder" in
    if is_qoder && contains lower "billing daily count exceeded"
    then record no_verdict {
      status = "429";
      message = message;
      scope = scope_account;
      retryable = true;
      switch_account = true;
      cooldown = daily_count_cooldown acc now;
      at = now;
    }
    else if is_qoder && contains lower "no usable plan or allowance"
    then record no_verdict {
      scope = scope_model;
      message = message;
      model = model;
      retryable = true;
      switch_account = true;
      cooldown = pos cooldown_payment;
      model_cooldown_kind = model_cooldown_unavailable;
      at = now;
    }
    else classify_refusal now acc err message model
