-- ===== src/Policy/Verdict.antt =====
-- internal/accountpolicy/policy.go: the verdict on one upstream result, and what it writes.
use orchids_2api.Prelude.{String, Bool, false, ◌&&◌, ◌||◌, str_eq, if◌then◌else◌}
use orchids_2api.Prelude.Int.{ℤ, pos, ltb_ℤ}
use orchids_2api.Prelude.Int64.{add_int64}
use orchids_2api.Prelude.Text.{is_empty, trim_space}
use orchids_2api.Prelude.Time.{Time, Duration, is_zero, after, add}
use orchids_2api.Prelude.Assoc.{string_eq, nat_eq}
use orchids_2api.Account.{
  Account, ModelCooldownReason, account_status_qoder_quota_exhausted,
  account_status_work_buddy_quota_exhausted, account_auth_status_active,
  account_auth_status_reauth_required,
}

-- Scope
pub data Scope : Type 0 where
  scope_none scope_model scope_account scope_credential : Scope

-- Verdict
pub record Verdict : Type 0 where
  pub status : String
  pub message : String
  pub scope : Scope
  pub retryable : Bool
  pub switch_account : Bool
  pub needs_login : Bool
  pub cooldown : Duration
  pub model : String
  pub model_cooldown_kind : ModelCooldownReason
  pub at : Time

-- The zero Verdict, for the fields that a literal leaves out.
abbrev pub no_verdict : Verdict
no_verdict = record {
  status = "";
  message = "";
  scope = scope_none;
  retryable = false;
  switch_account = false;
  needs_login = false;
  cooldown = pos 0;
  model = "";
  model_cooldown_kind = "";
  at = 0;
}

-- Success
unfoldable pub success : Time → Verdict
success at = record no_verdict { scope = scope_none; at = at }

-- n++ on an int.
unfoldable pub increment : ℤ → ℤ
increment n = add_int64 n (pos 1)

-- The later of the recorded reset and the end of a positive cooldown.
unfoldable pub extend_reset : Duration → Time → Time → Time
extend_reset cooldown at reset =
    if ltb_ℤ (pos 0) cooldown && after (add at cooldown) reset then add at cooldown else reset

-- Verdict.Apply, on an account that is there; `now` is read where the verdict has no time.
unfoldable pub apply : Time → Verdict → Account → Account
unfolding extend_reset
apply now v acc =
    let at = if is_zero v.at then now else v.at in
    let status = trim_space v.status in
    let auth =
      if v.needs_login
      then account_auth_status_reauth_required
      else if is_empty status
      then account_auth_status_active
      else acc.auth_status in
    let throttled = str_eq status "429" in
    if is_empty status
    then record acc {
      status_code = status;
      auth_status = auth;
      status_message = "";
      last_attempt = 0;
      rate_limit_failures = pos 0;
      verified_at = at;
    }
    else record acc {
      status_code = status;
      auth_status = auth;
      status_message = trim_space v.message;
      last_attempt = at;
      rate_limit_failures =
          if throttled then increment acc.rate_limit_failures else acc.rate_limit_failures;
      quota_reset_at =
          if throttled then extend_reset v.cooldown at acc.quota_reset_at else acc.quota_reset_at;
      verified_at = at;
    }

-- ScopeForStatus
unfoldable pub scope_for_status : String → Scope
scope_for_status s =
    let status = trim_space s in
    if str_eq status "401"
    then scope_credential
    else if str_eq status "402"
        || str_eq status "403"
        || str_eq status "404"
        || str_eq status "429"
        || str_eq status account_status_qoder_quota_exhausted
        || str_eq status account_status_work_buddy_quota_exhausted
    then scope_account
    else if is_empty status
    then scope_none
    else scope_account
