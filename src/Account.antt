-- ===== src/Account.antt =====
-- internal/store/store.go and internal/store/quota_snapshots.go: the account row, as far as routing
-- reads and writes it. A float64 field is a signed count of millionths: the code only compares it
-- with whole numbers.
use orchids_2api.Prelude.{ℕ, ◌*◌, String, Bool, true, ◌&&◌, ◌||◌, not, List, if◌then◌else◌}
use orchids_2api.Prelude.Int.{ℤ, pos, ltb_ℤ, leb_ℤ}
use orchids_2api.Prelude.Text.{is_empty, trim_space, equal_fold}
use orchids_2api.Prelude.Time.{Time, Duration, is_zero, after, hour}

-- A whole number as a float64.
abbrev pub float : ℕ → ℤ
float n = pos (n * 1_000_000)

-- GrokQuotaWindow
pub record GrokQuotaWindow : Type 0 where
  pub has_limit : Bool
  pub limit : ℤ
  pub has_remaining : Bool
  pub remaining : ℤ
  pub has_usage : Bool
  pub usage_percent : ℤ
  pub reset_at : Time

-- GrokBillingSnapshot
pub record GrokBillingSnapshot : Type 0 where
  pub weekly : GrokQuotaWindow
  pub monthly : GrokQuotaWindow
  pub next_probe_at : Time
  pub last_probe_at : Time

-- GrokBillingSnapshot.IsExhausted
unfoldable pub is_exhausted : GrokBillingSnapshot → Bool
is_exhausted b =
    if monthly.has_limit
      && ltb_ℤ (pos 0) monthly.limit
      && monthly.has_remaining
      && leb_ℤ monthly.remaining (pos 0)
    then true
    else weekly.has_usage && leb_ℤ (float 100) weekly.usage_percent && not (is_zero weekly.reset_at)
  where
    open b use {monthly, weekly}

-- GrokBillingSnapshot.PeriodEnd
unfoldable pub period_end : GrokBillingSnapshot → Time
period_end b =
    if after b.monthly.reset_at b.weekly.reset_at then b.monthly.reset_at else b.weekly.reset_at

-- QoderQuotaSnapshot
pub record QoderQuotaSnapshot : Type 0 where
  pub exhausted : Bool
  pub remaining : ℤ
  pub reset_at : Time
  pub synced_at : Time

-- ModelCooldownReason, and its two values.
abbrev pub ModelCooldownReason : Type 0
ModelCooldownReason = String

abbrev pub model_cooldown_throttled : ModelCooldownReason
model_cooldown_throttled = "throttled"

abbrev pub model_cooldown_unavailable : ModelCooldownReason
model_cooldown_unavailable = "unavailable"

-- ModelCooldownEntitlementFloor
abbrev pub model_cooldown_entitlement_floor : Duration
model_cooldown_entitlement_floor = pos hour

-- Account
pub record Account : Type 0 where
  pub id : ℕ
  pub account_type : String
  pub agent_mode : String
  pub weight : ℤ
  pub max_concurrent : ℤ
  pub subscription : String
  pub usage_current : ℤ
  pub status_code : String
  pub auth_status : String
  pub rate_limit_failures : ℤ
  pub status_message : String
  pub last_attempt : Time
  pub verified_at : Time
  pub quota_reset_at : Time
  pub credential_type : String
  pub grok_provider : String
  pub grok_billing : GrokBillingSnapshot
  pub model_cooldowns : List (String × Time)
  pub model_cooldown_reasons : List (String × ModelCooldownReason)
  pub qoder_quota : QoderQuotaSnapshot

abbrev pub account_status_qoder_quota_exhausted : String
account_status_qoder_quota_exhausted = "qoder_quota_exhausted"

abbrev pub account_status_work_buddy_quota_exhausted : String
account_status_work_buddy_quota_exhausted = "workbuddy_quota_exhausted"

abbrev pub account_auth_status_active : String
account_auth_status_active = "active"

abbrev pub account_auth_status_reauth_required : String
account_auth_status_reauth_required = "reauthRequired"

-- AccountAuthActive, of an account that is there.
unfoldable pub account_auth_active : Account → Bool
account_auth_active acc =
    let status = trim_space acc.auth_status in
    is_empty status || equal_fold status account_auth_status_active
