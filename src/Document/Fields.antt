-- ===== src/Document/Fields.antt =====
-- internal/store/store.go and internal/store/quota_snapshots.go: the whole account row. Its fields are
-- those that routing reads (Account), those of the row itself, and a record for each provider. A
-- slice whose code tells nil from empty is an Option; a float64 is a count of millionths.
use orchids_2api.Prelude.{String, Bool, Option, List}
use orchids_2api.Prelude.Int.{ℤ}
use orchids_2api.Prelude.Time.{Time}
use orchids_2api.Account.{Account, GrokQuotaWindow}

-- modelcatalog.Profile
pub record Profile : Type 0 where
  pub model_id : String
  pub reasoning_efforts : List String
  pub default_reasoning_effort : String
  pub supports_reasoning_effort : Bool
  pub context_window : ℤ
  pub max_completion_tokens : ℤ
  pub supports_backend_search : Bool

-- GrokRateLimitSnapshot
pub record GrokRateLimitSnapshot : Type 0 where
  pub requests : GrokQuotaWindow
  pub tokens : GrokQuotaWindow
  pub model : String
  pub observed_at : Time

-- GrokFreeQuotaSnapshot
pub record GrokFreeQuotaSnapshot : Type 0 where
  pub used : ℤ
  pub limit : ℤ
  pub has_limit : Bool
  pub reset_at : Time
  pub confirmed_at : Time

-- WorkBuddyQuotaSnapshot
pub record WorkBuddyQuotaSnapshot : Type 0 where
  pub limit : ℤ
  pub remaining : ℤ
  pub used : ℤ
  pub package_remaining : ℤ
  pub last_consumed_units : ℤ
  pub reset_at : Time
  pub period_end : Time
  pub package_name : String
  pub unit : String
  pub synced_at : Time

-- The Grok fields of the row; billing_synced_at and billing_source belong to its billing snapshot.
pub record GrokFields : Type 0 where
  pub o_auth_access_token : String
  pub o_auth_refresh_token : String
  pub o_auth_expires_at : Time
  pub team_id : String
  pub grok_models : Option (List String)
  pub grok_model_catalog : Option (List Profile)
  pub grok_models_synced_at : Time
  pub billing_synced_at : Time
  pub billing_source : String
  pub grok_rate_limits : GrokRateLimitSnapshot
  pub grok_free_quota : GrokFreeQuotaSnapshot

-- The WorkBuddy fields of the row.
pub record WorkBuddyFields : Type 0 where
  pub work_buddy_access_token : String
  pub work_buddy_refresh_token : String
  pub work_buddy_expires_at : Time
  pub work_buddy_uid : String
  pub replace_work_buddy_credentials : Bool
  pub work_buddy_model_ids : List String
  pub work_buddy_models_synced_at : Time
  pub work_buddy_quota : WorkBuddyQuotaSnapshot

-- The Qoder fields of the row; the quota that routing reads is in the Account.
pub record QoderFields : Type 0 where
  pub qoder_access_token : String
  pub qoder_refresh_token : String
  pub qoder_expires_at : Time
  pub replace_qoder_credentials : Bool
  pub qoder_machine_id : String
  pub qoder_user_id : String
  pub qoder_user_name : String
  pub qoder_organization_id : String
  pub qoder_organization_tags : List String
  pub qoder_data_policy : Bool
  pub qoder_runtime_info : String
  pub qoder_runtime_key : String
  pub qoder_model_ids : List String
  pub qoder_models_synced_at : Time

-- The Cline fields of the row.
pub record ClineFields : Type 0 where
  pub cline_access_token : String
  pub cline_refresh_token : String
  pub cline_expires_at : Time
  pub cline_email : String
  pub cline_plan : String
  pub replace_cline_credentials : Bool
  pub cline_model_ids : List String
  pub cline_models_synced_at : Time

-- The fields that only the counters and the quality guard write.
pub record Counters : Type 0 where
  pub usage_total : ℤ
  pub tokens_today : ℤ
  pub tokens_date : String
  pub quality_failures : ℤ
  pub quality_cooldown_until : Time
  pub request_count : ℤ
  pub last_used_at : Time
  pub created_at : Time

-- The row of an account.
pub record Row : Type 0 where
  pub routing : Account
  pub name : String
  pub client_cookie : String
  pub refresh_token : String
  pub user_id : String
  pub email : String
  pub enabled : Bool
  pub token : String
  pub usage_limit : ℤ
  pub clear_verified_at : Bool
  pub updated_at : Time
  pub counters : Counters
  pub grok : GrokFields
  pub work_buddy : WorkBuddyFields
  pub qoder : QoderFields
  pub cline : ClineFields
