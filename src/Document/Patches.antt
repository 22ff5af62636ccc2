-- ===== src/Document/Patches.antt =====
-- internal/store/credential_patch.go and the credential patches of internal/store/redis_store.go: a
-- refreshed credential is written only over the one it was refreshed from.
pub mod Rotation
use orchids_2api.Prelude.{
  String, Bool, true, false, ◌&&◌, ◌||◌, not, Option, none, some, List, str_eq, if◌then◌else◌,
}
use orchids_2api.Prelude.Int.{ℤ, pos, ltb_ℤ, leb_ℤ, ◌-ℤ◌}
use orchids_2api.Prelude.Int64.{max_ℤ}
use orchids_2api.Prelude.Text.{is_empty, trim_space, equal_fold}
use orchids_2api.Prelude.Time.{Time, is_zero, before}
use orchids_2api.Account.{GrokQuotaWindow, QoderQuotaSnapshot}
use orchids_2api.Document.Fields.{Row}
use orchids_2api.Document.{patch_string}

-- The access token, the refresh token and the expiry that a patch is written to.
abbrev pub Targets : Type 0
Targets = String × String × Time

-- applyCredentialPatch, the test for a credential that changed concurrently
unfoldable pub changed_concurrently : String → String → String → Bool
changed_concurrently expected refresh stored =
    not (is_empty expected) && not (str_eq stored expected) && not (str_eq stored refresh)

-- applyCredentialPatch: the targets afterwards, or none for the error.
unfoldable pub apply_credential_patch : String → String → String → Time → Targets → Option Targets
unfolding changed_concurrently patch_string
apply_credential_patch expected access refresh expires targets =
    let trimmed_refresh = trim_space refresh in
    if changed_concurrently (trim_space expected) trimmed_refresh targets.1
    then none
    else some (
      patch_string targets.0 access,
      patch_string targets.1 trimmed_refresh,
      if not (is_zero expires) then expires else targets.2,
    )

-- WorkBuddyCredentialPatch
pub record WorkBuddyCredentialPatch : Type 0 where
  pub expected_refresh_token : String
  pub access_token : String
  pub refresh_token : String
  pub expires_at : Time
  pub uid : String
  pub email : String

-- UpdateWorkBuddyCredentials, the mutation
unfoldable pub patch_work_buddy : WorkBuddyCredentialPatch → Row → Option Row
unfolding apply_credential_patch patch_string
patch_work_buddy patch acc =
    let f = acc.work_buddy in
    let email = trim_space patch.email in
    elim (apply_credential_patch patch.expected_refresh_token patch.access_token patch.refresh_token
      patch.expires_at
      (f.work_buddy_access_token, f.work_buddy_refresh_token, f.work_buddy_expires_at)) [
        | none ↦ none
        | some targets ↦ some (record acc {
          work_buddy = record f {
            work_buddy_access_token = targets.0;
            work_buddy_refresh_token = targets.1;
            work_buddy_expires_at = targets.2;
            work_buddy_uid = patch_string f.work_buddy_uid patch.uid;
          };
          client_cookie = patch_string acc.client_cookie patch.refresh_token;
          email =
              if not (is_empty email) && is_empty (trim_space acc.email) then email else acc.email;
        })
      ]

-- QoderAccountPatch
pub record QoderAccountPatch : Type 0 where
  pub expected_refresh_token : String
  pub access_token : String
  pub refresh_token : String
  pub expires_at : Time
  pub user_id : String
  pub runtime_info : String
  pub runtime_key : String
  pub model_ids : Option (List String)
  pub quota : Option QoderQuotaSnapshot

-- UpdateQoderAccount, the reading of the quota
unfoldable pub patch_quota : Option QoderQuotaSnapshot → QoderQuotaSnapshot → QoderQuotaSnapshot
patch_quota none stored = stored
patch_quota (some incoming) stored =
    if is_zero stored.synced_at || not (before incoming.synced_at stored.synced_at)
    then incoming
    else stored

abbrev pub replaced_list : Option (List String) → List String → List String
replaced_list none stored = stored
replaced_list (some incoming) stored = incoming

-- UpdateQoderAccount, the mutation
unfoldable pub patch_qoder : QoderAccountPatch → Row → Option Row
unfolding apply_credential_patch patch_string patch_quota
patch_qoder patch acc =
    let f = acc.qoder in
    elim (apply_credential_patch patch.expected_refresh_token patch.access_token patch.refresh_token
      patch.expires_at (f.qoder_access_token, f.qoder_refresh_token, f.qoder_expires_at)) [
        | none ↦ none
        | some targets ↦ some (record acc {
          qoder = record f {
            qoder_access_token = targets.0;
            qoder_refresh_token = targets.1;
            qoder_expires_at = targets.2;
            qoder_user_id = patch_string f.qoder_user_id patch.user_id;
            qoder_runtime_info = patch_string f.qoder_runtime_info patch.runtime_info;
            qoder_runtime_key = patch_string f.qoder_runtime_key patch.runtime_key;
            qoder_model_ids = replaced_list patch.model_ids f.qoder_model_ids;
          };
          routing = record acc.routing {
            qoder_quota = patch_quota patch.quota acc.routing.qoder_quota;
          };
        })
      ]

-- ClineCredentialPatch
pub record ClineCredentialPatch : Type 0 where
  pub expected_refresh_token : String
  pub access_token : String
  pub refresh_token : String
  pub expires_at : Time
  pub email : String
  pub model_ids : Option (List String)

-- UpdateClineCredentials, the mutation
unfoldable pub patch_cline : ClineCredentialPatch → Row → Option Row
unfolding apply_credential_patch patch_string
patch_cline patch acc =
    let f = acc.cline in
    elim (apply_credential_patch patch.expected_refresh_token patch.access_token patch.refresh_token
      patch.expires_at (f.cline_access_token, f.cline_refresh_token, f.cline_expires_at)) [
        | none ↦ none
        | some targets ↦ some (record acc {
          cline = record f {
            cline_access_token = targets.0;
            cline_refresh_token = targets.1;
            cline_expires_at = targets.2;
            cline_email = patch_string f.cline_email patch.email;
            cline_model_ids = replaced_list patch.model_ids f.cline_model_ids;
          };
        })
      ]

-- UpdateAccountQuality, the mutation
unfoldable pub patch_quality : ℤ → Time → Row → Row
patch_quality failures cooldown_until acc = record acc {
  counters = record acc.counters {
    quality_failures = max_ℤ (pos 0) failures;
    quality_cooldown_until = cooldown_until;
  };
}

-- decrementQuotaWindow: the window afterwards, and whether it was charged
unfoldable pub decrement_quota_window : GrokQuotaWindow → ℤ → GrokQuotaWindow × Bool
decrement_quota_window window amount =
    if not window.has_remaining || leb_ℤ window.remaining (pos 0) || leb_ℤ amount (pos 0)
    then (window, false)
    else (record window { remaining = max_ℤ (pos 0) (window.remaining -ℤ amount) }, true)

-- ConsumeGrokQuota, the mutation
unfoldable pub consume_grok_quota : Time → String → ℤ → Row → Row × Bool
unfolding decrement_quota_window
consume_grok_quota now provider amount acc =
    if not (equal_fold (trim_space provider) "build")
    then (acc, false)
    else let charged = decrement_quota_window acc.grok.grok_rate_limits.requests amount in
      (
        record acc {
          grok = record acc.grok {
            grok_rate_limits = record acc.grok.grok_rate_limits {
              requests = charged.0;
              observed_at = if charged.1 then now else acc.grok.grok_rate_limits.observed_at;
            };
          };
        },
        charged.1,
      )
