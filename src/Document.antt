-- ===== src/Document.antt =====
-- internal/store/account_merge.go and the account writers of internal/store/redis_store.go: how a
-- snapshot that a caller hands in is merged into the stored row, and the patches of credentials.
pub mod Fields
pub mod Guards
pub mod Deadlines
pub mod Patches
pub mod Rotated
pub mod Atomic
use orchids_2api.Prelude.{
  String, Bool, true, false, ◌&&◌, ◌||◌, not, Option, none, some, List, [], ◌∷◌, str_eq,
  if◌then◌else◌,
}
use orchids_2api.Prelude.Int.{ℤ, pos, ltb_ℤ}
use orchids_2api.Prelude.Text.{is_empty, trim_space, equal_fold}
use orchids_2api.Prelude.Time.{Time, is_zero, after, before}
use orchids_2api.Account.{Account, GrokQuotaWindow, QoderQuotaSnapshot, account_auth_status_active}
use orchids_2api.Cooldown.{merge_model_cooldowns, merge_model_cooldown_reasons}
use orchids_2api.Document.Fields.{Row, GrokFields, WorkBuddyFields, QoderFields, ClineFields}

-- patchString: the value of the target afterwards.
unfoldable pub patch_string : String → String → String
patch_string target incoming =
    let value = trim_space incoming in if is_empty value then target else value

-- `append([]string(nil), s...)`, which is nil for an empty s.
abbrev pub clone_strings : List String → Option (List String)
clone_strings [] = none
clone_strings (s ∷ l) = some (s ∷ l)

-- A list that is written only where it has an element.
abbrev pub keep_on_empty : List String → List String → List String
keep_on_empty existing [] = existing
keep_on_empty existing (s ∷ l) = s ∷ l

-- workBuddyMeterReadingIsNewer, of rows that are there
unfoldable pub work_buddy_meter_reading_is_newer : Row → Row → Bool
work_buddy_meter_reading_is_newer acc existing =
    let read = acc.work_buddy.work_buddy_quota.synced_at in
    not (is_zero read) && not (before read existing.work_buddy.work_buddy_quota.synced_at)

-- accountPatch.mergeIdentity
unfoldable pub merge_identity : Row → Row → Row → Row
merge_identity acc existing u = record u {
  name = acc.name;
  client_cookie = acc.client_cookie;
  refresh_token = acc.refresh_token;
  user_id = acc.user_id;
  email = acc.email;
  enabled = acc.enabled;
  token = acc.token;
  routing = record u.routing {
    account_type =
        if is_empty acc.routing.account_type
        then existing.routing.account_type
        else acc.routing.account_type;
    agent_mode = acc.routing.agent_mode;
    weight = acc.routing.weight;
    max_concurrent = acc.routing.max_concurrent;
    subscription = acc.routing.subscription;
  };
}

-- accountPatch.mergeUsageMeter
unfoldable pub merge_usage_meter : Row → Row → Row → Row
unfolding work_buddy_meter_reading_is_newer
merge_usage_meter acc existing u =
    let moves =
      not (equal_fold acc.routing.account_type "workbuddy")
      || work_buddy_meter_reading_is_newer acc existing in
    record u {
      routing = record u.routing {
        usage_current = if moves then acc.routing.usage_current else u.routing.usage_current;
      };
      usage_limit = if moves then acc.usage_limit else u.usage_limit;
    }

-- accountPatch.mergeStatusAndVerdict, the reset deadline
unfoldable pub merge_quota_reset : Bool → Time → Time → Time
merge_quota_reset stale incoming stored =
    if after incoming stored then incoming else if not stale then incoming else stored

-- accountPatch.mergeStatusAndVerdict, the time of the last verdict
unfoldable pub merge_verified_at : Bool → Time → Time → Time
merge_verified_at clear incoming stored =
    if clear then 0 else if not (is_zero incoming) then incoming else stored

-- accountPatch.mergeStatusAndVerdict
unfoldable pub merge_status_and_verdict : Bool → Row → Row → Row
unfolding merge_quota_reset merge_verified_at
merge_status_and_verdict stale acc u = record u {
  clear_verified_at = false;
  routing = record u.routing {
    status_code = acc.routing.status_code;
    auth_status =
        if acc.clear_verified_at then account_auth_status_active else acc.routing.auth_status;
    rate_limit_failures = acc.routing.rate_limit_failures;
    status_message =
        if is_empty (trim_space acc.routing.status_code) then "" else acc.routing.status_message;
    last_attempt = acc.routing.last_attempt;
    verified_at =
        merge_verified_at acc.clear_verified_at acc.routing.verified_at u.routing.verified_at;
    quota_reset_at = merge_quota_reset stale acc.routing.quota_reset_at u.routing.quota_reset_at;
  };
}

-- accountPatch.mergeGrokCredentials, a text that is kept where the incoming one is blank
abbrev pub or_existing : String → String → String
or_existing existing incoming = if is_empty (trim_space incoming) then existing else incoming

-- accountPatch.mergeGrokCredentials, the Grok fields
unfoldable pub merge_grok_fields : Bool → GrokFields → GrokFields → GrokFields → GrokFields
merge_grok_fields stale acc existing u =
    let models_newer = after acc.grok_models_synced_at existing.grok_models_synced_at in
    let takes_models = not stale || models_newer in
    let has_billing = not (is_zero acc.billing_synced_at) in
    record u {
      o_auth_access_token = acc.o_auth_access_token;
      o_auth_refresh_token = acc.o_auth_refresh_token;
      o_auth_expires_at = acc.o_auth_expires_at;
      team_id = or_existing existing.team_id acc.team_id;
      grok_models = elim acc.grok_models [
        | none ↦ u.grok_models
        | some models ↦ if takes_models then clone_strings models else u.grok_models
      ];
      grok_model_catalog = elim acc.grok_model_catalog [
        | none ↦ u.grok_model_catalog
        | some catalog ↦ if takes_models then some catalog else u.grok_model_catalog
      ];
      grok_models_synced_at =
          if not (is_zero acc.grok_models_synced_at) && takes_models
          then acc.grok_models_synced_at
          else u.grok_models_synced_at;
      billing_synced_at = if has_billing then acc.billing_synced_at else u.billing_synced_at;
      billing_source = if has_billing then acc.billing_source else u.billing_source;
      grok_rate_limits =
          if not (is_zero acc.grok_rate_limits.observed_at)
          then acc.grok_rate_limits
          else u.grok_rate_limits;
      grok_free_quota =
          if not (is_zero acc.grok_free_quota.confirmed_at)
          then acc.grok_free_quota
          else u.grok_free_quota;
    }

-- accountPatch.mergeGrokCredentials
unfoldable pub merge_grok_credentials : Bool → Row → Row → Row → Row
unfolding merge_grok_fields
merge_grok_credentials stale acc existing u = record u {
  grok = merge_grok_fields stale acc.grok existing.grok u.grok;
  routing = record u.routing {
    credential_type = or_existing existing.routing.credential_type acc.routing.credential_type;
    grok_provider = or_existing existing.routing.grok_provider acc.routing.grok_provider;
    grok_billing =
        if not (is_zero acc.grok.billing_synced_at)
        then acc.routing.grok_billing
        else u.routing.grok_billing;
  };
}

-- accountPatch.mergeModelCooldownState
unfoldable pub merge_model_cooldown_state : Time → Row → Row → Row → Row
unfolding merge_model_cooldowns merge_model_cooldown_reasons
merge_model_cooldown_state now acc existing u = record u {
  routing = record u.routing {
    model_cooldowns =
        merge_model_cooldowns now existing.routing.model_cooldowns acc.routing.model_cooldowns;
    model_cooldown_reasons =
        merge_model_cooldown_reasons now existing.routing.model_cooldowns
          acc.routing.model_cooldowns existing.routing.model_cooldown_reasons
          acc.routing.model_cooldown_reasons;
  };
}

-- accountPatch.mergeWorkBuddyCredentials
unfoldable pub merge_work_buddy_credentials : Row → Row → Row → Row
unfolding work_buddy_meter_reading_is_newer patch_string
merge_work_buddy_credentials acc existing u =
    let a = acc.work_buddy in
    let replace = a.replace_work_buddy_credentials in
    record u {
      work_buddy = record u.work_buddy {
        work_buddy_access_token =
            if replace
            then trim_space a.work_buddy_access_token
            else u.work_buddy.work_buddy_access_token;
        work_buddy_refresh_token =
            if replace
            then trim_space a.work_buddy_refresh_token
            else u.work_buddy.work_buddy_refresh_token;
        work_buddy_expires_at =
            if replace then a.work_buddy_expires_at else u.work_buddy.work_buddy_expires_at;
        work_buddy_uid = patch_string u.work_buddy.work_buddy_uid a.work_buddy_uid;
        work_buddy_model_ids =
            keep_on_empty u.work_buddy.work_buddy_model_ids a.work_buddy_model_ids;
        work_buddy_models_synced_at =
            if not (is_zero a.work_buddy_models_synced_at)
            then a.work_buddy_models_synced_at
            else u.work_buddy.work_buddy_models_synced_at;
        work_buddy_quota =
            if work_buddy_meter_reading_is_newer acc existing
            then a.work_buddy_quota
            else u.work_buddy.work_buddy_quota;
      };
    }

-- The guard of a synced snapshot: its time is set and not before the stored one, if that is set.
unfoldable pub is_as_new : Time → Time → Bool
is_as_new incoming stored =
    not (is_zero incoming) && (is_zero stored || not (before incoming stored))

-- accountPatch.mergeQoderCredentials
unfoldable pub merge_qoder_credentials : Row → Row → Row → Row
unfolding patch_string is_as_new
merge_qoder_credentials acc existing u =
    let a = acc.qoder in
    let replace = a.replace_qoder_credentials in
    record u {
      qoder = record u.qoder {
        qoder_access_token =
            if replace then trim_space a.qoder_access_token else u.qoder.qoder_access_token;
        qoder_refresh_token =
            if replace then trim_space a.qoder_refresh_token else u.qoder.qoder_refresh_token;
        qoder_expires_at = if replace then a.qoder_expires_at else u.qoder.qoder_expires_at;
        qoder_machine_id =
            if replace then trim_space a.qoder_machine_id else u.qoder.qoder_machine_id;
        qoder_runtime_info =
            if replace then trim_space a.qoder_runtime_info else u.qoder.qoder_runtime_info;
        qoder_runtime_key =
            if replace then trim_space a.qoder_runtime_key else u.qoder.qoder_runtime_key;
        qoder_user_id = patch_string u.qoder.qoder_user_id a.qoder_user_id;
        qoder_user_name = patch_string u.qoder.qoder_user_name a.qoder_user_name;
        qoder_organization_id = patch_string u.qoder.qoder_organization_id a.qoder_organization_id;
        qoder_organization_tags =
            keep_on_empty u.qoder.qoder_organization_tags a.qoder_organization_tags;
        qoder_data_policy = if a.qoder_data_policy then true else u.qoder.qoder_data_policy;
        qoder_model_ids = keep_on_empty u.qoder.qoder_model_ids a.qoder_model_ids;
        qoder_models_synced_at =
            if is_as_new a.qoder_models_synced_at existing.qoder.qoder_models_synced_at
            then a.qoder_models_synced_at
            else u.qoder.qoder_models_synced_at;
      };
      routing = record u.routing {
        qoder_quota =
            if is_as_new acc.routing.qoder_quota.synced_at existing.routing.qoder_quota.synced_at
            then acc.routing.qoder_quota
            else u.routing.qoder_quota;
      };
    }

-- accountPatch.mergeClineCredentials
unfoldable pub merge_cline_credentials : Row → Row → Row → Row
unfolding patch_string is_as_new
merge_cline_credentials acc existing u =
    let a = acc.cline in
    let replace = a.replace_cline_credentials in
    record u {
      cline = record u.cline {
        cline_access_token =
            if replace then trim_space a.cline_access_token else u.cline.cline_access_token;
        cline_refresh_token =
            if replace then trim_space a.cline_refresh_token else u.cline.cline_refresh_token;
        cline_expires_at = if replace then a.cline_expires_at else u.cline.cline_expires_at;
        cline_email = patch_string u.cline.cline_email a.cline_email;
        cline_plan = patch_string u.cline.cline_plan a.cline_plan;
        cline_model_ids = keep_on_empty u.cline.cline_model_ids a.cline_model_ids;
        cline_models_synced_at =
            if is_as_new a.cline_models_synced_at existing.cline.cline_models_synced_at
            then a.cline_models_synced_at
            else u.cline.cline_models_synced_at;
      };
    }

-- UpdateAccount, whether the snapshot was read before the row was last written
unfoldable pub is_stale_snapshot : Row → Row → Bool
is_stale_snapshot acc existing =
    not (is_zero acc.updated_at) && before acc.updated_at existing.updated_at

-- UpdateAccount, the mutation of the stored row
unfoldable pub merge_account : Time → Row → Row → Row
unfolding merge_identity merge_usage_meter merge_status_and_verdict merge_grok_credentials
    merge_model_cooldown_state merge_work_buddy_credentials merge_qoder_credentials
    merge_cline_credentials is_stale_snapshot
merge_account now acc existing =
    let stale = is_stale_snapshot acc existing in
    merge_cline_credentials acc existing (
      merge_qoder_credentials acc existing (
        merge_work_buddy_credentials acc existing (
          merge_model_cooldown_state now acc existing (
            merge_grok_credentials stale acc existing (
              merge_status_and_verdict stale acc
                (merge_usage_meter acc existing (merge_identity acc existing existing)))))))
