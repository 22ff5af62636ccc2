-- ===== src/Tests/Document.antt =====
-- The theorems on the account row, on a row with a newer reset deadline than the snapshot, and on two
-- writers of which one has to retry.
use orchids_2api.Prelude.{
  ℕ, ◌+◌, ◌-◌, ◌*◌, ◌≤◌, ◌==◌, ◌≡◌, refl, Bool, true, false, Option, none, some, [], ◌∷◌, arith,
  str_eq, length, if◌then◌else◌,
}
use orchids_2api.Prelude.Int.{pos}
use orchids_2api.Prelude.Text.{trim_space}
use orchids_2api.Prelude.Time.{minute, hour}
use orchids_2api.Document.Fields.{Row, WorkBuddyQuotaSnapshot}
use orchids_2api.Document.Deadlines.{apply_updates-latest_reset}
use orchids_2api.Document.Rotated.{apply_updates-credentials}
use orchids_2api.Document.Guards.{
  work_buddy_credentials, qoder_credentials, cline_credentials, NotBefore, readings, apply_updates,
  apply_updates-NotBefore,
}
use orchids_2api.Document.Atomic.{
  System, idle, failed, changed_too_frequently, max_attempts, watch_row, commit_row, replay,
  start_system, started, watched, committed_or_retried,
}
use orchids_2api.Document.Atomic.Committed.{commits_of, stored_by, reached-replay}
use orchids_2api.Document.Atomic.Undisturbed.{
  at_once, other_watched, end_of, update_alone, undisturbed-returns,
}
use orchids_2api.Document.Patches.{apply_credential_patch}
use orchids_2api.Document.Patches.Rotation.{rotation-once}
use orchids_2api.Tests.Samples.{noon, grok_account, no_window}

abbrev no_meter : WorkBuddyQuotaSnapshot
no_meter = record {
  limit = pos 0;
  remaining = pos 0;
  used = pos 0;
  package_remaining = pos 0;
  last_consumed_units = pos 0;
  reset_at = 0;
  period_end = 0;
  package_name = "";
  unit = "";
  synced_at = 0;
}

abbrev stored_row : Row
stored_row = record {
  routing = record grok_account {
    status_code = "429";
    status_message = "slow down";
    verified_at = noon;
    quota_reset_at = noon + hour;
  };
  name = "first";
  client_cookie = "";
  refresh_token = "";
  user_id = "";
  email = "";
  enabled = true;
  token = "";
  usage_limit = pos 0;
  clear_verified_at = false;
  updated_at = noon;
  counters = record {
    usage_total = pos 12;
    tokens_today = pos 3;
    tokens_date = "2026-08-13";
    quality_failures = pos 0;
    quality_cooldown_until = 0;
    request_count = pos 2;
    last_used_at = noon;
    created_at = noon;
  };
  grok = record {
    o_auth_access_token = "a";
    o_auth_refresh_token = "r";
    o_auth_expires_at = noon + hour;
    team_id = "team";
    grok_models = none;
    grok_model_catalog = none;
    grok_models_synced_at = 0;
    billing_synced_at = 0;
    billing_source = "";
    grok_rate_limits = record {
      requests = no_window;
      tokens = no_window;
      model = "";
      observed_at = 0;
    };
    grok_free_quota = record {
      used = pos 0;
      limit = pos 0;
      has_limit = false;
      reset_at = 0;
      confirmed_at = 0;
    };
  };
  work_buddy = record {
    work_buddy_access_token = "";
    work_buddy_refresh_token = "";
    work_buddy_expires_at = 0;
    work_buddy_uid = "";
    replace_work_buddy_credentials = false;
    work_buddy_model_ids = [];
    work_buddy_models_synced_at = 0;
    work_buddy_quota = record no_meter { synced_at = noon };
  };
  qoder = record {
    qoder_access_token = "access";
    qoder_refresh_token = "refresh";
    qoder_expires_at = noon;
    replace_qoder_credentials = false;
    qoder_machine_id = "";
    qoder_user_id = "";
    qoder_user_name = "";
    qoder_organization_id = "";
    qoder_organization_tags = [];
    qoder_data_policy = false;
    qoder_runtime_info = "";
    qoder_runtime_key = "";
    qoder_model_ids = [];
    qoder_models_synced_at = noon;
  };
  cline = record {
    cline_access_token = "";
    cline_refresh_token = "";
    cline_expires_at = 0;
    cline_email = "";
    cline_plan = "";
    replace_cline_credentials = false;
    cline_model_ids = [];
    cline_models_synced_at = 0;
  };
}

-- A snapshot that was read an hour earlier, with its own status and credentials.
abbrev stale_row : Row
stale_row = record stored_row {
  updated_at = noon - hour;
  routing = record stored_row.routing {
    status_code = " ";
    status_message = "old";
    verified_at = 0;
    quota_reset_at = noon;
  };
  counters = record stored_row.counters { usage_total = pos 1 };
  work_buddy = record stored_row.work_buddy {
    work_buddy_quota = record no_meter { synced_at = noon - hour };
  };
  qoder = record stored_row.qoder {
    qoder_refresh_token = "spent";
    qoder_models_synced_at = noon - hour;
  };
  cline = record stored_row.cline {
    replace_cline_credentials = true;
    cline_access_token = " fresh ";
  };
}

-- A snapshot that was read half an hour before the row was written, with a later reset deadline.
abbrev later_row : Row
later_row = record stored_row {
  updated_at = noon - 30 * minute;
  routing = record stored_row.routing { quota_reset_at = noon + 2 * hour };
}

apply_updates-latest_reset_example :
    (apply_updates
      ((noon, stale_row) ∷ (noon + minute, later_row) ∷ [])
      stored_row).routing.quota_reset_at
    ≡ noon + 2 * hour
apply_updates-latest_reset_example =
    apply_updates-latest_reset ((noon, stale_row) ∷ (noon + minute, later_row) ∷ []) stored_row
      ((omega arith, omega arith), ((omega arith, omega arith), tt))

apply_updates-credentials_example :
    (((apply_updates ((noon, stale_row) ∷ (noon + minute, stored_row) ∷ []) stored_row).routing.id
        ≡ 7)
      × ((apply_updates ((noon, stale_row) ∷ (noon + minute, stored_row) ∷ []) stored_row).counters
          ≡ stored_row.counters))
    × (work_buddy_credentials
          (apply_updates ((noon, stale_row) ∷ (noon + minute, stored_row) ∷ []) stored_row)
        ≡ ("", "", 0))
    × (qoder_credentials
          (apply_updates ((noon, stale_row) ∷ (noon + minute, stored_row) ∷ []) stored_row)
        ≡ ("access", "refresh", noon))
    × (cline_credentials
          (apply_updates ((noon, stale_row) ∷ (noon + minute, stored_row) ∷ []) stored_row)
        ≡ ("fresh", "", 0))
unfolding trim_space
apply_updates-credentials_example =
    apply_updates-credentials ((noon, stale_row) ∷ (noon + minute, stored_row) ∷ []) stored_row

apply_updates-NotBefore_example : NotBefore (noon ∷ readings stored_row) (
    (apply_updates ((noon, stale_row) ∷ (noon + minute, stored_row) ∷ []) stored_row).updated_at
    ∷ readings (apply_updates ((noon, stale_row) ∷ (noon + minute, stored_row) ∷ []) stored_row))
apply_updates-NotBefore_example =
    apply_updates-NotBefore ((noon, stale_row) ∷ (noon + minute, stored_row) ∷ []) stored_row

-- Two writers that each count a use of the row.
abbrev rename : ℕ → Row → Option Row
rename i r = some (record r { name = if i == 0 then "zero" else "one" })

abbrev same_name : Row → Row → Bool
same_name a b = str_eq a.name b.name

-- Both watch the row, the first commits, and the second finds that it has to retry.
abbrev contended : System
contended = commit_row rename same_name 1 (noon + minute) false (
    commit_row rename same_name 0 noon false
      (watch_row 1 (watch_row 0 (start_system (some stored_row)))))

reached-replay_example :
    (contended.stored ≡ replay rename contended.log (some stored_row))
    × (contended.version ≡ length contended.log)
    × ((i : ℕ) → commits_of i contended.log ≡ stored_by (contended.writers i))
    × ((i : ℕ)
        → contended.writers i ≡ failed changed_too_frequently
        → max_attempts ≤ length contended.log)
reached-replay_example = reached-replay rename same_name (some stored_row) (
    committed_or_retried 1 (noon + minute) false
      (committed_or_retried 0 noon false (watched 1 (watched 0 started))))

retried_test : contended.writers 1 ≡ idle 1
unfolding commit_row watch_row
retried_test = refl

-- Writer 1 watches the row again, and writer 2 watches it too before the first of them commits.
abbrev awaited : System
awaited = watch_row 2 (watch_row 1 contended)

undisturbed-returns_example :
    end_of 1 (commit_row rename same_name 1 (noon + hour) false awaited)
    ≡ update_alone rename same_name 1 (noon + hour) false contended.stored
unfolding commit_row watch_row
undisturbed-returns_example =
    undisturbed-returns rename same_name contended awaited 1 1 (noon + hour) false refl
      (omega arith) (other_watched 2 refl at_once) refl

rotation-once_example :
    apply_credential_patch "old" "x" "second" (noon + hour) ("a", "first", noon) ≡ none
unfolding trim_space apply_credential_patch
rotation-once_example =
    rotation-once "old" "a" "first" "x" "second" noon (noon + hour) ("", "old", 0)
      ("a", "first", noon) refl refl refl refl refl
