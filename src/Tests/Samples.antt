-- ===== src/Tests/Samples.antt =====
-- Accounts, and errors of the upstream, for the tests.
use orchids_2api.Prelude.{◌+◌, ◌*◌, String, true, false, none, [], ◌∷◌}
use orchids_2api.Prelude.Int.{pos}
use orchids_2api.Prelude.Time.{Time, minute, hour}
use orchids_2api.Prelude.Assoc.{string_eq, nat_eq}
use orchids_2api.Account.{Account, GrokQuotaWindow, GrokBillingSnapshot, QoderQuotaSnapshot}
use orchids_2api.Policy.Classify.{UpstreamError}
use orchids_2api.Policy.Verdict.{Verdict, no_verdict, scope_account, scope_credential}

abbrev pub no_window : GrokQuotaWindow
no_window = record {
  has_limit = false;
  limit = pos 0;
  has_remaining = false;
  remaining = pos 0;
  has_usage = false;
  usage_percent = pos 0;
  reset_at = 0;
}

abbrev pub no_billing : GrokBillingSnapshot
no_billing = record {
  weekly = no_window;
  monthly = no_window;
  next_probe_at = 0;
  last_probe_at = 0;
}

abbrev pub no_quota : QoderQuotaSnapshot
no_quota = record { exhausted = false; remaining = pos 0; reset_at = 0; synced_at = 0 }

-- A moment well after the zero time.
abbrev pub noon : Time
noon = 1_000_000 * hour

abbrev pub grok_account : Account
grok_account = record {
  id = 7;
  account_type = "grok";
  agent_mode = "";
  weight = pos 1;
  max_concurrent = pos 2;
  subscription = "free";
  usage_current = pos 0;
  status_code = "";
  auth_status = "active";
  rate_limit_failures = pos 0;
  status_message = "";
  last_attempt = 0;
  verified_at = 0;
  quota_reset_at = 0;
  credential_type = "";
  grok_provider = "";
  grok_billing = no_billing;
  model_cooldowns = ("grok-4", noon + minute) ∷ [];
  model_cooldown_reasons = ("grok-4", "unavailable") ∷ [];
  qoder_quota = no_quota;
}

abbrev pub throttled_account : Account
throttled_account = record grok_account {
  status_code = "429";
  last_attempt = noon;
  verified_at = noon;
  rate_limit_failures = pos 3;
}

abbrev pub refused_account : Account
refused_account = record grok_account {
  status_code = "401";
  last_attempt = noon;
  verified_at = noon;
}

abbrev pub spent_account : Account
spent_account = record grok_account {
  status_code = "402";
  last_attempt = noon;
  verified_at = noon;
  quota_reset_at = noon + hour;
}

abbrev pub error_of : String → UpstreamError
error_of text = record { text = text; retry_after = none }

abbrev pub throttle_verdict : Verdict
throttle_verdict = record no_verdict {
  status = "429";
  message = "slow down";
  scope = scope_account;
  switch_account = true;
  cooldown = pos minute;
  at = noon;
}

abbrev pub login_verdict : Verdict
login_verdict = record no_verdict {
  status = "401";
  message = "expired";
  scope = scope_credential;
  switch_account = true;
  needs_login = true;
  at = noon;
}
