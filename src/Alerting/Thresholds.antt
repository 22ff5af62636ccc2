-- ===== src/Alerting/Thresholds.antt =====
-- internal/alerting/alerting.go: the thresholds of the alerts.
use orchids_2api.Prelude.{String, Bool, true, ◌||◌, Option, none, some, if◌then◌else◌}
use orchids_2api.Prelude.Int.{ℤ, pos, ltb_ℤ, leb_ℤ, ◌+ℤ◌}

-- Rules; a ratio is in millionths.
pub record Rules : Type 0 where
  pub min_requests : ℤ
  pub min_failures : ℤ
  pub success_rate_warning : ℤ
  pub success_rate_critical : ℤ
  pub clear_margin : ℤ
  pub require_no_available_accounts : Bool

-- DefaultRules
abbrev pub default_rules : Rules
default_rules = record {
  min_requests = pos 5;
  min_failures = pos 3;
  success_rate_warning = pos 900000;
  success_rate_critical = pos 500000;
  clear_margin = pos 30000;
  require_no_available_accounts = true;
}

-- Rules.Validate: the error, if any.
unfoldable pub validate : Rules → Option String
validate r =
    if ltb_ℤ r.min_requests (pos 0) || ltb_ℤ r.min_failures (pos 0)
    then some "request and failure thresholds cannot be negative"
    else if leb_ℤ r.success_rate_warning (pos 0) || ltb_ℤ (pos 1000000) r.success_rate_warning
    then some "warning success rate must be between 0 and 1"
    else if leb_ℤ r.success_rate_critical (pos 0)
        || leb_ℤ r.success_rate_warning r.success_rate_critical
    then some "critical success rate must be positive and below the warning threshold"
    else if ltb_ℤ (pos 1000000) (r.success_rate_warning +ℤ r.clear_margin)
    then some "warning threshold plus clear margin cannot exceed 100%"
    else if ltb_ℤ r.clear_margin (pos 0) || ltb_ℤ (pos 500000) r.clear_margin
    then some "clear margin must be between 0 and 0.5"
    else none
