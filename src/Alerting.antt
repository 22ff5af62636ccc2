-- ===== src/Alerting.antt =====
-- internal/alerting/alerting.go: the conditions of one snapshot, the transitions against the alerts
-- that were firing, and the engine that keeps the firing set between passes. A ratio is an integer
-- number of millionths, so the rounding of float64 is left out; a formatted title or detail is a
-- constructor with the values that go into it.
pub mod Keys
pub mod Passes
pub mod Sorted
pub mod Thresholds
use orchids_2api.Prelude.{
  String, Bool, true, false, not, ◌&&◌, ◌||◌, Option, none, some, List, [], ◌∷◌, ◌++◌, map, ltb,
  ◌==◌, ℕ, str_eq, if◌then◌else◌,
}
use orchids_2api.Prelude.Int.{ℤ, pos, ltb_ℤ, leb_ℤ, ◌+ℤ◌}
use orchids_2api.Prelude.Text.{is_empty, trim_space, to_lower, concat}
use orchids_2api.Prelude.Assoc.{lookup, insert, delete, string_eq}
use orchids_2api.Alerting.Thresholds.{Rules, default_rules, validate}
use orchids_2api.Prelude.Order.{str_less}

-- Severity
abbrev pub severity_warning : String
severity_warning = "warning"

abbrev pub severity_critical : String
severity_critical = "critical"

-- ChannelSnapshot
pub record ChannelSnapshot : Type 0 where
  pub channel : String
  pub requests : ℤ
  pub success : ℤ
  pub failed : ℤ
  pub samples : ℤ
  pub success_rate : ℤ
  pub accounts_enabled : ℤ
  pub accounts_available : ℤ
  pub accounts_needing_login : ℤ
  pub model_cooldowns : ℤ

-- The titles and the details that are formatted.
pub data Title : Type 0 where
  login_required : String → ℤ → Title
  no_account : String → Title
  rate : String → ℤ → Title

pub data Detail : Type 0 where
  credential_refused : Detail
  all_held : ℤ → Detail
  below_critical : ℤ → ℤ → ℤ → Detail
  below_warning : ℤ → ℤ → ℤ → ℤ → Detail
  condition_recovered : Detail

-- Alert
pub record Alert : Type 0 where
  pub key : String
  pub severity : String
  pub channel : String
  pub title : Title
  pub detail : Detail

-- Transition
pub record Transition : Type 0 where
  pub firing : List Alert
  pub recovered : List Alert

-- nonAlertableChannels and IsAlertableChannel
unfoldable pub is_alertable_channel : String → Bool
is_alertable_channel channel =
    let name = to_lower (trim_space channel) in
    if is_empty name then false else not (str_eq name "http" || str_eq name "probe")

-- A map of alerts by key.
abbrev pub AlertMap : Type 0
AlertMap = List (String × Alert)

abbrev pub is_firing : String → AlertMap → Bool
is_firing key alerts = elim (lookup key alerts) [ none ↦ false | some alert ↦ true ]

-- Evaluate, `current[key] = Alert{Key: key, ...}` under a condition.
unfoldable pub add_alert : Bool → Alert → AlertMap → AlertMap
add_alert raised alert current = if raised then insert alert.key alert current else current

-- Evaluate, the refused credentials of a channel.
abbrev pub credential_key : String → String
credential_key name = concat "credential:" name

abbrev pub credential_alert : String → ChannelSnapshot → Alert
credential_alert name channel = record {
  key = credential_key name;
  severity = severity_critical;
  channel = name;
  title = login_required name channel.accounts_needing_login;
  detail = credential_refused;
}

-- Evaluate, the exhausted pool of a channel.
abbrev pub pool_key : String → String
pool_key name = concat "pool-empty:" name

unfoldable pub pool_is_empty : Rules → ChannelSnapshot → Bool
pool_is_empty rules channel =
    rules.require_no_available_accounts
    && ltb_ℤ (pos 0) channel.accounts_enabled
    && (leb_ℤ channel.accounts_available (pos 0) && leb_ℤ (pos 0) channel.accounts_available)

abbrev pub pool_alert : String → ChannelSnapshot → Alert
pool_alert name channel = record {
  key = pool_key name;
  severity = severity_critical;
  channel = name;
  title = no_account name;
  detail = all_held channel.accounts_enabled;
}

-- Evaluate, the success rate of a channel.
abbrev pub rate_key : String → String
rate_key name = concat "success-rate:" name

unfoldable pub clear_margin_of : Rules → ℤ
clear_margin_of rules = if ltb_ℤ rules.clear_margin (pos 0) then pos 0 else rules.clear_margin

unfoldable pub is_severe : Rules → ChannelSnapshot → Bool
is_severe rules channel = ltb_ℤ channel.success_rate rules.success_rate_critical

-- The case of the warning band: enough evidence, and below the line or held by the margin.
unfoldable pub in_warning_band : Rules → ChannelSnapshot → Bool → Bool
unfolding clear_margin_of is_severe
in_warning_band rules channel already_firing =
    let enough_failures =
      is_severe rules channel || already_firing || leb_ℤ rules.min_failures channel.failed in
    let held =
      already_firing
      && ltb_ℤ channel.success_rate (rules.success_rate_warning +ℤ clear_margin_of rules) in
    enough_failures && (ltb_ℤ channel.success_rate rules.success_rate_warning || held)

unfoldable pub has_traffic : Rules → ChannelSnapshot → Bool
has_traffic rules channel =
    leb_ℤ rules.min_requests channel.requests && ltb_ℤ (pos 0) channel.samples

abbrev pub critical_rate_alert : Rules → String → ChannelSnapshot → Alert
critical_rate_alert rules name channel = record {
  key = rate_key name;
  severity = severity_critical;
  channel = name;
  title = rate name channel.success_rate;
  detail = below_critical channel.requests channel.failed rules.success_rate_critical;
}

abbrev pub warning_rate_alert : Rules → String → ChannelSnapshot → Alert
warning_rate_alert rules name channel = record {
  key = rate_key name;
  severity = severity_warning;
  channel = name;
  title = rate name channel.success_rate;
  detail =
      below_warning channel.requests channel.failed rules.success_rate_warning
        (rules.success_rate_warning +ℤ clear_margin_of rules);
}

unfoldable pub judge_rate : AlertMap → Rules → String → ChannelSnapshot → AlertMap → AlertMap
unfolding is_severe in_warning_band has_traffic add_alert
judge_rate previous rules name channel current =
    let already_firing = is_firing (rate_key name) previous in
    if not (has_traffic rules channel)
    then current
    else if is_severe rules channel
    then add_alert true (critical_rate_alert rules name channel) current
    else add_alert (in_warning_band rules channel already_firing)
        (warning_rate_alert rules name channel) current

-- Evaluate, the body of the loop over the channels.
unfoldable pub judge_channel : AlertMap → Rules → ChannelSnapshot → AlertMap → AlertMap
unfolding add_alert pool_is_empty judge_rate is_alertable_channel
judge_channel previous rules channel current =
    let name = trim_space channel.channel in
    if is_empty name || not (is_alertable_channel name)
    then current
    else judge_rate previous rules name channel (
        add_alert (pool_is_empty rules channel) (pool_alert name channel) (
          add_alert (ltb_ℤ (pos 0) channel.accounts_needing_login) (credential_alert name channel)
            current))

unfoldable pub conditions : AlertMap → Rules → List ChannelSnapshot → AlertMap → AlertMap
unfolding judge_channel
conditions previous rules [] current = current
conditions previous rules (channel ∷ channels) current =
    conditions previous rules channels (judge_channel previous rules channel current)

-- Evaluate, the thresholds that are at least one.
unfoldable pub floor_rules : Rules → Rules
floor_rules rules = record rules {
  min_requests = if leb_ℤ rules.min_requests (pos 0) then pos 1 else rules.min_requests;
  min_failures = if leb_ℤ rules.min_failures (pos 0) then pos 1 else rules.min_failures;
}

-- Evaluate, the loops over the two maps: the alerts of the second that are absent from the first.
unfoldable pub alerts_without : AlertMap → AlertMap → List Alert
alerts_without others [] = []
alerts_without others ((key, alert) ∷ alerts) =
    let rest = alerts_without others alerts in if is_firing key others then rest else alert ∷ rest

unfoldable pub mark_recovered : Alert → Alert
mark_recovered alert = record alert { detail = condition_recovered }

-- sortAlerts, the rank of a severity and the condition of the inner loop
unfoldable pub rank : String → ℕ
rank severity =
    if str_eq severity severity_critical
    then 0
    else if str_eq severity severity_warning
    then 1
    else 2

unfoldable pub precedes : Alert → Alert → Bool
unfolding rank str_less
precedes a b =
    ltb (rank a.severity) (rank b.severity)
    || (rank a.severity == rank b.severity) && str_less a.key b.key

-- sortAlerts, the inner loop: an alert moves down past the ones it precedes. The sorted part of the
-- slice is a list whose head is its last element.
unfoldable pub sift : Alert → List Alert → List Alert
unfolding precedes
sift alert [] = alert ∷ []
sift alert (other ∷ sorted) =
    let rest = sift alert sorted in
    if precedes alert other then other ∷ rest else alert ∷ other ∷ sorted

-- sortAlerts, the outer loop, with the sorted part reversed
unfoldable pub sort_into : List Alert → List Alert → List Alert
unfolding sift
sort_into sorted [] = sorted
sort_into sorted (alert ∷ alerts) = sort_into (sift alert sorted) alerts

unfoldable pub reverse_onto : List Alert → List Alert → List Alert
reverse_onto result [] = result
reverse_onto result (alert ∷ alerts) = reverse_onto (alert ∷ result) alerts

unfoldable pub sort_alerts : List Alert → List Alert
unfolding sort_into reverse_onto
sort_alerts alerts = reverse_onto [] (sort_into [] alerts)

-- Evaluate
unfoldable pub evaluate : List ChannelSnapshot → AlertMap → Rules → Transition
unfolding conditions floor_rules alerts_without mark_recovered sort_alerts
evaluate channels previous rules =
    let current = conditions previous (floor_rules rules) channels [] in
    record {
      firing = sort_alerts (alerts_without previous current);
      recovered = sort_alerts (map mark_recovered (alerts_without current previous));
    }

-- Engine: the rules, the firing set, and whether a function records the transitions.
pub record Engine : Type 0 where
  pub rules : Rules
  pub firing : AlertMap
  pub records : Bool

-- NewEngine
unfoldable pub new_engine : Rules → Bool → Engine
new_engine rules records = record { rules = rules; firing = []; records = records }

-- Engine.Evaluate, the two loops that build the new firing set
unfoldable pub delete_alerts : List Alert → AlertMap → AlertMap
delete_alerts [] alerts = alerts
delete_alerts (alert ∷ recovered) alerts = delete_alerts recovered (delete alert.key alerts)

unfoldable pub insert_alerts : List Alert → AlertMap → AlertMap
insert_alerts [] alerts = alerts
insert_alerts (alert ∷ firing) alerts = insert_alerts firing (insert alert.key alert alerts)

-- Engine.Evaluate: the engine after the pass, its transition, and the calls of the record function.
unfoldable pub engine_evaluate :
    List ChannelSnapshot → Option Engine → Option Engine × Transition × List (Alert × Bool)
unfolding evaluate delete_alerts insert_alerts
engine_evaluate channels none = (none, record { firing = []; recovered = [] }, [])
engine_evaluate channels (some e) =
    let transition = evaluate channels e.firing e.rules in
    (
      some (record e {
        firing = insert_alerts transition.firing (delete_alerts transition.recovered e.firing);
      }),
      transition,
      if e.records
          then map (λ alert. (alert, true)) transition.firing
            ++ map (λ alert. (alert, false)) transition.recovered
          else [],
    )

-- The firing set of an engine; a nil engine has none.
abbrev pub firing_of : Option Engine → AlertMap
firing_of none = []
firing_of (some e) = e.firing

-- Engine.Thresholds
unfoldable pub thresholds : Option Engine → Rules
thresholds none = default_rules
thresholds (some e) = e.rules

-- Engine.SetThresholds: the engine afterwards, and the error
unfoldable pub set_thresholds : Rules → Option Engine → Option Engine × Option String
unfolding validate
set_thresholds rules none = (none, some "alert engine is unavailable")
set_thresholds rules (some e) = elim (validate rules) [
  | some err ↦ (some e, some err)
  | none ↦ (some (record e { rules = rules }), none)
]

-- Engine.Firing
unfoldable pub firing_alerts : Option Engine → List Alert
unfolding sort_alerts
firing_alerts none = []
firing_alerts (some e) = sort_alerts (map (λ entry. entry.1) e.firing)
