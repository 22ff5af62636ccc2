-- ===== src/Alerting/Keys.antt =====
-- The keys of the alerts that one pass finds: which conditions of which channels raise them.
use orchids_2api.Prelude.{
  String, ◌≡◌, Bool, true, false, not, ◌&&◌, ◌||◌, some, List, [], ◌∷◌, arith, str_eq,
  if◌then◌else◌, any,
}
use orchids_2api.Prelude.Int.{pos, ltb_ℤ}
use orchids_2api.Prelude.Text.{is_empty, trim_space}
use orchids_2api.Prelude.Assoc.{lookup, insert, delete, string_eq, lookup-insert, lookup-delete}
use orchids_2api.Prelude.Unique.{Unique, insert-Unique, delete-Unique}
use text.Mathlib.TextEquality.{eq_iff}
use orchids_2api.Alerting.Thresholds.{Rules}
use orchids_2api.Alerting.{
  ChannelSnapshot, Alert, AlertMap, is_alertable_channel, is_firing, add_alert, credential_key,
  credential_alert, pool_key, pool_is_empty, pool_alert, rate_key, is_severe, in_warning_band,
  has_traffic, judge_rate, judge_channel, conditions, critical_rate_alert, warning_rate_alert,
}

-- A map in which no key stands twice and every alert stands under its own key.
abbrev pub IsKeyed : AlertMap → Type 0
IsKeyed alerts =
    Unique alerts
    × ((key : String) (alert : Alert) → lookup key alerts ≡ some alert → alert.key ≡ key)

pub insert-IsKeyed :
    (alert : Alert) (alerts : AlertMap) → IsKeyed alerts → IsKeyed (insert alert.key alert alerts)
insert-IsKeyed alert alerts h = (
  insert-Unique alert.key alert alerts h.0,
  λ key other found.
      ground (arith, lookup-insert alert.key key alert alerts, eq_iff alert.key key, h.1 key other),
)

pub delete-IsKeyed :
    (key : String) (alerts : AlertMap) → IsKeyed alerts → IsKeyed (delete key alerts)
delete-IsKeyed key alerts h = (
  delete-Unique key alerts h.0,
  λ other alert found. ground (arith, lookup-delete key other alerts, h.1 other alert),
)

branch-IsKeyed :
    (test : Bool) (left right : AlertMap)
    → IsKeyed left
    → IsKeyed right
    → IsKeyed (if test then left else right)
branch-IsKeyed true left right h g = h
branch-IsKeyed false left right h g = g

add_alert-IsKeyed :
    (raised : Bool) (alert : Alert) (alerts : AlertMap)
    → IsKeyed alerts
    → IsKeyed (add_alert raised alert alerts)
unfolding add_alert
add_alert-IsKeyed true alert alerts h = insert-IsKeyed alert alerts h
add_alert-IsKeyed false alert alerts h = h

is_firing-add_alert :
    (key : String) (raised : Bool) (alert : Alert) (alerts : AlertMap)
    → is_firing key (add_alert raised alert alerts)
      ≡ (is_firing key alerts || str_eq alert.key key && raised)
unfolding add_alert
is_firing-add_alert key true alert alerts = ground (arith, lookup-insert alert.key key alert alerts)
is_firing-add_alert key false alert alerts = ground arith

-- A condition of the channel raises the alert of a key, given whether that alert fired before.
unfoldable pub raises : Rules → String → Bool → ChannelSnapshot → Bool
raises rules key already_firing channel =
    let name = trim_space channel.channel in
    not (is_empty name)
    && is_alertable_channel name
    && (str_eq (credential_key name) key && ltb_ℤ (pos 0) channel.accounts_needing_login
        || str_eq (pool_key name) key && pool_is_empty rules channel
        || str_eq (rate_key name) key
          && (has_traffic rules channel
              && (is_severe rules channel || in_warning_band rules channel already_firing)))

judge_rate-raises :
    (previous : AlertMap) (rules : Rules) (name : String) (channel : ChannelSnapshot)
    (current : AlertMap) (key : String)
    → is_firing key (judge_rate previous rules name channel current) ≡ (
        is_firing key current
        || str_eq (rate_key name) key
          && (has_traffic rules channel
              && (is_severe rules channel
                  || in_warning_band rules channel (is_firing key previous))))
unfolding judge_rate
judge_rate-raises previous rules name channel current key = ground (
  arith,
  is_firing-add_alert key true (critical_rate_alert rules name channel) current,
  is_firing-add_alert key (in_warning_band rules channel (is_firing (rate_key name) previous))
      (warning_rate_alert rules name channel) current,
  eq_iff (rate_key name) key,
)

judge_rate-IsKeyed :
    (previous : AlertMap) (rules : Rules) (name : String) (channel : ChannelSnapshot)
    (current : AlertMap)
    → IsKeyed current
    → IsKeyed (judge_rate previous rules name channel current)
unfolding judge_rate
judge_rate-IsKeyed previous rules name channel current h =
    branch-IsKeyed (not (has_traffic rules channel)) _ _ h (
      branch-IsKeyed (is_severe rules channel) _ _
        (add_alert-IsKeyed true (critical_rate_alert rules name channel) current h)
        (add_alert-IsKeyed (in_warning_band rules channel (is_firing (rate_key name) previous))
          (warning_rate_alert rules name channel) current h))

judge_channel-raises :
    (previous : AlertMap) (rules : Rules) (channel : ChannelSnapshot) (current : AlertMap)
    (key : String)
    → is_firing key (judge_channel previous rules channel current)
      ≡ (is_firing key current || raises rules key (is_firing key previous) channel)
unfolding judge_channel raises
judge_channel-raises previous rules channel current key =
    let name = trim_space channel.channel in
    let refused = ltb_ℤ (pos 0) channel.accounts_needing_login in
    let with_credential = add_alert refused (credential_alert name channel) current in
    let with_pool =
      add_alert (pool_is_empty rules channel) (pool_alert name channel) with_credential in
    ground (
      arith,
      is_firing-add_alert key refused (credential_alert name channel) current,
      is_firing-add_alert key (pool_is_empty rules channel) (pool_alert name channel)
          with_credential,
      judge_rate-raises previous rules name channel with_pool key,
    )

judge_channel-IsKeyed :
    (previous : AlertMap) (rules : Rules) (channel : ChannelSnapshot) (current : AlertMap)
    → IsKeyed current
    → IsKeyed (judge_channel previous rules channel current)
unfolding judge_channel
judge_channel-IsKeyed previous rules channel current h =
    let name = trim_space channel.channel in
    branch-IsKeyed (is_empty name || not (is_alertable_channel name)) _ _ h (
      judge_rate-IsKeyed previous rules name channel _ (
        add_alert-IsKeyed (pool_is_empty rules channel) (pool_alert name channel) _ (
          add_alert-IsKeyed (ltb_ℤ (pos 0) channel.accounts_needing_login)
            (credential_alert name channel) current h)))

pub conditions-raises :
    (previous : AlertMap) (rules : Rules) (channels : List ChannelSnapshot) (current : AlertMap)
    (key : String)
    → is_firing key (conditions previous rules channels current)
      ≡ (is_firing key current || any (raises rules key (is_firing key previous)) channels)
unfolding conditions
conditions-raises previous rules [] current key = ground arith
conditions-raises previous rules (channel ∷ channels) current key = ground (
  arith,
  conditions-raises previous rules channels (judge_channel previous rules channel current) key,
  judge_channel-raises previous rules channel current key,
)

pub conditions-IsKeyed :
    (previous : AlertMap) (rules : Rules) (channels : List ChannelSnapshot) (current : AlertMap)
    → IsKeyed current
    → IsKeyed (conditions previous rules channels current)
unfolding conditions
conditions-IsKeyed previous rules [] current h = h
conditions-IsKeyed previous rules (channel ∷ channels) current h =
    conditions-IsKeyed previous rules channels _
      (judge_channel-IsKeyed previous rules channel current h)
