-- ===== src/Tests/Alerting.antt =====
-- The theorems on the alerts, on one channel whose success rate falls.
use orchids_2api.Prelude.{
  String, ◌≡◌, refl, ◌+◌, true, false, none, some, [], ◌∷◌, List, arith, any, if◌then◌else◌,
}
use orchids_2api.Prelude.Int.{pos, ltb_ℤ, leb_ℤ}
use orchids_2api.Prelude.Text.{is_empty, trim_space}
use orchids_2api.Prelude.Assoc.{lookup, insert, string_eq}
use orchids_2api.Alerting.Thresholds.{default_rules}
use orchids_2api.Alerting.{
  ChannelSnapshot, Alert, AlertMap, Engine, rate, below_warning, credential_refused, login_required,
  is_firing, conditions, floor_rules, sort_alerts, engine_evaluate, firing_of, rate_key,
  warning_rate_alert, credential_alert,
}
use orchids_2api.Alerting.Keys.{IsKeyed, insert-IsKeyed}
use orchids_2api.Alerting.Sorted.{find_alert, sort_alerts-order}
use orchids_2api.Alerting.Passes.{engine_evaluate-firing, engine_evaluate-again}
use mathlib.Core.List.Permᴰ as PermD

abbrev grok_channel : ChannelSnapshot
grok_channel = record {
  channel = "grok ";
  requests = pos 100;
  success = pos 91;
  failed = pos 9;
  samples = pos 100;
  success_rate = pos 910000;
  accounts_enabled = pos 4;
  accounts_available = pos 3;
  accounts_needing_login = pos 1;
  model_cooldowns = pos 0;
}

-- The rate alert that fires before the pass; its rate is within the margin that holds it.
abbrev rate_alert : Alert
rate_alert =
    warning_rate_alert default_rules "grok" (record grok_channel { success_rate = pos 850000 })

abbrev login_alert : Alert
login_alert = credential_alert "grok" grok_channel

abbrev engine : Engine
engine = record {
  rules = default_rules;
  firing = (rate_key "grok", rate_alert) ∷ [];
  records = true;
}

engine-IsKeyed : IsKeyed engine.firing
unfolding insert lookup
engine-IsKeyed = insert-IsKeyed rate_alert [] (tt, λ key alert found. ground (arith, found))

engine_evaluate-firing_example :
    (is_firing "success-rate:grok" (firing_of (engine_evaluate (grok_channel ∷ []) (some engine)).0)
      ≡ true)
    × (lookup "success-rate:grok" (firing_of (engine_evaluate (grok_channel ∷ []) (some engine)).0)
        ≡ some rate_alert)
unfolding orchids_2api.Alerting.Keys.raises trim_space orchids_2api.Alerting.is_alertable_channel
    orchids_2api.Prelude.Text.to_lower orchids_2api.Alerting.has_traffic floor_rules
    orchids_2api.Alerting.is_severe orchids_2api.Alerting.in_warning_band lookup
    orchids_2api.Prelude.Int.◌+ℤ◌
engine_evaluate-firing_example =
    (engine_evaluate-firing engine (grok_channel ∷ []) engine-IsKeyed).1 "success-rate:grok"

engine_evaluate-again_example :
    ((engine_evaluate (grok_channel ∷ []) (engine_evaluate (grok_channel ∷ []) (some engine)).0).1
      ≡ record { firing = []; recovered = [] })
    × ((engine_evaluate (grok_channel ∷ []) (engine_evaluate (grok_channel ∷ []) (some engine)).0).2
        ≡ [])
engine_evaluate-again_example = engine_evaluate-again engine (grok_channel ∷ []) engine-IsKeyed

sort_alerts-order_example :
    sort_alerts (rate_alert ∷ login_alert ∷ []) ≡ sort_alerts (login_alert ∷ rate_alert ∷ [])
unfolding find_alert
sort_alerts-order_example = sort_alerts-order (PermD.swap refl refl) (refl, (refl, tt))

-- The alert that needs a login is the graver one.
sorted_test : sort_alerts (rate_alert ∷ login_alert ∷ []) ≡ login_alert ∷ rate_alert ∷ []
unfolding sort_alerts
sorted_test = refl
