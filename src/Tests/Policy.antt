-- ===== src/Tests/Policy.antt =====
-- The theorems on the account policy, and on the pool's agreement with it, on some accounts.
use orchids_2api.Prelude.{
  ℕ, zero, suc, ◌+◌, ◌-◌, ◌*◌, ◌/◌, ◌%◌, ◌^◌, ◌≤◌, ◌<◌, min, max, String, ◌≡◌, refl, sym, ap, ◌∙◌,
  subst, ◌≢◌, ◌↔◌, ◌⊎◌, inl, inr, Bool, true, false, not, ◌&&◌, ◌||◌, Option, none, some, List, [],
  ◌∷◌, ◌++◌, map, arith, ltb, leb, ◌==◌, str_eq, if◌then◌else◌, Bool-cases, Option-cases, length,
  any, All,
}
use orchids_2api.Prelude.Int.{pos, negsuc}
use orchids_2api.Prelude.Text.{is_empty, trim_space, to_lower, contains, equal_fold, has_prefix}
use orchids_2api.Prelude.Time.{second, hour}
use orchids_2api.Prelude.Assoc.{string_eq, nat_eq}
use orchids_2api.Account.{Account, account_auth_active}
use orchids_2api.Errors.Classify.{classify_upstream_error}
use orchids_2api.Policy.Verdict.{success, apply}
use orchids_2api.Policy.Hold.{
  account_held, needs_reverify, rate_limit_cooldown, cooldown_rate_limit_base,
  cooldown_rate_limit_max,
}
use orchids_2api.Policy.Classify.{classify}
use orchids_2api.Policy.Backoff.{backoff-power}
use orchids_2api.Policy.Release.{throttle_window, apply_login_and_success}
use orchids_2api.Policy.Scopes.{IsCoherent, classify-IsCoherent, shared_pool_disagreement}
use orchids_2api.Balancer.Available.{status_action, clear, clear_if}
use orchids_2api.Balancer.Agree.{pool_agrees_with_policy, payment_release_differs}
use orchids_2api.Tests.Samples.{
  noon, grok_account, throttled_account, error_of, throttle_verdict, login_verdict,
}

backoff-power_example :
    (rate_limit_cooldown (pos 4) ≡ min (cooldown_rate_limit_base * 2 ^ 3) cooldown_rate_limit_max)
    × (rate_limit_cooldown (negsuc 3) ≡ cooldown_rate_limit_base)
    × (rate_limit_cooldown (pos 0) ≡ cooldown_rate_limit_base)
backoff-power_example = backoff-power 3

throttle_window_example :
    (noon + second < noon + cooldown_rate_limit_base
      → account_held (apply noon throttle_verdict grok_account) (noon + second) ≡ true)
    × (noon + cooldown_rate_limit_max ≤ noon + second
        → account_held (apply noon throttle_verdict grok_account) (noon + second) ≡ false)
unfolding trim_space account_auth_active equal_fold orchids_2api.Policy.Hold.has_explicit_window
    contains to_lower
throttle_window_example =
    throttle_window noon (noon + second) throttle_verdict grok_account refl refl refl refl refl

apply_login_and_success_example :
    (login_verdict.needs_login ≡ true
      → account_held (apply noon login_verdict grok_account) (noon + hour) ≡ true)
    × (account_held (apply noon (success noon) grok_account) (noon + hour) ≡ false)
apply_login_and_success_example =
    apply_login_and_success noon (noon + hour) login_verdict grok_account

classify-IsCoherent_example :
    IsCoherent
      (classify noon (some grok_account) (some (error_of "status=429 too many requests")) "grok-4")
classify-IsCoherent_example =
    classify-IsCoherent noon (some grok_account) (some (error_of "status=429 too many requests"))
      "grok-4"

shared_pool_disagreement_example :
    let text : String = "all available upstream accounts are rate limited" in
    ((classify noon (some grok_account) (some (error_of text)) "grok-4").retryable ≡ true)
    × ((classify noon (some grok_account) (some (error_of text)) "grok-4").switch_account ≡ false)
    × ((classify_upstream_error text).retryable ≡ false)
unfolding trim_space equal_fold orchids_2api.Policy.Classify.account_type_of
    orchids_2api.Errors.Classify.classify_shared_refusal orchids_2api.Errors.Classify.classify_lower
    orchids_2api.Errors.Markers.is_upstream_queue_gate orchids_2api.Errors.Markers.contains_any
    orchids_2api.Errors.Markers.flag_value contains orchids_2api.Errors.Markers.upstream_marker_text
    to_lower orchids_2api.Prelude.Text.remove_char
    orchids_2api.Errors.Markers.is_upstream_service_unavailable
    orchids_2api.Errors.Markers.is_shared_upstream_queue_refusal
shared_pool_disagreement_example =
    shared_pool_disagreement noon (some grok_account)
      (error_of "all available upstream accounts are rate limited") "grok-4" refl refl refl refl
      refl refl

pool_agrees_with_policy_example :
    status_action throttled_account (noon + hour)
    ≡ clear_if (not (account_held throttled_account (noon + hour)))
unfolding trim_space account_auth_active equal_fold
pool_agrees_with_policy_example =
    pool_agrees_with_policy throttled_account (noon + hour) (inr (inr refl)) refl refl refl

-- An account whose plan ran out, and whose recorded reset comes an hour after the attempt.
abbrev unpaid_account : Account
unpaid_account = record grok_account {
  status_code = "402";
  last_attempt = noon;
  quota_reset_at = noon + hour;
}

payment_release_differs_example :
    (status_action unpaid_account (noon + 2 * hour) ≡ clear)
    × (account_held unpaid_account (noon + 2 * hour) ≡ true)
unfolding trim_space account_auth_active equal_fold
    orchids_2api.Balancer.Available.is_paid_grok_build_account to_lower
payment_release_differs_example =
    payment_release_differs unpaid_account (noon + 2 * hour) refl refl refl refl refl refl
      (omega arith) (omega arith)
