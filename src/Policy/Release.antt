-- ===== src/Policy/Release.antt =====
-- When AccountHeld releases an account (internal/accountpolicy/policy.go).
use orchids_2api.Prelude.{
  ◌+◌, ◌≤◌, ◌<◌, ◌≡◌, refl, ◌⊎◌, inl, inr, true, false, not, arith, Bool-cases,
}
use orchids_2api.Prelude.Text.{is_empty, trim_space, equal_fold}
use orchids_2api.Prelude.Time.{Time, is_zero}
use orchids_2api.Prelude.Assoc.{string_eq, nat_eq}
use orchids_2api.Account.{Account, account_auth_active}
use orchids_2api.Policy.Verdict.{Verdict, apply, success, extend_reset, increment}
use orchids_2api.Policy.Hold.{
  is_grok, cooldown_rate_limit_base, cooldown_rate_limit_max, cooldown_for, held_until,
  account_held, has_explicit_window, needs_reverify,
}
use orchids_2api.Policy.Backoff.{backoff_bounds}

-- Whatever the account, a hold that has ended does not come back by waiting.
held_mono :
    (acc : Account) (now later : Time)
    → now ≤ later
    → account_held acc now ≡ false
    → account_held acc later ≡ false
unfolding account_held
held_mono acc now later le h = ground arith

-- A throttled account with a recorded attempt is held through the first backoff step, and not beyond
-- the ceiling, wherever its recorded reset lies.
held-throttled :
    (acc : Account) (later : Time)
    → trim_space acc.status_code ≡ "429"
    → account_auth_active acc ≡ true
    → 0 < acc.last_attempt
    → has_explicit_window acc ≡ false
    → (later < acc.last_attempt + cooldown_rate_limit_base → account_held acc later ≡ true)
      × (acc.last_attempt + cooldown_rate_limit_max ≤ later → account_held acc later ≡ false)
unfolding account_held held_until cooldown_for
held-throttled acc later st auth p win =
    rw (st, account_held, held_until, cooldown_for)
      (ground (arith, backoff_bounds acc.rate_limit_failures))

apply-throttle :
    (now : Time) (v : Verdict) (acc : Account)
    → trim_space v.status ≡ "429"
    → v.needs_login ≡ false
    → is_zero v.at ≡ false
    → apply now v acc ≡ record acc {
      status_code = "429";
      status_message = trim_space v.message;
      last_attempt = v.at;
      rate_limit_failures = increment acc.rate_limit_failures;
      quota_reset_at = extend_reset v.cooldown v.at acc.quota_reset_at;
      verified_at = v.at;
    }
unfolding apply
apply-throttle now v acc st login at = rw (st, login, at, apply)

-- After a verdict of status 429 that needs no login, carries a moment, and whose trimmed message is not one
-- of the two that announce an explicit account window, an account with active credentials is held for
-- at least thirty seconds from that moment and is free thirty minutes after it, whatever reset time the
-- provider left on the row.
pub throttle_window :
    (now later : Time) (v : Verdict) (acc : Account)
    → trim_space v.status ≡ "429"
    → v.needs_login ≡ false
    → is_zero v.at ≡ false
    → account_auth_active acc ≡ true
    → has_explicit_window (record acc { status_message = trim_space v.message }) ≡ false
    → (later < v.at + cooldown_rate_limit_base → account_held (apply now v acc) later ≡ true)
      × (v.at + cooldown_rate_limit_max ≤ later → account_held (apply now v acc) later ≡ false)
unfolding has_explicit_window account_auth_active trim_space
throttle_window now later v acc st login at auth win =
    rw (apply-throttle now v acc st login at) (held-throttled _ later refl auth (ground arith) win)

apply-login :
    (now : Time) (v : Verdict) (acc : Account)
    → v.needs_login ≡ true
    → account_auth_active (apply now v acc) ≡ false
unfolding apply account_auth_active trim_space equal_fold
apply-login now v acc h = elim (Bool-cases (is_empty (trim_space v.status))) [
  | inl e ↦ rw (h, e, apply) refl
  | inr e ↦ rw (h, e, apply) refl
]

-- A verdict that needs a login withholds the account at every moment, whatever else it says, and a
-- success releases it at every moment, whatever the account was held for.
pub apply_login_and_success :
    (now later : Time) (v : Verdict) (acc : Account)
    → (v.needs_login ≡ true → account_held (apply now v acc) later ≡ true)
      × (account_held (apply now (success now) acc) later ≡ false)
apply_login_and_success now later v acc = (
  λ h. unfold account_held in rw (apply-login now v acc h) refl,
  unfold account_held apply account_auth_active trim_space equal_fold success in refl,
)

-- The window of a refused credential and of a block is neither shortened nor extended by any
-- recorded reset: only the attempt and the kind of account decide.
definitive_block_ignores_reset :
    (acc : Account) (now reset : Time)
    → (trim_space acc.status_code ≡ "401")
      ⊎ (trim_space acc.status_code ≡ "403")
      ⊎ (trim_space acc.status_code ≡ "404")
    → account_held (record acc { quota_reset_at = reset }) now ≡ account_held acc now
unfolding account_held held_until cooldown_for account_auth_active is_grok
definitive_block_ignores_reset acc now reset (inl e) =
    rw (e, account_held, held_until, cooldown_for) (ground arith)
definitive_block_ignores_reset acc now reset (inr (inl e)) =
    rw (e, account_held, held_until, cooldown_for) (ground arith)
definitive_block_ignores_reset acc now reset (inr (inr e)) =
    rw (e, account_held, held_until, cooldown_for) (ground arith)

-- The scheduler asks a refused credential again exactly when the pool stops holding it: for an
-- account whose credentials are active and whose verdict was stamped with its last attempt.
reverify_when_released :
    (acc : Account) (now : Time)
    → trim_space acc.status_code ≡ "401"
    → account_auth_active acc ≡ true
    → is_zero acc.verified_at ≡ false
    → acc.last_attempt ≡ acc.verified_at
    → needs_reverify acc now ≡ not (account_held acc now)
unfolding account_held held_until cooldown_for needs_reverify
reverify_when_released acc now e auth z same =
    rw (e, needs_reverify, account_held, held_until, cooldown_for) (ground arith)
