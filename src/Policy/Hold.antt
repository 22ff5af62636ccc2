-- ===== src/Policy/Hold.antt =====
-- internal/accountpolicy/policy.go: the windows for which a status withholds an account.
use orchids_2api.Prelude.{
  ℕ, zero, suc, ◌+◌, ◌-◌, ◌*◌, Bool, true, false, not, ◌&&◌, ◌||◌, ltb, str_eq, if◌then◌else◌,
}
use orchids_2api.Prelude.Int.{ℤ, pos, ltb_ℤ, leb_ℤ, pos_part}
use orchids_2api.Prelude.Text.{is_empty, trim_space, to_lower, contains, equal_fold, has_prefix}
use orchids_2api.Prelude.Time.{Time, Duration, is_zero, after, before, sub, second, minute, hour}
use orchids_2api.Prelude.Assoc.{string_eq, nat_eq}
use orchids_2api.Account.{
  Account, account_auth_active, account_status_qoder_quota_exhausted,
  account_status_work_buddy_quota_exhausted,
}

abbrev pub cooldown_auth : ℕ
cooldown_auth = 5 * minute

abbrev pub cooldown_rate_limit_base : ℕ
cooldown_rate_limit_base = 30 * second

abbrev pub cooldown_rate_limit_max : ℕ
cooldown_rate_limit_max = 30 * minute

abbrev pub cooldown_payment : ℕ
cooldown_payment = 24 * hour

abbrev pub cooldown_blocked : ℕ
cooldown_blocked = 24 * hour

abbrev pub cooldown_blocked_gro : ℕ
cooldown_blocked_gro = 10 * minute

abbrev pub cooldown_transient : ℕ
cooldown_transient = 5 * minute

abbrev pub credential_reverify : ℕ
credential_reverify = 30 * minute

-- isGrok, of an account that is there.
unfoldable pub is_grok : Account → Bool
is_grok acc = equal_fold (trim_space acc.account_type) "grok"

-- The loop of RateLimitCooldown: the rounds that `i < failures` still allows, and the cooldown. It
-- stops early once the cooldown has reached the ceiling.
unfoldable pub double_until_max : ℕ → ℕ → ℕ
double_until_max zero cooldown = cooldown
double_until_max (suc rounds) cooldown = elim (ltb cooldown cooldown_rate_limit_max) [
  | true ↦ double_until_max rounds (cooldown * 2)
  | false ↦ cooldown
]

-- RateLimitCooldown
unfoldable pub rate_limit_cooldown : ℤ → ℕ
unfolding double_until_max
rate_limit_cooldown failures =
    let n = if ltb_ℤ failures (pos 1) then 1 else pos_part failures in
    let cooldown = double_until_max (n - 1) cooldown_rate_limit_base in
    if ltb cooldown_rate_limit_max cooldown then cooldown_rate_limit_max else cooldown

-- BoundRateLimitCooldown
unfoldable pub bound_rate_limit_cooldown : Duration → Duration
bound_rate_limit_cooldown retry_after =
    if leb_ℤ retry_after (pos 0)
    then retry_after
    else if ltb_ℤ (pos cooldown_rate_limit_max) retry_after
    then pos cooldown_rate_limit_max
    else retry_after

-- CooldownFor, of an account that is there.
unfoldable pub cooldown_for : Account → ℕ
cooldown_for acc =
    let status = trim_space acc.status_code in
    if str_eq status "401"
    then credential_reverify
    else if str_eq status "429"
    then rate_limit_cooldown acc.rate_limit_failures
    else if str_eq status "402"
    then cooldown_payment
    else if str_eq status "403" || str_eq status "404"
    then if is_grok acc then cooldown_blocked_gro else cooldown_blocked
    else cooldown_transient

-- The two messages whose recorded reset is an explicit account window.
unfoldable pub has_explicit_window : Account → Bool
has_explicit_window acc =
    contains (to_lower acc.status_message) "cline inference cap reached"
    || equal_fold acc.account_type "qoder"
      && contains (to_lower acc.status_message) "billing daily count exceeded"

-- The deadline that AccountHeld compares the clock with.
unfoldable pub held_until : Account → Time
unfolding cooldown_for has_explicit_window
held_until acc =
    let status = trim_space acc.status_code in
    let until = acc.last_attempt + cooldown_for acc in
    let ceiling = acc.last_attempt + cooldown_rate_limit_max in
    if after acc.quota_reset_at until
    then if str_eq status "429"
      then if has_explicit_window acc
        then acc.quota_reset_at
        else if before ceiling acc.quota_reset_at
        then ceiling
        else acc.quota_reset_at
      else if str_eq status "402" || not (has_prefix status "4")
      then acc.quota_reset_at
      else until
    else until

-- AccountHeld, of an account that is there.
unfoldable pub account_held : Account → Time → Bool
account_held acc now =
    let status = trim_space acc.status_code in
    if not (account_auth_active acc)
    then true
    else if is_empty status
        || str_eq status account_status_qoder_quota_exhausted
        || str_eq status account_status_work_buddy_quota_exhausted
    then false
    else if is_zero acc.last_attempt
    then true
    else before now (held_until acc)

-- NeedsReverify, of an account that is there.
unfoldable pub needs_reverify : Account → Time → Bool
needs_reverify acc now =
    if not (str_eq (trim_space acc.status_code) "401")
    then false
    else if is_zero acc.verified_at
    then true
    else leb_ℤ (pos credential_reverify) (sub now acc.verified_at)
