-- ===== src/Balancer/Mark.antt =====
-- internal/loadbalancer/loadbalancer.go: MarkAccountStatus and PersistAppliedAccountStatus, of an
-- account that is there. The write of the store is recorded as in clear_account_status.
pub mod Visible
use orchids_2api.Prelude.{
  ◌+◌, String, ◌||◌, not, Option, none, some, [], ◌∷◌, ◌++◌, str_eq, if◌then◌else◌,
}
use orchids_2api.Prelude.Int.{ℤ, pos}
use orchids_2api.Prelude.Int64.{add_int64}
use orchids_2api.Prelude.Text.{is_empty}
use orchids_2api.Prelude.Time.{Time, is_zero, before}
use orchids_2api.Account.{Account, account_auth_status_reauth_required}
use orchids_2api.Policy.Hold.{rate_limit_cooldown}
use orchids_2api.Balancer.State.{Balancer, Ref, store_at, cached_account_locked}

-- MarkAccountStatus, the reset of a throttled account
unfoldable pub mark_reset : Time → ℤ → Time → Time
unfolding rate_limit_cooldown
mark_reset now failures reset =
    let until = now + rate_limit_cooldown failures in
    if is_zero reset || before reset until then until else reset

-- MarkAccountStatus, the writes to the account in hand
unfoldable pub mark_row : Time → String → Account → Account
unfolding mark_reset
mark_row now status acc =
    let is_throttle = str_eq status "429" in
    let failures = if is_throttle then add_int64 acc.rate_limit_failures (pos 1) else pos 0 in
    record acc {
      status_code = status;
      last_attempt = now;
      rate_limit_failures = failures;
      auth_status =
          if str_eq status "401" then account_auth_status_reauth_required else acc.auth_status;
      quota_reset_at =
          if is_throttle then mark_reset now failures acc.quota_reset_at else acc.quota_reset_at;
    }

-- MarkAccountStatus, the writes to the cached object
unfoldable pub copy_mark : Account → Account → Account
copy_mark acc cached = record cached {
  status_code = acc.status_code;
  last_attempt = acc.last_attempt;
  auth_status = acc.auth_status;
  rate_limit_failures = acc.rate_limit_failures;
  quota_reset_at = acc.quota_reset_at;
}

-- PersistAppliedAccountStatus, the writes to the cached object
unfoldable pub copy_applied : Account → Account → Account
copy_applied acc cached = record cached {
  status_code = acc.status_code;
  status_message = acc.status_message;
  last_attempt = acc.last_attempt;
  auth_status = acc.auth_status;
  rate_limit_failures = acc.rate_limit_failures;
  quota_reset_at = acc.quota_reset_at;
  verified_at = acc.verified_at;
}

-- A write to the cached object, if there is one.
unfoldable pub write_cached :
    (Account → Account → Account) → Account → (Ref → Account) → Option Ref → Ref → Account
unfolding store_at
write_cached copy acc heap none = heap
write_cached copy acc heap (some q) = store_at heap q (copy acc (heap q))

-- The update of the cached object and of the store that both functions end with.
unfoldable pub publish_status : (Account → Account → Account) → Balancer → Ref → Balancer
unfolding write_cached cached_account_locked
publish_status copy s r =
    let acc = s.heap r in
    let heap =
      write_cached copy acc s.heap (cached_account_locked s.heap s.cached_accounts acc.id) in
    record s { heap = heap; updates = s.updates ++ heap r ∷ [] }

-- PersistAppliedAccountStatus
unfoldable pub persist_applied_account_status : Balancer → Ref → Balancer
unfolding publish_status copy_applied
persist_applied_account_status s r = publish_status copy_applied s r

-- MarkAccountStatus
unfoldable pub mark_account_status : Time → String → Balancer → Ref → Balancer
unfolding publish_status copy_mark mark_row store_at
mark_account_status now status s r =
    if is_empty status
    then s
    else publish_status copy_mark
        (record s { heap = store_at s.heap r (mark_row now status (s.heap r)) }) r
