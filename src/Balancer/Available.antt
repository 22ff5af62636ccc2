-- ===== src/Balancer/Available.antt =====
-- internal/loadbalancer/loadbalancer.go: isAccountAvailable. The switch on the status decides, and
-- what it decides is then carried out, since each case that clears the status also admits.
use orchids_2api.Prelude.{ℕ, Bool, true, false, not, ◌&&◌, ◌||◌, [], ◌∷◌, str_eq, if◌then◌else◌}
use orchids_2api.Prelude.Int.{pos, ltb_ℤ, leb_ℤ}
use orchids_2api.Prelude.Text.{is_empty, trim_space, to_lower, equal_fold}
use orchids_2api.Prelude.Time.{Time, is_zero, before, sub}
use orchids_2api.Prelude.Assoc.{string_eq, nat_eq}
use orchids_2api.Account.{
  Account, account_auth_active, is_exhausted, period_end, account_status_qoder_quota_exhausted,
  account_status_work_buddy_quota_exhausted,
}
use orchids_2api.Policy.Hold.{
  account_held, cooldown_auth, cooldown_payment, cooldown_blocked, cooldown_blocked_gro,
}
use orchids_2api.Errors.Markers.{contains_any}
use orchids_2api.Balancer.State.{Balancer, Ref, clear_account_status, claim_grok_paid_quota_probe}

-- isPaidGrokBuildAccount
unfoldable pub is_paid_grok_build_account : Account → Bool
is_paid_grok_build_account acc =
    let provider = to_lower (trim_space acc.grok_provider) in
    let credential = to_lower (trim_space acc.credential_type) in
    let plan = to_lower (trim_space acc.subscription) in
    if not (equal_fold (trim_space acc.account_type) "grok")
    then false
    else if not (str_eq provider "build") && not (is_empty provider && str_eq credential "oauth")
    then false
    else contains_any plan (
        "super" ∷ "pro" ∷ "heavy" ∷ "lite" ∷ "x_basic" ∷ "xbasic" ∷ "x_premium" ∷ "xpremium"
        ∷ "paid" ∷ "team" ∷ "enterprise" ∷ [])

-- cooldownElapsed
unfoldable pub cooldown_elapsed : Time → ℕ → Time → Bool
cooldown_elapsed last_attempt cooldown now =
    if is_zero last_attempt then false else leb_ℤ (pos cooldown) (sub now last_attempt)

-- What a case of the switch does: return false, return true, or clear the status and return true.
pub data Action : Type 0 where
  refuse admit clear : Action

abbrev pub clear_if : Bool → Action
clear_if b = if b then clear else refuse

-- case AccountStatusQoderQuotaExhausted
unfoldable pub qoder_action : Account → Time → Action
qoder_action acc now =
    let reset = acc.qoder_quota.reset_at in
    if not (equal_fold (trim_space acc.account_type) "qoder")
    then refuse
    else if not acc.qoder_quota.exhausted && ltb_ℤ (pos 0) acc.qoder_quota.remaining
    then clear
    else if not (is_zero reset) && not (before now reset) && before acc.qoder_quota.synced_at reset
    then clear
    else admit

-- case "402"
unfoldable pub payment_action : Account → Time → Action
unfolding cooldown_elapsed
payment_action acc now =
    let end = period_end acc.grok_billing in
    if equal_fold (trim_space acc.account_type) "qoder"
    then admit
    else if is_paid_grok_build_account acc && not (is_zero end)
    then clear_if (not (before now end))
    else if not (is_zero acc.quota_reset_at)
    then clear_if (not (before now acc.quota_reset_at))
    else clear_if (cooldown_elapsed acc.last_attempt cooldown_payment now)

-- The switch of isAccountAvailable on the trimmed status, which is not empty.
unfoldable pub status_action : Account → Time → Action
unfolding qoder_action payment_action cooldown_elapsed
status_action acc now =
    let status = trim_space acc.status_code in
    if str_eq status account_status_qoder_quota_exhausted
    then qoder_action acc now
    else if str_eq status account_status_work_buddy_quota_exhausted
    then if not (equal_fold (trim_space acc.account_type) "workbuddy")
      then refuse
      else if ltb_ℤ (pos 0) acc.usage_current
      then clear
      else admit
    else if str_eq status "401"
    then refuse
    else if str_eq status "429"
    then if is_zero acc.last_attempt then refuse else clear_if (not (account_held acc now))
    else if str_eq status "402"
    then payment_action acc now
    else if str_eq status "403" || str_eq status "404"
    then clear_if (
        cooldown_elapsed acc.last_attempt
          (if equal_fold acc.account_type "grok" then cooldown_blocked_gro else cooldown_blocked)
          now)
    else clear_if (cooldown_elapsed acc.last_attempt cooldown_auth now)

-- The paid billing gate at the top of isAccountAvailable: the pool after it, and whether the check
-- goes on.
unfoldable pub billing_gate : Balancer → Ref → Time → Balancer × Bool
billing_gate s r now =
    let acc = s.heap r in
    let end = period_end acc.grok_billing in
    if is_paid_grok_build_account acc && is_exhausted acc.grok_billing
    then if is_zero end || before now end
      then (s, false)
      else claim_grok_paid_quota_probe s acc.id now
    else (s, true)

unfoldable pub carry_out : Balancer → Ref → Action → Balancer × Bool
carry_out s r refuse = (s, false)
carry_out s r admit = (s, true)
carry_out s r clear = (clear_account_status s r, true)

-- isAccountAvailable
unfoldable pub is_account_available : Balancer → Ref → Time → Balancer × Bool
unfolding billing_gate carry_out
is_account_available s r now =
    let acc = s.heap r in
    let (s', go_on) = billing_gate s r now in
    if not (account_auth_active acc)
    then (s, false)
    else if not go_on
    then (s', false)
    else if is_empty (trim_space acc.status_code)
    then (s', true)
    else carry_out s' r (status_action acc now)
