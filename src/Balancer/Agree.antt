-- ===== src/Balancer/Agree.antt =====
-- Where the pool and AccountHeld agree on the end of a hold, and where not
-- (internal/loadbalancer/loadbalancer.go and internal/accountpolicy/policy.go).
use orchids_2api.Prelude.{
  ℕ, ◌+◌, ◌≤◌, ◌<◌, ◌≡◌, refl, sym, ap, ◌∙◌, ◌⊎◌, inl, inr, true, false, not, some, List, [], ◌∷◌,
  arith, ◌==◌, Bool-cases,
}
use orchids_2api.Prelude.Text.{trim_space, equal_fold}
use orchids_2api.Prelude.Time.{Time, is_zero}
use orchids_2api.Prelude.Assoc.{string_eq, nat_eq}
use orchids_2api.Account.{Account, account_auth_active}
use orchids_2api.Policy.Hold.{account_held, held_until, cooldown_for, is_grok, cooldown_payment}
use orchids_2api.Balancer.State.{
  Balancer, Ref, clear_account_status, cached_account_locked, store_at, reset_account_runtime_state,
}
use orchids_2api.Balancer.Available.{
  clear, clear_if, status_action, payment_action, cooldown_elapsed, is_paid_grok_build_account,
}

-- For an account with active credentials and a recorded attempt whose type needs no trimming, the
-- pool clears a status 403, 404 or 429 exactly when AccountHeld no longer holds the account.
pub pool_agrees_with_policy :
    (acc : Account) (now : Time)
    → (trim_space acc.status_code ≡ "403")
      ⊎ (trim_space acc.status_code ≡ "404")
      ⊎ (trim_space acc.status_code ≡ "429")
    → account_auth_active acc ≡ true
    → is_zero acc.last_attempt ≡ false
    → trim_space acc.account_type ≡ acc.account_type
    → status_action acc now ≡ clear_if (not (account_held acc now))
unfolding status_action account_held held_until cooldown_for is_grok cooldown_elapsed
pool_agrees_with_policy acc now (inl e) a z t =
    rw (e, status_action, account_held, held_until, cooldown_for) (ground arith)
pool_agrees_with_policy acc now (inr (inl e)) a z t =
    rw (e, status_action, account_held, held_until, cooldown_for) (ground arith)
pool_agrees_with_policy acc now (inr (inr e)) a z t =
    rw (e, status_action, account_held) (ground arith)

-- For an account with active credentials, status 402 and a recorded attempt, that is neither a Qoder
-- nor a paid Build account: between the reset that the upstream recorded and the end of the day after
-- the attempt, the pool clears the status and AccountHeld still holds the account.
pub payment_release_differs :
    (acc : Account) (now : Time)
    → trim_space acc.status_code ≡ "402"
    → account_auth_active acc ≡ true
    → is_zero acc.last_attempt ≡ false
    → equal_fold (trim_space acc.account_type) "qoder" ≡ false
    → is_paid_grok_build_account acc ≡ false
    → is_zero acc.quota_reset_at ≡ false
    → acc.quota_reset_at ≤ now
    → now < acc.last_attempt + cooldown_payment
    → (status_action acc now ≡ clear) × (account_held acc now ≡ true)
unfolding status_action payment_action account_held held_until cooldown_for
payment_release_differs acc now e a z q g r le lt = (
  rw (e, status_action) (ground arith),
  rw (e, account_held, held_until, cooldown_for) (ground arith),
)

id-reset :
    (heap : Ref → Account) (r x : Ref)
    → (store_at heap r (reset_account_runtime_state (heap r)) x).id ≡ (heap x).id
unfolding store_at reset_account_runtime_state
id-reset heap r x = elim (Bool-cases (x == r)) [
  | inl e ↦ let same : x ≡ r = ground arith in rw (e, store_at) (ap (λ q. (heap q).id) (sym same))
  | inr e ↦ rw (e, store_at) refl
]

cached-reset :
    (heap : Ref → Account) (r : Ref) (rs : List Ref) (id : ℕ)
    → cached_account_locked (store_at heap r (reset_account_runtime_state (heap r))) rs id
      ≡ cached_account_locked heap rs id
unfolding cached_account_locked
cached-reset heap r [] id = refl
cached-reset heap r (x ∷ rs) id = ground (arith, id-reset heap r x, cached-reset heap r rs id)

-- Clearing a status resets the object in hand and the cached object of the same account, and leaves
-- every other object as it was.
clear-visible :
    (s : Balancer) (r q : Ref)
    → cached_account_locked s.heap s.cached_accounts (s.heap r).id ≡ some q
    → let heap = (clear_account_status s r).heap in
      ((heap r).status_code ≡ "")
      × ((heap q).status_code ≡ "")
      × ((p : Ref) → (p == r) ≡ false → (p == q) ≡ false → heap p ≡ s.heap p)
unfolding clear_account_status store_at reset_account_runtime_state
clear-visible s r q h =
    let found = cached-reset s.heap r s.cached_accounts (s.heap r).id ∙ h in
    rw (found, clear_account_status) (ground arith, ground arith, λ p np nq. rw (np, nq) refl)
