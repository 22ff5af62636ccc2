-- ===== src/Balancer/Select/Picked.antt =====
-- What the selection as a whole hands out (internal/loadbalancer/loadbalancer.go,
-- selectAccountWithTracker and GetNextAccountExcludingByChannelWithTrackerFilter).
use orchids_2api.Prelude.{
  ℕ, zero, suc, ◌+◌, ◌-◌, ◌/◌, ◌%◌, min, String, ◌≡◌, refl, sym, ap, ◌∙◌, subst, ◌≢◌, inl, inr,
  true, false, Option, none, some, List, ltb, leb, Bool-cases, Option-cases, get_elem?, length, All,
}
use orchids_2api.Prelude.Time.{Time}
use orchids_2api.Prelude.Assoc.{string_eq, nat_eq}
use orchids_2api.Account.{Account}
use orchids_2api.Balancer.State.{Balancer, Ref, is_nil, rotate_scan_cursor}
use orchids_2api.Balancer.Choose.{
  cyclic, account_scan_window, is_full, select_window, select_windows, select_account_with_tracker,
}
use orchids_2api.Balancer.Choose.Result.{
  select_window-IsBestChoice, All-Exists, All-get_elem, select_window-heap,
}
use orchids_2api.Balancer.Select.{
  AccountFilter, Selected, account, error, SelectError, at_concurrency_limit, empty_pool_error,
  store_failed, Loaded, get_enabled_accounts, channel_accounts, get_next_account, choose,
  select_among, scan_pool,
}
use orchids_2api.Balancer.Select.Eligible.{IsEligible, rotate-heap, scan_pool-IsEligible}

cyclic-All :
    (P : Ref → Type 0) (accounts : List Ref) (start n : ℕ)
    → All P accounts
    → All P (cyclic accounts start n)
unfolding cyclic
cyclic-All P accounts start zero h = tt
cyclic-All P accounts start (suc n) h =
    elim (Option-cases (get_elem? accounts (start % length accounts))) [
      | inl e ↦ rw (e, cyclic) (cyclic-All P accounts (start + 1) n h)
      | inr (r, e) ↦
          rw (e, cyclic)
            (
              All-get_elem P accounts (start % length accounts) r h e,
              cyclic-All P accounts (start + 1) n h,
            )
    ]

-- What a selection may answer: nobody, or an account with the property that has room, with the accounts themselves
-- unchanged.
abbrev Fair : (ℕ → ℕ) → (Ref → Type 0) → (Ref → Account) → Balancer × Option Ref → Type 0
Fair conns P heap (s', none) = s'.heap ≡ heap
Fair conns P heap (s', some r) = (s'.heap ≡ heap) × P r × (is_full heap conns r ≡ false)

module _ (conns : ℕ → ℕ) (int_n : ℕ → ℕ) (now : Time) (P : Ref → Type 0) where
  result-Fair :
      (s : Balancer) (accounts : List Ref) (w : Balancer × Option Ref)
      → All P accounts
      → select_window conns int_n now s accounts ≡ w
      → Fair conns P s.heap w
  result-Fair s accounts (s', none) h e =
      sym (ap (λ w. w.0.heap) e) ∙ select_window-heap conns int_n now s accounts
  result-Fair s accounts (s', some r) h e =
      let best = (select_window-IsBestChoice conns int_n now s s' accounts r e).0 in
      (
        sym (ap (λ w. w.0.heap) e) ∙ select_window-heap conns int_n now s accounts,
        All-Exists P accounts r h best.member,
        best.room,
      )

  window-Fair :
      (s : Balancer) (accounts : List Ref)
      → All P accounts
      → Fair conns P s.heap (select_window conns int_n now s accounts)
  window-Fair s accounts h =
      result-Fair s accounts (select_window conns int_n now s accounts) h refl

  first-Fair :
      (heap : Ref → Account) (found rest : Balancer × Option Ref)
      → Fair conns P heap found
      → (found.0.heap ≡ heap → Fair conns P heap rest)
      → Fair conns P heap (elim found.1 [ none ↦ rest | some r ↦ (found.0, some r) ])
  first-Fair heap (s', none) rest f g = g f
  first-Fair heap (s', some r) rest f g = f

  windows-Fair :
      (accounts : List Ref) (start rounds : ℕ) (s : Balancer) (offset : ℕ)
      → All P accounts
      → Fair conns P s.heap (select_windows conns int_n now accounts start rounds s offset)
  unfolding select_windows
  windows-Fair accounts start zero s offset h = refl
  windows-Fair accounts start (suc rounds) s offset h =
      let window =
        cyclic accounts (start + offset) (min account_scan_window (length accounts - offset)) in
      let found = select_window conns int_n now s window in
      let rest =
        select_windows conns int_n now accounts start rounds found.0
          (offset + account_scan_window) in
      elim (Bool-cases (leb (length accounts) offset)) [
        | inl over ↦ rw (over, select_windows) refl
        | inr more ↦
            rw (more, select_windows)
              (first-Fair s.heap found rest
                (window-Fair s window (cyclic-All P accounts (start + offset) _ h))
                (λ same.
                  subst (λ k. Fair conns P k rest) same
                    (windows-Fair accounts start rounds found.0 (offset + account_scan_window) h)))
      ]

  tracker-Fair :
      (s : Balancer) (accounts : List Ref)
      → All P accounts
      → Fair conns P s.heap (select_account_with_tracker conns int_n now s accounts)
  unfolding select_account_with_tracker
  tracker-Fair s accounts h =
      let (s', start) = rotate_scan_cursor s (length accounts) in
      elim (Bool-cases (is_nil accounts)) [
        | inl empty ↦ rw (empty, select_account_with_tracker) refl
        | inr some_left ↦ elim (Bool-cases (ltb account_scan_window (length accounts))) [
          | inr few ↦ rw (some_left, few, select_account_with_tracker) (window-Fair s accounts h)
          | inl many ↦
              rw (some_left, many, select_account_with_tracker)
                (subst
                  (λ k.
                    Fair conns P k (
                      select_windows conns int_n now accounts start (length accounts / 64 + 1) s'
                        0))
                  (rotate-heap s (length accounts))
                  (windows-Fair accounts start (length accounts / 64 + 1) s' 0 h))
        ]
      ]

account-inj : (q r : Ref) → account q ≡ account r → q ≡ r
account-inj q r e = cc e

-- What the selection answers for a pick.
abbrev outcome : Balancer × Option Ref → Balancer × Selected
outcome w = (w.0, elim w.1 [ none ↦ error at_concurrency_limit | some q ↦ account q ])

error_or_account : (x : SelectError) (r : Ref) → error x ≢ account r
error_or_account x r e = cc e

picked-account :
    (conns : ℕ → ℕ) (P : Ref → Type 0) (heap : Ref → Account) (w : Balancer × Option Ref)
    → (s' : Balancer) (r : Ref) → Fair conns P heap w
    → outcome w ≡ (s', account r)
    → P r × (is_full s'.heap conns r ≡ false)
picked-account conns P heap (t, none) s' r f e =
    absurd (error_or_account at_concurrency_limit r (ap (λ w. w.1) e))
picked-account conns P heap (t, some q) s' r f e =
    let same : q ≡ r = account-inj q r (ap (λ w. w.1) e) in
    let heaps : heap ≡ s'.heap = sym f.0 ∙ ap (λ w. w.0.heap) e in
    (
      subst P same f.1,
      subst (λ k. is_full s'.heap conns k ≡ false) same
          (subst (λ h. is_full h conns q ≡ false) heaps f.2),
    )

module _ (now : Time) (exclude : List ℕ) (channel : String) (filter : AccountFilter)
    (conns int_n : ℕ → ℕ) where
  choose-account :
      (P : Ref → Type 0) (s s' : Balancer) (passed : List Ref) (r : Ref)
      → All P passed
      → choose now exclude channel filter conns int_n s passed ≡ (s', account r)
      → P r × (is_full s'.heap conns r ≡ false)
  unfolding choose
  choose-account P s s' passed r h e =
      picked-account conns P s.heap (select_account_with_tracker conns int_n now s passed) s' r
        (tracker-Fair conns int_n now P s passed h) e

  nobody_passed :
      (s : Balancer) (accounts : List Ref)
      → let scanned = scan_pool now exclude channel filter s accounts in
        is_nil scanned.1.passed ≡ true
        → select_among now exclude channel filter conns int_n s accounts
          ≡ (scanned.0, error (empty_pool_error channel scanned.1))
  unfolding select_among
  nobody_passed s accounts nobody = rw (nobody, select_among) refl

  somebody_passed :
      (s : Balancer) (accounts : List Ref)
      → let scanned = scan_pool now exclude channel filter s accounts in
        is_nil scanned.1.passed ≡ false
        → select_among now exclude channel filter conns int_n s accounts
          ≡ choose now exclude channel filter conns int_n scanned.0 scanned.1.passed
  unfolding select_among
  somebody_passed s accounts somebody = rw (somebody, select_among) refl

  select_among-account :
      (s s' : Balancer) (accounts : List Ref) (r : Ref)
      → select_among now exclude channel filter conns int_n s accounts ≡ (s', account r)
      → IsEligible exclude channel (s.heap r) × (is_full s'.heap conns r ≡ false)
  select_among-account s s' accounts r e =
      let (t, c) = scan_pool now exclude channel filter s accounts in
      let (kin, eligible) = scan_pool-IsEligible now exclude channel filter s accounts in
      elim (Bool-cases (is_nil c.passed)) [
        | inl nobody ↦ absurd (
            error_or_account (empty_pool_error channel c) r
              (ap (λ w. w.1) (sym (nobody_passed s accounts nobody) ∙ e)))
        | inr somebody ↦
            choose-account (λ q. IsEligible exclude channel (s.heap q)) t s' c.passed r eligible
              (sym (somebody_passed s accounts somebody) ∙ e)
      ]

  -- What the selection does with the accounts that the cache or the store gives.
  abbrev with_accounts : Balancer → Option (List Ref) → Balancer × Selected
  with_accounts t none = (t, error store_failed)
  with_accounts t (some refs) =
      select_among now exclude channel filter conns int_n t (channel_accounts t channel refs)

  with_accounts-account :
      (t s' : Balancer) (accounts : Option (List Ref)) (r : Ref)
      → with_accounts t accounts ≡ (s', account r)
      → IsEligible exclude channel (t.heap r) × (is_full s'.heap conns r ≡ false)
  with_accounts-account t s' none r e = absurd (error_or_account store_failed r (ap (λ w. w.1) e))
  with_accounts-account t s' (some refs) r e =
      select_among-account t s' (channel_accounts t channel refs) r e

  -- Whatever the pool and the loaded rows, an account that a request is given is not excluded, is of
  -- the channel if the request names one, has active credentials, and is below its concurrency limit.
  pub get_next_account-IsEligible :
      (cache_ttl : ℕ) (next : Ref) (loaded : Loaded) (s s' : Balancer) (r : Ref)
      → get_next_account now exclude channel filter conns int_n cache_ttl next loaded s
        ≡ (s', account r)
      → IsEligible exclude channel ((get_enabled_accounts now cache_ttl next loaded s).0.heap r)
        × (is_full s'.heap conns r ≡ false)
  unfolding get_next_account
  get_next_account-IsEligible cache_ttl next loaded s s' r e =
      let (t, accounts) = get_enabled_accounts now cache_ttl next loaded s in
      with_accounts-account t s' accounts r e
