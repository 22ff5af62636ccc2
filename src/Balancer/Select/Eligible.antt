-- ===== src/Balancer/Select/Eligible.antt =====
-- Every account that passes the scan may be handed out (internal/loadbalancer/loadbalancer.go).
use orchids_2api.Prelude.{
  ℕ, ◌+◌, String, ◌≡◌, refl, sym, ◌∙◌, subst, inl, inr, Bool, true, false, List, [], ◌∷◌, arith,
  ltb, str_eq, Bool-cases, Option-cases, length, All,
}
use orchids_2api.Prelude.Text.{trim_space}
use orchids_2api.Prelude.Time.{Time}
use orchids_2api.Prelude.Assoc.{string_eq, nat_eq}
use orchids_2api.Account.{Account, account_auth_active}
use orchids_2api.Balancer.State.{Balancer, Ref, is_nil, rotate_scan_cursor}
use orchids_2api.Balancer.Available.{is_account_available}
use orchids_2api.Balancer.Choose.{cyclic, account_scan_window}
use orchids_2api.Balancer.Choose.Least.{All-append}
use orchids_2api.Balancer.Select.{
  Reject, model_throttled, model_unavailable, not_eligible, AccountFilter, Counts, no_counts,
  withhold, note_available, is_skipped, check_available, scan_one, scan_from, scan, scan_pool,
}
use orchids_2api.Balancer.Select.Kin.{
  IsKin, IsKin-refl, HeapsKin, HeapsKin-trans, available-HeapsKin,
}

is_skipped-IsKin :
    (exclude : List ℕ) (channel : String) (a b : Account)
    → IsKin a b
    → is_skipped exclude channel a ≡ is_skipped exclude channel b
unfolding is_skipped
is_skipped-IsKin exclude channel a b k = rw (k.id, k.account_type, k.agent_mode, is_skipped) refl

auth_active-IsKin : (a b : Account) → IsKin a b → account_auth_active a ≡ account_auth_active b
unfolding account_auth_active
auth_active-IsKin a b k = rw (k.auth_status, account_auth_active) refl

withhold-passed : (c : Counts) (reason : Reject) → (withhold c reason).passed ≡ c.passed
unfolding withhold
withhold-passed c model_unavailable = refl
withhold-passed c model_throttled = refl
withhold-passed c not_eligible = refl

-- An account that is not excluded, is of the channel, and has active credentials.
pub record IsEligible (exclude : List ℕ) (channel : String) (acc : Account) : Type 0 where
  pub wanted : is_skipped exclude channel acc ≡ false
  pub active : account_auth_active acc ≡ true

module _ (now : Time) (exclude : List ℕ) (channel : String) (filter : AccountFilter)
    (heap : Ref → Account) where
  -- What holds between two rounds of the scan.
  record Scanned (s : Balancer) (c : Counts) : Type 0 where
    kin : HeapsKin heap s.heap
    passed : All (λ r. IsEligible exclude channel (heap r)) c.passed

  note-passed :
      (c : Counts) (r : Ref) (status : String) (ok : Bool)
      → (ok ≡ true → IsEligible exclude channel (heap r))
      → All (λ q. IsEligible exclude channel (heap q)) c.passed
      → All (λ q. IsEligible exclude channel (heap q)) (note_available c r status ok).passed
  unfolding note_available
  note-passed c r status true e h = All-append _ c.passed r h (e refl)
  note-passed c r status false e h = elim (Bool-cases (str_eq status "429")) [
    | inl limited ↦ rw (limited, note_available) h
    | inr other ↦ elim (Bool-cases (str_eq status "402")) [
      | inl parked ↦ rw (other, parked, note_available) h
      | inr rest ↦ rw (other, rest, note_available) h
    ]
  ]

  check-Scanned :
      (s : Balancer) (c : Counts) (r : Ref)
      → Scanned s c
      → is_skipped exclude channel (s.heap r) ≡ false
      → Scanned
          (check_available now exclude channel filter s c r).0
          (check_available now exclude channel filter s c r).1
  unfolding check_available
  check-Scanned s c r v wanted =
      let (kept, admits) = available-HeapsKin s r now in
      record {
        kin = HeapsKin-trans heap s.heap (is_account_available s r now).0.heap v.kin kept;
        passed =
            note-passed (record c { matched = c.matched + 1 }) r
              (trim_space ((is_account_available s r now).0.heap r).status_code) _
              (λ ok. record {
                wanted =
                    sym (is_skipped-IsKin exclude channel (s.heap r) (heap r) (v.kin r)) ∙ wanted;
                active = sym (auth_active-IsKin (s.heap r) (heap r) (v.kin r)) ∙ admits ok;
              })
              v.passed;
      }

  scan_one-Scanned :
      (s : Balancer) (c : Counts) (r : Ref)
      → Scanned s c
      → Scanned
          (scan_one now exclude channel filter s c r).0
          (scan_one now exclude channel filter s c r).1
  unfolding scan_one
  scan_one-Scanned s c r v = elim (Bool-cases (is_skipped exclude channel (s.heap r))) [
    | inl skipped ↦ rw (skipped, scan_one) v
    | inr wanted ↦ elim (Option-cases (filter (s.heap r))) [
      | inl accepted ↦
          rw (wanted, accepted, scan_one)
            (check-Scanned s (record c { candidates = c.candidates + 1 }) r
              (record { kin = v.kin; passed = v.passed }) wanted)
      | inr (reason, refused) ↦
          rw (wanted, refused, scan_one)
            (record {
              kin = v.kin;
              passed =
                  rw (withhold-passed (record c { candidates = c.candidates + 1 }) reason) v.passed;
            })
    ]
  ]

  scan_from-Scanned :
      (rs : List Ref) (s : Balancer) (c : Counts)
      → Scanned s c
      → Scanned
          (scan_from now exclude channel filter s c rs).0
          (scan_from now exclude channel filter s c rs).1
  unfolding scan_from
  scan_from-Scanned [] s c v = v
  scan_from-Scanned (r ∷ rs) s c v =
      scan_from-Scanned rs (scan_one now exclude channel filter s c r).0
        (scan_one now exclude channel filter s c r).1 (scan_one-Scanned s c r v)

  scan-Scanned :
      (s : Balancer) (rs : List Ref)
      → HeapsKin heap s.heap
      → Scanned (scan now exclude channel filter s rs).0 (scan now exclude channel filter s rs).1
  unfolding scan
  scan-Scanned s rs k = scan_from-Scanned rs s no_counts (record { kin = k; passed = tt })

pub rotate-heap : (s : Balancer) (size : ℕ) → (rotate_scan_cursor s size).0.heap ≡ s.heap
unfolding rotate_scan_cursor
rotate-heap s size = ground arith

-- The scan of a pool of any size leaves every account as it was but for its runtime status, and passes only accounts
-- that are not excluded, are of the channel and have active credentials.
pub scan_pool-IsEligible :
    (now : Time) (exclude : List ℕ) (channel : String) (filter : AccountFilter)
    → (s : Balancer) (accounts : List Ref)
    → let scanned = scan_pool now exclude channel filter s accounts in
      HeapsKin s.heap scanned.0.heap
      × All (λ r. IsEligible exclude channel (s.heap r)) scanned.1.passed
unfolding scan_pool
scan_pool-IsEligible now exclude channel filter s accounts =
    let (s', start) = rotate_scan_cursor s (length accounts) in
    let kin : HeapsKin s.heap s'.heap = λ q.
      subst (λ h. IsKin (h q) (s.heap q)) (sym (rotate-heap s (length accounts)))
        (IsKin-refl (s.heap q)) in
    let window =
      scan-Scanned now exclude channel filter s.heap s' (cyclic accounts start account_scan_window)
        kin in
    let whole =
      scan-Scanned now exclude channel filter s.heap
        (scan now exclude channel filter s' (cyclic accounts start account_scan_window)).0 accounts
        window.kin in
    let small =
      scan-Scanned now exclude channel filter s.heap s accounts (λ q. IsKin-refl (s.heap q)) in
    elim (Bool-cases (ltb account_scan_window (length accounts))) [
      | inr few ↦ rw (few, scan_pool) (small.kin, small.passed)
      | inl many ↦
          elim (Bool-cases (
            is_nil
              (scan now exclude channel filter s'
                (cyclic accounts start account_scan_window)).1.passed)) [
                  | inl nobody ↦ rw (many, nobody, scan_pool) (whole.kin, whole.passed)
                  | inr somebody ↦ rw (many, somebody, scan_pool) (window.kin, window.passed)
                ]
    ]
