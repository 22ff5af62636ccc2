-- ===== src/Balancer/Choose/Windows.antt =====
-- The search of a pool of any size goes on, window by window, until somebody is found or every account was
-- looked at (selectAccountWithTracker of internal/loadbalancer/loadbalancer.go).
use orchids_2api.Prelude.{
  ℕ, zero, suc, ◌+◌, ◌*◌, ◌-◌, ◌/◌, ◌%◌, ◌≤◌, ◌<◌, min, ◌≡◌, ◌↔◌, refl, sym, ap, ◌∙◌, subst, inl,
  inr, true, Option, none, some, List, [], ◌∷◌, arith, leb, ltb, if◌then◌else◌, length, Bool-cases,
  get_elem?, All,
}
use orchids_2api.Prelude.Time.{Time}
use native.Mathlib.Nat.{mod-lt, mod-eq_of_lt, add-mod_right}
use orchids_2api.Account.{Account}
use orchids_2api.Balancer.State.{Ref, Balancer, rotate_scan_cursor}
use orchids_2api.Balancer.Choose.{
  account_scan_window, cyclic, is_full, select_window, select_windows, select_account_with_tracker,
}
use orchids_2api.Balancer.Choose.Result.{
  InRange, All-get_elem, select_window-none, select_window-heap,
}

module _ (accounts : List Ref) where
  -- What holds of every account in the next `n` places of the ring from `start`.
  Stretch : (Ref → Type 0) → ℕ → ℕ → Type 0
  Stretch P start n =
      (k : ℕ) (q : Ref) → k < n → get_elem? accounts ((start + k) % length accounts) ≡ some q → P q

  module _ (P : Ref → Type 0) where
    -- The accounts from a place on: the one that stands there, and those after it.
    first-All :
        (o : Option Ref) (rest : List Ref)
        → All P (elim o as (λ x. List Ref) [ none ↦ rest | some r ↦ r ∷ rest ])
          ↔ (((q : Ref) → o ≡ some q → P q) × All P rest)
    first-All none rest =
        (λ h. (λ q at. absurd (let impossible = at in cc impossible), h), λ h. h.1)
    first-All (some r) rest =
        (λ h. (λ q at. subst P (ground arith) h.0, h.1), λ h. (h.0 r refl, h.1))

    cyclic-Stretch : (start n : ℕ) → All P (cyclic accounts start n) → Stretch P start n
    unfolding Stretch cyclic
    cyclic-Stretch start zero h k q below at = absurd (omega arith)
    cyclic-Stretch start (suc n) h zero q below at =
        ((first-All (get_elem? accounts (start % length accounts)) _).0 h).0 q (
          subst (λ i. get_elem? accounts (i % length accounts) ≡ some q)
            (let same : start + 0 ≡ start = omega arith in same) at)
    cyclic-Stretch start (suc n) h (suc k) q below at =
        cyclic-Stretch (start + 1) n
          ((first-All (get_elem? accounts (start % length accounts)) _).0 h).1 k q (omega arith)
          (subst (λ i. get_elem? accounts (i % length accounts) ≡ some q)
            (let shifted : start + suc k ≡ start + 1 + k = omega arith in shifted) at)

    Stretch-cyclic : (start n : ℕ) → Stretch P start n → All P (cyclic accounts start n)
    unfolding Stretch cyclic
    Stretch-cyclic start zero h = tt
    Stretch-cyclic start (suc n) h =
        (first-All (get_elem? accounts (start % length accounts)) _).1 (
          λ q at. h 0 q (omega arith) (
              subst (λ i. get_elem? accounts (i % length accounts) ≡ some q)
                (let same : start ≡ start + 0 = omega arith in same) at),
          Stretch-cyclic (start + 1) n (λ k q below at. h (suc k) q (omega arith) (
              subst (λ i. get_elem? accounts (i % length accounts) ≡ some q)
                (let shifted : start + 1 + k ≡ start + suc k = omega arith in shifted) at)),
        )

get_elem-lt : (xs : List Ref) (j : ℕ) (q : Ref) → get_elem? xs j ≡ some q → j < length xs
get_elem-lt [] j q h = absurd (let impossible = h in cc impossible)
get_elem-lt (x ∷ xs) zero q h = omega arith
get_elem-lt (x ∷ xs) (suc j) q h = omega (arith, get_elem-lt xs j q h)

points-All :
    (P : Ref → Type 0) (xs : List Ref)
    → ((j : ℕ) (q : Ref) → get_elem? xs j ≡ some q → P q)
    → All P xs
points-All P [] h = tt
points-All P (x ∷ xs) h = (h 0 x refl, points-All P xs (λ j q at. h (suc j) q at))

-- Every place of the ring is met once around.
around :
    (n start j : ℕ)
    → start < n
    → j < n
    → (start + (if leb start j then j - start else j + n - start)) % n ≡ j
around n start j below at = elim (Bool-cases (leb start j)) [
  | inl up ↦
      let sum : start + (j - start) ≡ j = ground (arith, up) in
      rw up (ap (λ i. i % n) sum ∙ mod-eq_of_lt at)
  | inr over ↦
      let sum : start + (j + n - start) ≡ j + n = ground (arith, over) in
      rw over (ap (λ i. i % n) sum ∙ add-mod_right j n ∙ mod-eq_of_lt at)
]

-- All accounts of the pool, from any place of the ring on.
ring-All :
    (P : Ref → Type 0) (accounts : List Ref) (start : ℕ)
    → start < length accounts
    → Stretch accounts P start (length accounts) ↔ All P accounts
unfolding Stretch
ring-All P accounts start below = (
  λ h. points-All P accounts (λ j q at.
      let far = get_elem-lt accounts j q at in
      h (if leb start j then j - start else j + length accounts - start) q
        (ground (arith, far, below))
        (subst (λ i. get_elem? accounts i ≡ some q)
          (sym (around (length accounts) start j below far)) at)),
  λ h k q near at. All-get_elem P accounts ((start + k) % length accounts) q h at,
)

module _ (conns : ℕ → ℕ) (int_n : ℕ → ℕ) (now : Time) (accounts : List Ref) (start : ℕ) where
  -- The accounts at the places from an offset on, which the loop has still to look at, are at their limit.
  Ahead : (Ref → Account) → ℕ → Type 0
  Ahead heap offset =
      Stretch accounts (λ q. is_full heap conns q ≡ true) (start + offset)
        (length accounts - offset)

  past_end : (heap : Ref → Account) (offset : ℕ) → length accounts ≤ offset → Ahead heap offset
  unfolding Ahead Stretch
  past_end heap offset over k q below at = absurd (omega arith)

  -- The places from an offset on are those of one window and those after it.
  Ahead-split :
      (heap : Ref → Account) (offset : ℕ)
      → (All
            (λ q. is_full heap conns q ≡ true)
            (cyclic accounts (start + offset) (min account_scan_window (length accounts - offset)))
          × Ahead heap (offset + account_scan_window))
        ↔ Ahead heap offset
  unfolding Ahead Stretch
  Ahead-split heap offset =
      let P = λ (q : Ref). is_full heap conns q ≡ true in
      let w = min account_scan_window (length accounts - offset) in
      (
        λ h k q below at. elim (Bool-cases (ltb k w)) [
          | inl first ↦
              cyclic-Stretch accounts P (start + offset) w h.0 k q (ground (arith, first)) at
          | inr later ↦
              let apart : start + offset + k ≡ start + (offset + 64) + (k - w) =
                ground (arith, later, below) in
              h.1 (k - w) q (ground (arith, later, below))
                (subst (λ i. get_elem? accounts (i % length accounts) ≡ some q) apart at)
        ],
        λ h. (
          Stretch-cyclic accounts P (start + offset) w (λ k q below at. h k q (omega arith) at),
          λ k q below at. h (64 + k) q (omega arith) (
              subst (λ i. get_elem? accounts (i % length accounts) ≡ some q)
                (let apart : start + (offset + 64) + k ≡ start + offset + (64 + k) = omega arith in
                  apart)
                at),
        ),
      )

  round-none :
      (s' : Balancer) (picked : Option Ref) (rest : Balancer × Option Ref)
      → ((elim picked as (λ x. Balancer × Option Ref) [ none ↦ rest | some r ↦ (s', some r) ]).1
          ≡ none)
        ↔ ((picked ≡ none) × (rest.1 ≡ none))
  round-none s' none rest = (λ e. (refl, e), λ h. h.1)
  round-none s' (some r) rest = (
    λ e. absurd (let impossible = e in cc impossible),
    λ h. absurd (let impossible = h.0 in cc impossible),
  )

  -- With enough rounds the loop finds nobody exactly when every account ahead is at its limit.
  windows-none :
      (rounds : ℕ) (s : Balancer) (offset : ℕ)
      → InRange int_n
      → length accounts ≤ offset + 64 * rounds
      → ((select_windows conns int_n now accounts start rounds s offset).1 ≡ none)
        ↔ Ahead s.heap offset
  unfolding select_windows
  windows-none zero s offset range enough = (λ e. past_end s.heap offset (omega arith), λ h. refl)
  windows-none (suc rounds) s offset range enough =
      let window =
        cyclic accounts (start + offset) (min account_scan_window (length accounts - offset)) in
      let found = select_window conns int_n now s window in
      let later = offset + account_scan_window in
      let rest = select_windows conns int_n now accounts start rounds found.0 later in
      let rest-none : (rest.1 ≡ none) ↔ Ahead s.heap later =
        subst (λ heap. (rest.1 ≡ none) ↔ Ahead heap later)
          (select_window-heap conns int_n now s window)
          (windows-none rounds found.0 later range (omega arith)) in
      let window-none = select_window-none conns int_n now s window range in
      let round = round-none found.0 found.1 rest in
      elim (Bool-cases (leb (length accounts) offset)) [
        | inl over ↦
            rw (over, select_windows)
              (λ e. past_end s.heap offset (ground (arith, over)), λ h. refl)
        | inr more ↦
            rw (more, select_windows)
              (
                λ e.
                    let both = round.0 e in
                    (Ahead-split s.heap offset).0 (window-none.0 both.0, rest-none.0 both.1),
                λ h.
                    let both = (Ahead-split s.heap offset).1 h in
                    round.1 (window-none.1 both.0, rest-none.1 both.1),
              )
      ]

  -- The loop from its start on.
  whole-none :
      (s : Balancer)
      → InRange int_n
      → start < length accounts
      → ((select_windows conns int_n now accounts start (length accounts / 64 + 1) s 0).1 ≡ none)
        ↔ All (λ q. is_full s.heap conns q ≡ true) accounts
  unfolding Ahead
  whole-none s range below =
      let P = λ (q : Ref). is_full s.heap conns q ≡ true in
      let loop = windows-none (length accounts / 64 + 1) s 0 range (omega arith) in
      let ring = ring-All P accounts start below in
      let first : start + 0 ≡ start = omega arith in
      let size : length accounts - 0 ≡ length accounts = omega arith in
      let from : Ahead s.heap 0 ≡ Stretch accounts P start (length accounts) =
        ap (λ i. Stretch accounts P i (length accounts - 0)) first
        ∙ ap (Stretch accounts P start) size in
      (
        λ e. ring.0 (subst (λ (X : Type 0). X) from (loop.0 e)),
        λ h. loop.1 (subst (λ (X : Type 0). X) (sym from) (ring.1 h)),
      )

rotate-heap : (s : Balancer) (size : ℕ) → (rotate_scan_cursor s size).0.heap ≡ s.heap
unfolding rotate_scan_cursor
rotate-heap s size = ground arith

rotate-below : (s : Balancer) (k : ℕ) → (rotate_scan_cursor s (suc k)).1 < suc k
unfolding rotate_scan_cursor
rotate-below s k =
    let below : s.scan_cursor % suc k < suc k = mod-lt s.scan_cursor (omega arith) in
    ground (arith, below)

-- Where the random index is below its bound, the selection from a pool of any size, in one pass or window
-- by window, picks nobody exactly when every account of the pool is at its limit.
pub select_account_with_tracker-none :
    (conns : ℕ → ℕ) (int_n : ℕ → ℕ) (now : Time) (s : Balancer) (accounts : List Ref)
    → InRange int_n
    → ((select_account_with_tracker conns int_n now s accounts).1 ≡ none)
      ↔ All (λ q. is_full s.heap conns q ≡ true) accounts
unfolding select_account_with_tracker rotate_scan_cursor
select_account_with_tracker-none conns int_n now s [] range = (λ e. tt, λ h. refl)
select_account_with_tracker-none conns int_n now s (r ∷ rs) range =
    let accounts = r ∷ rs in
    let (s', start) = rotate_scan_cursor s (length accounts) in
    elim (Bool-cases (ltb account_scan_window (length accounts))) [
      | inr few ↦
          rw (few, select_account_with_tracker)
            (select_window-none conns int_n now s accounts range)
      | inl many ↦
          rw (many, select_account_with_tracker)
            (subst
              (λ heap.
                ((select_windows conns int_n now accounts start (length accounts / 64 + 1) s' 0).1
                  ≡ none)
                ↔ All (λ q. is_full heap conns q ≡ true) accounts)
              (rotate-heap s (length accounts))
              (whole-none conns int_n now accounts start s' range (rotate-below s (length rs))))
    ]
