-- ===== src/Balancer/Choose.antt =====
-- internal/loadbalancer/loadbalancer.go: selectAccountWithTracker. The connection counts come from
-- the tracker that the caller passes, and the index from the random source.
pub mod Least
pub mod Oldest
pub mod Result
pub mod Windows
use orchids_2api.Prelude.{
  ℕ, zero, suc, ◌+◌, ◌-◌, ◌*◌, ◌/◌, ◌%◌, ◌^◌, ◌≤◌, ◌<◌, min, max, String, ◌≡◌, refl, sym, ap, ◌∙◌,
  subst, ◌≢◌, ◌↔◌, ◌⊎◌, inl, inr, Bool, true, false, not, ◌&&◌, ◌||◌, Option, none, some, List, [],
  ◌∷◌, ◌++◌, map, arith, ltb, leb, ◌==◌, str_eq, if◌then◌else◌, Bool-cases, Option-cases, get_elem?,
  length, any, All,
}
use orchids_2api.Prelude.Int.{ℤ, pos, negsuc, ltb_ℤ, leb_ℤ, pos_part, neg_part}
use orchids_2api.Prelude.Text.{is_empty, trim_space, to_lower, contains, equal_fold, has_prefix}
use orchids_2api.Prelude.Text.Trim.{trim_space_idem}
use orchids_2api.Prelude.Time.{
  Time, Duration, is_zero, after, before, sub, add, second, minute, hour,
}
use orchids_2api.Prelude.Assoc.{
  Eq, lookup, insert, delete, filter_entries, string_eq, nat_eq, lookup-insert, lookup-delete,
  beq_refl, lookup-insert_self, lookup-delete_self,
}
use text.Mathlib.TextEquality.{eq_iff}
use text.Mathlib.TextPositions.{eq_refl}
use orchids_2api.Account.{Account}
use orchids_2api.Channel.{is_supported}
use orchids_2api.Balancer.State.{Balancer, Ref, rotate_scan_cursor, is_nil}

-- accountScanWindow
abbrev pub account_scan_window : ℕ
account_scan_window = 64

-- DefaultAccountConcurrency
abbrev pub default_account_concurrency : ℕ
default_account_concurrency = 10

-- EffectiveAccountConcurrencyLimit, of an account that is there.
unfoldable pub effective_limit : Account → ℕ
effective_limit acc =
    if ltb_ℤ (pos 0) acc.max_concurrent
    then pos_part acc.max_concurrent
    else if is_supported acc.account_type
    then default_account_concurrency
    else 0

-- A weight that is not positive counts as one.
unfoldable pub effective_weight : Account → ℕ
effective_weight acc = if leb_ℤ acc.weight (pos 0) then 1 else pos_part acc.weight

-- float64(conns) / float64(weight), as a fraction. The rounded quotients compare as the fractions do
-- while the two numbers of each stay below 2 ^ 25.
pub record Score : Type 0 where
  pub conns : ℕ
  pub weight : ℕ

abbrev pub score_lt : Score → Score → Bool
score_lt a b = ltb (a.conns * b.weight) (b.conns * a.weight)

abbrev pub score_eq : Score → Score → Bool
score_eq a b = (a.conns * b.weight) == (b.conns * a.weight)

module _ (heap : Ref → Account) (conns : ℕ → ℕ) where
  unfoldable pub score_of : Ref → Score
  unfolding effective_weight
  score_of r = let acc = heap r in record { conns = conns acc.id; weight = effective_weight acc }

  -- The account is at its concurrency limit.
  unfoldable pub is_full : Ref → Bool
  unfolding effective_limit
  is_full r = let limit = effective_limit (heap r) in ltb 0 limit && leb limit (conns (heap r).id)

  -- One round of the loop that gathers the least loaded accounts below their limit: those gathered,
  -- in the order of the candidates, and their score.
  unfoldable pub gather : List Ref × Score → Ref → List Ref × Score
  gather (best, min_score) r =
      if is_full r
      then (best, min_score)
      else if is_nil best || score_lt (score_of r) min_score
      then (r ∷ [], score_of r)
      else if score_eq (score_of r) min_score
      then (best ++ r ∷ [], min_score)
      else (best, min_score)

  unfoldable pub gather_best : List Ref × Score → List Ref → List Ref × Score
  unfolding gather
  gather_best best [] = best
  gather_best best (r ∷ rs) = gather_best (gather best r) rs

-- What the least-recently-used pass has seen: the accounts never handed out, those handed out
-- longest ago, and when that was.
pub record Idle : Type 0 where
  pub unseen : List Ref
  pub coldest : List Ref
  pub oldest : Time

abbrev pub no_idle : Idle
no_idle = record { unseen = []; coldest = []; oldest = 0 }

module _ (heap : Ref → Account) (last_selected : List (ℕ × Time)) where
  unfoldable pub idle_seen : Idle → Ref → Time → Idle
  idle_seen i r last =
      if is_nil i.coldest || before last i.oldest
      then record i { coldest = r ∷ []; oldest = last }
      else if last == i.oldest
      then record i { coldest = i.coldest ++ r ∷ [] }
      else i

  unfoldable pub idle_step : Idle → Ref → Idle
  unfolding idle_seen
  idle_step i r = elim (lookup (heap r).id last_selected) [
    | none ↦ record i { unseen = i.unseen ++ r ∷ [] }
    | some last ↦ idle_seen i r last
  ]

  unfoldable pub idle_pass : Idle → List Ref → Idle
  unfolding idle_step
  idle_pass i [] = i
  idle_pass i (r ∷ rs) = idle_pass (idle_step i r) rs

  -- The pool that the random index picks from.
  unfoldable pub idle_pool : List Ref → List Ref
  idle_pool best =
      let i = idle_pass no_idle best in
      if not (is_nil i.unseen) then i.unseen else if not (is_nil i.coldest) then i.coldest else best

-- selectAccountWithTracker on at most one window of accounts, with rand.IntN and the clock.
module _ (conns : ℕ → ℕ) (int_n : ℕ → ℕ) (now : Time) where
  unfoldable pub remember : Balancer → Option Ref → Balancer × Option Ref
  remember s none = (s, none)
  remember s (some r) =
      (record s { last_selected = insert (s.heap r).id now s.last_selected }, some r)

  unfoldable pub select_window : Balancer → List Ref → Balancer × Option Ref
  unfolding remember
  select_window s accounts =
      let best = (gather_best s.heap conns ([], record { conns = 0; weight = 1 }) accounts).0 in
      let pool = idle_pool s.heap s.last_selected best in
      if is_nil best then (s, none) else remember s (get_elem? pool (int_n (length pool)))

-- accounts[(start + k) % len(accounts)] for the next `n` values of k.
unfoldable pub cyclic : List Ref → ℕ → ℕ → List Ref
cyclic accounts start zero = []
cyclic accounts start (suc n) =
    let rest = cyclic accounts (start + 1) n in
    elim (get_elem? accounts (start % length accounts)) [ none ↦ rest | some r ↦ r ∷ rest ]

module _ (conns : ℕ → ℕ) (int_n : ℕ → ℕ) (now : Time) (accounts : List Ref) (start : ℕ) where
  -- The loop over the windows of a large pool, from an offset on. Each round looks at one window and
  -- returns its choice, if it has one; the fuel is the number of rounds.
  unfoldable pub select_windows : ℕ → Balancer → ℕ → Balancer × Option Ref
  select_windows zero s offset = (s, none)
  select_windows (suc rounds) s offset =
      let window =
        cyclic accounts (start + offset) (min account_scan_window (length accounts - offset)) in
      let (s', picked) = select_window conns int_n now s window in
      let rest = select_windows rounds s' (offset + account_scan_window) in
      if leb (length accounts) offset
      then (s, none)
      else elim picked [ none ↦ rest | some r ↦ (s', some r) ]

-- selectAccountWithTracker
unfoldable pub select_account_with_tracker :
    (ℕ → ℕ) → (ℕ → ℕ) → Time → Balancer → List Ref → Balancer × Option Ref
unfolding select_windows select_window
select_account_with_tracker conns int_n now s accounts =
    let (s', start) = rotate_scan_cursor s (length accounts) in
    if is_nil accounts
    then (s, none)
    else if ltb account_scan_window (length accounts)
    then select_windows conns int_n now accounts start (length accounts / 64 + 1) s' 0
    else select_window conns int_n now s accounts
