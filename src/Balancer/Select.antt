-- ===== src/Balancer/Select.antt =====
-- internal/loadbalancer/loadbalancer.go: getEnabledAccounts and
-- GetNextAccountExcludingByChannelWithTrackerFilter. What a method logs is left out.
pub mod Kin
pub mod Eligible
pub mod Picked
use orchids_2api.Prelude.{
  ℕ, ◌+◌, String, Bool, true, false, not, ◌&&◌, ◌||◌, Option, none, some, List, [], ◌∷◌, ◌++◌, ltb,
  ◌==◌, str_eq, if◌then◌else◌, length, any,
}
use orchids_2api.Prelude.Text.{is_empty, trim_space, to_lower, equal_fold}
use orchids_2api.Prelude.Time.{Time}
use orchids_2api.Prelude.Assoc.{lookup, insert, string_eq, nat_eq}
use orchids_2api.Account.{Account}
use orchids_2api.Balancer.State.{
  Balancer, Ref, is_nil, store_at, rotate_scan_cursor, cached_accounts_before,
}
use orchids_2api.Balancer.Available.{is_account_available}
use orchids_2api.Balancer.Choose.{account_scan_window, cyclic, select_account_with_tracker}

-- What Store.GetEnabledAccounts answers: the rows, or an error.
abbrev pub Loaded : Type 0
Loaded = Option (List Account)

-- New objects for the loaded rows, at the addresses from `next` on.
allocate : (Ref → Account) → Ref → List Account → (Ref → Account) × List Ref
unfolding store_at
allocate heap next [] = (heap, [])
allocate heap next (acc ∷ accs) =
    let (heap', refs) = allocate (store_at heap next acc) (next + 1) accs in (heap', next ∷ refs)

add_to : String → Ref → List (String × List Ref) → List (String × List Ref)
add_to key r index = elim (lookup key index) [
  | none ↦ insert key (r ∷ []) index
  | some refs ↦ insert key (refs ++ r ∷ []) index
]

-- The loop that builds cachedByChannel.
unfoldable pub index_channels :
    (Ref → Account) → List (String × List Ref) → List Ref → List (String × List Ref)
unfolding add_to
index_channels heap index [] = index
index_channels heap index (r ∷ rs) =
    let typ = to_lower (heap r).account_type in
    let mode = to_lower (heap r).agent_mode in
    let index' = if is_empty typ then index else add_to typ r index in
    index_channels heap
      (if not (is_empty mode) && not (str_eq mode typ) then add_to mode r index' else index') rs

-- getEnabledAccounts; `next` is an address from which on the heap is unused, `cache_ttl` the TTL.
unfoldable pub get_enabled_accounts :
    Time → ℕ → Ref → Loaded → Balancer → Balancer × Option (List Ref)
unfolding allocate index_channels
get_enabled_accounts now cache_ttl next loaded s = elim (cached_accounts_before s now) [
  | some accounts ↦ (s, some accounts)
  | none ↦ elim loaded [
    | none ↦ (s, none)
    | some rows ↦
        let (heap, refs) = allocate s.heap next rows in
        (
          record s {
            heap = heap;
            cached_accounts = refs;
            cached_by_channel = some (index_channels heap [] refs);
            cache_expires = now + cache_ttl;
          },
          some refs,
        )
  ]
]

-- The errors that a filter hands back: RejectModelThrottled, RejectModelUnavailable and any other.
pub data Reject : Type 0 where
  model_throttled model_unavailable not_eligible : Reject

-- AccountFilter: none accepts the account.
abbrev pub AccountFilter : Type 0
AccountFilter = Account → Option Reject

-- The errors of a selection, by the wording of their message.
pub data SelectError : Type 0 where
  store_failed : SelectError
  plan_does_not_cover : SelectError
  cooling_or_not_covered : SelectError
  cooling_for_model : SelectError
  all_rate_limited : SelectError
  all_allowance_spent : SelectError
  rate_limited_or_parked : ℕ → ℕ → SelectError
  no_accounts : SelectError
  at_concurrency_limit : SelectError

-- The counters of one scan pass, and the accounts that passed it.
pub record Counts : Type 0 where
  pub candidates : ℕ
  pub matched : ℕ
  pub rate_limited : ℕ
  pub parked : ℕ
  pub withheld : ℕ
  pub throttled : ℕ
  pub unavailable : ℕ
  pub passed : List Ref

abbrev pub no_counts : Counts
no_counts = record {
  candidates = 0;
  matched = 0;
  rate_limited = 0;
  parked = 0;
  withheld = 0;
  throttled = 0;
  unavailable = 0;
  passed = [];
}

-- The counters after a filter has withheld an account for a reason.
unfoldable pub withhold : Counts → Reject → Counts
withhold c model_unavailable = record c {
  withheld = c.withheld + 1;
  unavailable = c.unavailable + 1;
}
withhold c model_throttled = record c { withheld = c.withheld + 1; throttled = c.throttled + 1 }
withhold c not_eligible = record c { withheld = c.withheld + 1 }

-- The counters after the availability check.
unfoldable pub note_available : Counts → Ref → String → Bool → Counts
note_available c r status true = record c { passed = c.passed ++ r ∷ [] }
note_available c r status false =
    if str_eq status "429"
    then record c { rate_limited = c.rate_limited + 1 }
    else if str_eq status "402"
    then record c { parked = c.parked + 1 }
    else c

-- The account is excluded, or is not of the channel.
unfoldable pub is_skipped : List ℕ → String → Account → Bool
is_skipped exclude channel acc =
    if any (λ id. id == acc.id) exclude
    then true
    else if is_empty channel
    then false
    else is_empty (trim_space acc.account_type)
      || not (equal_fold acc.account_type channel) && not (equal_fold acc.agent_mode channel)

module _ (now : Time) (exclude : List ℕ) (channel : String) (filter : AccountFilter) where
  -- What happens to an account that the filter accepts.
  unfoldable pub check_available : Balancer → Counts → Ref → Balancer × Counts
  unfolding note_available
  check_available s c r =
      let (s', ok) = is_account_available s r now in
      (
        s',
        note_available (record c { matched = c.matched + 1 }) r (trim_space (s'.heap r).status_code)
            ok,
      )

  -- One round of the loop of `scan`.
  unfoldable pub scan_one : Balancer → Counts → Ref → Balancer × Counts
  unfolding is_skipped check_available withhold
  scan_one s c r =
      let counted = record c { candidates = c.candidates + 1 } in
      if is_skipped exclude channel (s.heap r) then (s, c) else elim (filter (s.heap r)) [
        | none ↦ check_available s counted r
        | some reason ↦ (s, withhold counted reason)
      ]

  unfoldable pub scan_from : Balancer → Counts → List Ref → Balancer × Counts
  unfolding scan_one
  scan_from s c [] = (s, c)
  scan_from s c (r ∷ rs) = let (s', c') = scan_one s c r in scan_from s' c' rs

  -- `scan`, whose counters start again at zero.
  unfoldable pub scan : Balancer → List Ref → Balancer × Counts
  unfolding scan_from
  scan s candidates = scan_from s no_counts candidates

  -- The scan of a rotating window of a large pool, and of the whole pool if that yields nothing.
  unfoldable pub scan_pool : Balancer → List Ref → Balancer × Counts
  unfolding scan
  scan_pool s accounts =
      let (s₁, start) = rotate_scan_cursor s (length accounts) in
      let (s₂, c) = scan s₁ (cyclic accounts start account_scan_window) in
      if ltb account_scan_window (length accounts)
      then if is_nil c.passed then scan s₂ accounts else (s₂, c)
      else scan s accounts

-- The error for an empty pool.
unfoldable pub empty_pool_error : String → Counts → SelectError
empty_pool_error channel c =
    if is_empty channel
    then no_accounts
    else if ltb 0 c.candidates && c.matched == 0
    then if ltb 0 c.unavailable && c.throttled == 0 && c.unavailable == c.withheld
      then plan_does_not_cover
      else if ltb 0 c.throttled && ltb 0 c.unavailable
      then cooling_or_not_covered
      else cooling_for_model
    else if ltb 0 c.matched && c.rate_limited == c.matched
    then all_rate_limited
    else if ltb 0 c.matched && c.parked == c.matched
    then all_allowance_spent
    else if ltb 0 c.parked && ltb 0 c.rate_limited
    then rate_limited_or_parked c.rate_limited c.parked
    else no_accounts

-- What a selection returns.
pub data Selected : Type 0 where
  account : Ref → Selected
  error : SelectError → Selected

-- The accounts of a channel: those of the index while it belongs to the snapshot in hand.
same_refs : List Ref → List Ref → Bool
same_refs [] [] = true
same_refs (p ∷ ps) (q ∷ qs) = p == q && same_refs ps qs
same_refs _ _ = false

unfoldable pub channel_accounts : Balancer → String → List Ref → List Ref
unfolding same_refs
channel_accounts s channel accounts =
    if is_empty channel || not (same_refs accounts s.cached_accounts)
    then accounts
    else elim s.cached_by_channel [
      | none ↦ accounts
      | some index ↦ elim (lookup (to_lower channel) index) [ none ↦ [] | some refs ↦ refs ]
    ]

module _ (now : Time) (exclude : List ℕ) (channel : String) (filter : AccountFilter)
    (conns int_n : ℕ → ℕ) where
  unfoldable pub choose : Balancer → List Ref → Balancer × Selected
  choose s passed =
      let (s', picked) = select_account_with_tracker conns int_n now s passed in
      (s', elim picked [ none ↦ error at_concurrency_limit | some r ↦ account r ])

  -- The selection among the accounts in hand.
  unfoldable pub select_among : Balancer → List Ref → Balancer × Selected
  unfolding choose
  select_among s accounts =
      let (s', c) = scan_pool now exclude channel filter s accounts in
      if is_nil c.passed then (s', error (empty_pool_error channel c)) else choose s' c.passed

  -- GetNextAccountExcludingByChannelWithTrackerFilter
  unfoldable pub get_next_account : ℕ → Ref → Loaded → Balancer → Balancer × Selected
  unfolding select_among
  get_next_account cache_ttl next loaded s =
      let (s', accounts) = get_enabled_accounts now cache_ttl next loaded s in
      elim accounts [
        | none ↦ (s', error store_failed)
        | some refs ↦ select_among s' (channel_accounts s' channel refs)
      ]
