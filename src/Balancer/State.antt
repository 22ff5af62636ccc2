-- ===== src/Balancer/State.antt =====
-- internal/loadbalancer/loadbalancer.go: the state of the pool. Account objects are shared by
-- pointer, so they lie on a heap and the cached lists hold their addresses.
use orchids_2api.Prelude.{
  ℕ, ◌+◌, ◌*◌, ◌%◌, String, Bool, true, false, not, ◌&&◌, ◌||◌, Option, none, some, List, [], ◌∷◌,
  ◌++◌, ◌==◌, if◌then◌else◌, any,
}
use orchids_2api.Prelude.Int.{pos}
use orchids_2api.Prelude.Time.{Time, is_zero, before, minute}
use orchids_2api.Prelude.Assoc.{lookup, insert, string_eq, nat_eq}
use orchids_2api.Account.{Account, GrokBillingSnapshot, is_exhausted, period_end}

-- A *store.Account that is not nil.
abbrev pub Ref : Type 0
Ref = ℕ

-- LoadBalancer, with the account documents of its store: `rows` are the documents in Redis as far as
-- probe claims write them, and `updates` are the accounts given to Store.UpdateAccount, in order.
pub record Balancer : Type 0 where
  pub heap : Ref → Account
  pub cached_accounts : List Ref
  pub cached_by_channel : Option (List (String × List Ref))
  pub cache_expires : Time
  pub scan_cursor : ℕ
  pub last_selected : List (ℕ × Time)
  pub rows : List (ℕ × Account)
  pub updates : List Account

abbrev pub is_nil : {A : Type 0} → List A → Bool
is_nil [] = true
is_nil (x ∷ xs) = false

-- A write through a pointer.
unfoldable pub store_at : (Ref → Account) → Ref → Account → Ref → Account
store_at heap r acc q = if q == r then acc else heap q

-- resetAccountRuntimeState
unfoldable pub reset_account_runtime_state : Account → Account
reset_account_runtime_state acc = record acc {
  status_code = "";
  status_message = "";
  last_attempt = 0;
  quota_reset_at = 0;
  rate_limit_failures = pos 0;
}

-- cachedAccountLocked
unfoldable pub cached_account_locked : (Ref → Account) → List Ref → ℕ → Option Ref
cached_account_locked heap [] id = none
cached_account_locked heap (r ∷ rs) id =
    if (heap r).id == id then some r else cached_account_locked heap rs id

unfoldable pub reset_cached : (Ref → Account) → Option Ref → Ref → Account
unfolding store_at reset_account_runtime_state
reset_cached heap none = heap
reset_cached heap (some r) = store_at heap r (reset_account_runtime_state (heap r))

-- clearAccountStatus, with the write that persistAccountStatus makes.
unfoldable pub clear_account_status : Balancer → Ref → Balancer
unfolding reset_cached store_at reset_account_runtime_state
clear_account_status s r =
    let heap = store_at s.heap r (reset_account_runtime_state (s.heap r)) in
    let heap' = reset_cached heap (cached_account_locked heap s.cached_accounts (s.heap r).id) in
    record s { heap = heap'; updates = s.updates ++ heap' r ∷ [] }

-- rotateScanCursor
unfoldable pub rotate_scan_cursor : Balancer → ℕ → Balancer × ℕ
rotate_scan_cursor s size =
    if size == 0
    then (s, 0)
    else (record s { scan_cursor = (s.scan_cursor % size + 64) % size }, s.scan_cursor % size)

-- GrokPaidQuotaProbeInterval
abbrev pub grok_paid_quota_probe_interval : ℕ
grok_paid_quota_probe_interval = 15 * minute

-- The update that ClaimGrokPaidQuotaProbe makes on the billing snapshot of a row, if it claims.
unfoldable pub claim_billing : Time → GrokBillingSnapshot → Option GrokBillingSnapshot
claim_billing now b =
    let due = if is_zero b.next_probe_at then period_end b else b.next_probe_at in
    if not (is_exhausted b)
    then none
    else if is_zero due || before now due
    then none
    else some
        (record b { last_probe_at = now; next_probe_at = now + grok_paid_quota_probe_interval })

unfoldable pub claim_row : Balancer → ℕ → Time → Option Account → Balancer × Bool
claim_row s id now none = (s, false)
claim_row s id now (some row) = elim (claim_billing now row.grok_billing) [
  | none ↦ (s, false)
  | some billing ↦
      (record s { rows = insert id (record row { grok_billing = billing }) s.rows }, true)
]

-- ClaimGrokPaidQuotaProbe (internal/store/redis_store.go), at a time that is not zero. A row that is
-- missing is an error of the store, which the caller treats as a claim that failed.
unfoldable pub claim_grok_paid_quota_probe : Balancer → ℕ → Time → Balancer × Bool
unfolding claim_row claim_billing
claim_grok_paid_quota_probe s id now =
    if id == 0 then (s, false) else claim_row s id now (lookup id s.rows)

-- InvalidateAccounts
unfoldable pub keep_clean : (Ref → Account) → List ℕ → List Ref → List Ref
keep_clean heap changed [] = []
keep_clean heap changed (r ∷ rs) =
    let rest = keep_clean heap changed rs in
    if any (λ id. id == (heap r).id) changed then rest else r ∷ rest

nonzero : List ℕ → List ℕ
nonzero [] = []
nonzero (id ∷ ids) = let rest = nonzero ids in if id == 0 then rest else id ∷ rest

unfoldable pub invalidate_accounts : Balancer → List ℕ → Balancer
unfolding keep_clean nonzero
invalidate_accounts s ids = if is_nil (nonzero ids) then s else record s {
  cache_expires = 0;
  cached_by_channel = none;
  cached_accounts = keep_clean s.heap (nonzero ids) s.cached_accounts;
}

-- cachedAccountsBefore
unfoldable pub cached_accounts_before : Balancer → Time → Option (List Ref)
cached_accounts_before s now =
    if not (is_nil s.cached_accounts) && before now s.cache_expires
    then some s.cached_accounts
    else none
