-- ===== src/Tests/Balancer.antt =====
-- The theorems on the pool, on three accounts.
use orchids_2api.Prelude.{
  List, zero, suc, some, false, ℕ, ◌+◌, ◌≡◌, refl, ◌↔◌, true, false, none, [], ◌∷◌, ◌==◌,
  if◌then◌else◌, All,
}
use orchids_2api.Prelude.Int.{pos}
use orchids_2api.Prelude.Time.{hour}
use orchids_2api.Prelude.Assoc.{lookup, insert, string_eq, nat_eq}
use orchids_2api.Account.{Account}
use orchids_2api.Balancer.State.{Balancer, Ref, clear_account_status}
use orchids_2api.Balancer.Choose.{select_window, is_full}
use orchids_2api.Balancer.Choose.Result.{
  IsBestChoice, select_window-IsBestChoice, select_window-none,
}
use orchids_2api.Balancer.Select.{get_enabled_accounts, get_next_account}
use orchids_2api.Balancer.Select.Eligible.{IsEligible}
use orchids_2api.Balancer.Select.Picked.{get_next_account-IsEligible}
use orchids_2api.Prelude.Time.{second}
use orchids_2api.Balancer.Choose.{select_account_with_tracker}
use orchids_2api.Balancer.Choose.Windows.{select_account_with_tracker-none}
use orchids_2api.Balancer.Mark.{mark_account_status}
use orchids_2api.Balancer.Mark.Visible.{IsMarked, mark_account_status-IsMarked}
use orchids_2api.Tests.Samples.{noon, grok_account, throttled_account}

-- Three accounts, the last of them also as an object that no list holds.
abbrev heap : Ref → Account
heap r =
    if r == 0
    then grok_account
    else if r == 1
    then record grok_account { id = 8; weight = pos 2; max_concurrent = pos 4 }
    else record throttled_account { id = 9 }

abbrev pool : Balancer
pool = record {
  heap = heap;
  cached_accounts = 0 ∷ 1 ∷ 2 ∷ [];
  cached_by_channel = none;
  cache_expires = 0;
  scan_cursor = 0;
  last_selected = (7, noon) ∷ [];
  rows = [];
  updates = [];
}

-- Account 7 has one connection and account 8 two.
abbrev conns : ℕ → ℕ
conns id = if id == 7 then 1 else if id == 8 then 2 else 5

abbrev busy : ℕ → ℕ
busy id = 10

abbrev first : ℕ → ℕ
first n = 0

select_window-IsBestChoice_example :
    IsBestChoice pool conns (0 ∷ 1 ∷ 2 ∷ []) 1
    × ((select_window conns first (noon + hour) pool (0 ∷ 1 ∷ 2 ∷ [])).0
        ≡ record pool { last_selected = insert 8 (noon + hour) ((7, noon) ∷ []) })
unfolding select_window orchids_2api.Balancer.Choose.gather_best is_full
    orchids_2api.Balancer.Choose.score_of orchids_2api.Balancer.Choose.idle_pool
    orchids_2api.Balancer.Choose.idle_pass lookup
select_window-IsBestChoice_example =
    select_window-IsBestChoice conns first (noon + hour) pool
      (select_window conns first (noon + hour) pool (0 ∷ 1 ∷ 2 ∷ [])).0 (0 ∷ 1 ∷ 2 ∷ []) 1 refl

select_window-none_example :
    ((select_window busy first noon pool (0 ∷ 1 ∷ [])).1 ≡ none)
    ↔ All (λ q. is_full heap busy q ≡ true) (0 ∷ 1 ∷ [])
select_window-none_example = select_window-none busy first noon pool (0 ∷ 1 ∷ []) (λ n h. h)

mark_account_status-IsMarked_example :
    IsMarked (noon + hour) "429" pool 3 2 (mark_account_status (noon + hour) "429" pool 3)
unfolding orchids_2api.Balancer.State.cached_account_locked
mark_account_status-IsMarked_example =
    mark_account_status-IsMarked (noon + hour) "429" pool 3 2 refl refl

-- The store has account 7, which the request excludes, and account 8.
abbrev rows : List Account
rows = grok_account ∷ record grok_account { id = 8 } ∷ []

get_next_account-IsEligible_example :
    IsEligible
      (7 ∷ [])
      "Grok"
      ((get_enabled_accounts (noon + hour) second 10 (some rows) pool).0.heap 11)
    × (is_full
          (get_next_account
            (noon + hour)
            (7 ∷ [])
            "Grok"
            (λ acc. none)
            (λ id. 1)
            first
            second
            10
            (some rows)
            pool).0.heap
          (λ id. 1)
          11
        ≡ false)
unfolding orchids_2api.Balancer.Select.get_next_account
    orchids_2api.Balancer.Select.get_enabled_accounts
    orchids_2api.Balancer.State.cached_accounts_before orchids_2api.Balancer.Select.scan_pool
    orchids_2api.Balancer.Select.channel_accounts orchids_2api.Prelude.Assoc.lookup
    orchids_2api.Prelude.Text.to_lower orchids_2api.Prelude.Assoc.insert
    orchids_2api.Prelude.Text.trim_space orchids_2api.Prelude.Text.equal_fold
    orchids_2api.Balancer.Available.is_account_available orchids_2api.Account.account_auth_active
    orchids_2api.Balancer.Available.is_paid_grok_build_account
    orchids_2api.Balancer.Choose.select_account_with_tracker
    orchids_2api.Balancer.Choose.gather_best is_full orchids_2api.Balancer.Choose.idle_pool
    orchids_2api.Balancer.Choose.idle_pass
get_next_account-IsEligible_example =
    get_next_account-IsEligible (noon + hour) (7 ∷ []) "Grok" (λ acc. none) (λ id. 1) first second
      10 (some rows) pool
      (get_next_account (noon + hour) (7 ∷ []) "Grok" (λ acc. none) (λ id. 1) first second 10
        (some rows) pool).0
      11 refl

-- A pool of more accounts than one window has, all but the last of them at their limit.
abbrev crowd : ℕ → List Ref
crowd zero = 1 ∷ []
crowd (suc n) = 0 ∷ crowd n

abbrev crowded : ℕ → ℕ
crowded id = if id == 8 then 0 else 10

select_account_with_tracker-none_example :
    ((select_account_with_tracker crowded first noon pool (crowd 70)).1 ≡ none)
    ↔ All (λ q. is_full pool.heap crowded q ≡ true) (crowd 70)
select_account_with_tracker-none_example =
    select_account_with_tracker-none crowded first noon pool (crowd 70) (λ n below. below)

-- The free account is found in the second window.
last_found_test : (select_account_with_tracker crowded first noon pool (crowd 70)).1 ≡ some 1
unfolding select_account_with_tracker orchids_2api.Balancer.Choose.gather_best
    orchids_2api.Balancer.Choose.cyclic orchids_2api.Balancer.State.rotate_scan_cursor is_full
    orchids_2api.Balancer.Choose.idle_pool orchids_2api.Balancer.Choose.idle_pass lookup
last_found_test = refl
