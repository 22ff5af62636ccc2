-- ===== src/RefreshQueue.antt =====
-- internal/refreshqueue/refreshqueue.go: the leases of credential refreshes, and goroutines that call
-- WithLease. A method holds the mutex throughout, so it is one step.
pub mod Exclusive
use orchids_2api.Prelude.{
  ℕ, zero, suc, ◌+◌, ◌-◌, ◌*◌, ◌/◌, ◌%◌, ◌^◌, ◌≤◌, ◌<◌, min, max, String, ◌≡◌, refl, sym, ap, ◌∙◌,
  subst, ◌≢◌, ◌↔◌, ◌⊎◌, inl, inr, Bool, true, false, not, ◌&&◌, ◌||◌, Option, none, some, List, [],
  ◌∷◌, ◌++◌, map, arith, ltb, leb, ◌==◌, str_eq, if◌then◌else◌, Bool-cases, Option-cases, length,
  any, All,
}
use orchids_2api.Prelude.Int.{ℤ, pos, negsuc, ltb_ℤ, leb_ℤ, pos_part, neg_part}
use orchids_2api.Prelude.Text.{is_empty, trim_space, to_lower, contains, equal_fold, has_prefix}
use orchids_2api.Prelude.Text.Trim.{trim_space_idem}
use orchids_2api.Prelude.Time.{
  Time, Duration, is_zero, after, before, sub, add, second, minute, hour,
}
use orchids_2api.Prelude.Assoc.{
  Eq, lookup, insert, delete, filter_entries, string_eq, nat_eq, lookup-insert, lookup-delete,
  beq_refl, lookup-insert_self, lookup-delete_self,
}
use text.Mathlib.TextEquality.{eq_iff}
use text.Mathlib.TextPositions.{eq_refl}

-- Hub, none for a nil one: the accounts in flight.
abbrev pub Hub : Type 0
Hub = Option (List (ℕ × Unit {0}))

-- NewHub
abbrev pub new_hub : Hub
new_hub = some []

unfoldable pub acquire_entry : List (ℕ × Unit {0}) → ℕ → Option (Unit {0}) → Hub × Bool
acquire_entry in_flight id (some busy) = (some in_flight, false)
acquire_entry in_flight id none = (some (insert id tt in_flight), true)

-- TryAcquire
unfoldable pub try_acquire_lease : Hub → ℕ → Hub × Bool
unfolding acquire_entry
try_acquire_lease none id = (none, true)
try_acquire_lease (some in_flight) id =
    if id == 0 then (some in_flight, true) else acquire_entry in_flight id (lookup id in_flight)

-- Release
unfoldable pub release_lease : Hub → ℕ → Hub
release_lease none id = none
release_lease (some in_flight) id = if id == 0 then some in_flight else some (delete id in_flight)

-- Len
unfoldable pub count_leases : Hub → ℕ
count_leases none = 0
count_leases (some in_flight) = length in_flight

-- A goroutine outside of WithLease, or in the refresh that WithLease runs for an account.
pub data Task : Type 0 where
  outside : Task
  refreshing : ℕ → Task

-- WithLease up to the call of the refresh: the refresh runs if the lease is taken.
unfoldable pub begin_refresh : Hub → ℕ → Hub × Task
unfolding try_acquire_lease
begin_refresh hub id =
    let (hub', taken) = try_acquire_lease hub id in (hub', if taken then refreshing id else outside)

-- One goroutine enters WithLease, or returns from the refresh and releases the lease.
pub data Turn : Hub × List Task → Hub × List Task → Type 0 where
  begins :
      {hub : Hub}
      → (before after : List Task) → (id : ℕ)
      → Turn
          (hub, before ++ outside ∷ after)
          ((begin_refresh hub id).0, before ++ (begin_refresh hub id).1 ∷ after)
  ends :
      {hub : Hub}
      → (before after : List Task) → (id : ℕ)
      → Turn
          (hub, before ++ refreshing id ∷ after)
          (release_lease hub id, before ++ outside ∷ after)

-- The states that are reached from a new hub and goroutines outside of it.
pub data Reached : Hub × List Task → Type 0 where
  idle_hub : {ts : List Task} → All (λ t. t ≡ outside) ts → Reached (new_hub, ts)
  turn : {m m' : Hub × List Task} → Reached m → Turn m m' → Reached m'

unfoldable pub refreshes : ℕ → Task → ℕ
refreshes id outside = 0
refreshes id (refreshing i) = if i == id then 1 else 0

-- The number of refreshes of an account that run.
unfoldable pub count_refreshes : ℕ → List Task → ℕ
unfolding refreshes
count_refreshes id [] = 0
count_refreshes id (t ∷ ts) = refreshes id t + count_refreshes id ts

-- The account has a lease.
unfoldable pub is_leased : Hub → ℕ → Bool
is_leased none id = false
is_leased (some in_flight) id = elim (lookup id in_flight) [ none ↦ false | some busy ↦ true ]
