-- ===== src/Tracker/Interleaved.antt =====
-- Goroutines that share a MemoryConnTracker (internal/loadbalancer/conn_tracker.go): each atomic
-- operation of Acquire, TryAcquire and Release is one step, and the steps of all goroutines interleave.
pub mod Slots
pub mod Exact
use orchids_2api.Prelude.{
  ℕ, zero, suc, ◌+◌, ◌-◌, ◌*◌, ◌/◌, ◌%◌, ◌^◌, ◌≤◌, ◌<◌, min, max, String, ◌≡◌, refl, sym, ap, ◌∙◌,
  subst, ◌≢◌, ◌↔◌, ◌⊎◌, inl, inr, Bool, true, false, not, ◌&&◌, ◌||◌, Option, none, some, List, [],
  ◌∷◌, ◌++◌, map, arith, ltb, leb, ◌==◌, str_eq, if◌then◌else◌, Bool-cases, Option-cases, length,
  any, All,
}
use orchids_2api.Prelude.Int.{ℤ, pos, negsuc, ltb_ℤ, leb_ℤ, pos_part, neg_part}
use orchids_2api.Prelude.Text.{is_empty, trim_space, to_lower, contains, equal_fold, has_prefix}
use orchids_2api.Prelude.Text.Trim.{trim_space_idem}
use orchids_2api.Prelude.Time.{
  Time, Duration, is_zero, after, before, sub, add, second, minute, hour,
}
use orchids_2api.Prelude.Assoc.{
  Eq, lookup, insert, delete, filter_entries, string_eq, nat_eq, lookup-insert, lookup-delete,
  beq_refl, lookup-insert_self, lookup-delete_self,
}
use text.Mathlib.TextEquality.{eq_iff}
use text.Mathlib.TextPositions.{eq_refl}
use orchids_2api.Prelude.Int64.{add_int64, sub_int64}
use orchids_2api.Tracker.{Conns, load_or_store, acquire, get_count}

-- Where a goroutine is: outside the tracker, in Acquire before and after it has the counter, in the
-- loop of TryAcquire before it loads the counter or with the value it loaded, with a slot, and in the
-- loop of Release before and after its load.
pub data Phase : Type 0 where
  idle : Phase
  acquiring : ℕ → Phase
  adding : ℕ → Phase
  trying : ℕ → ℤ → Phase
  loaded : ℕ → ℤ → ℤ → Phase
  holding : ℕ → Phase
  releasing : ℕ → Phase
  lowering : ℕ → ℤ → Phase

-- The counter's CompareAndSwap.
unfoldable pub compare_and_swap : Conns → ℕ → ℤ → ℤ → Conns × Bool
unfolding get_count
compare_and_swap conns id old new =
    if leb_ℤ (get_count conns id) old && leb_ℤ old (get_count conns id)
    then (insert id new conns, true)
    else (conns, false)

-- The next atomic operation of a goroutine that is in the tracker.
unfoldable pub advance : Conns → Phase → Conns × Phase
unfolding load_or_store get_count compare_and_swap
advance conns idle = (conns, idle)
advance conns (acquiring id) = ((load_or_store conns id).0, adding id)
advance conns (adding id) = (insert id (add_int64 (get_count conns id) (pos 1)) conns, holding id)
advance conns (trying id limit) =
    let (conns', current) = load_or_store conns id in
    if ltb_ℤ (pos 0) limit && leb_ℤ limit current
    then (conns', idle)
    else (conns', loaded id limit current)
advance conns (loaded id limit current) =
    let (conns', ok) = compare_and_swap conns id current (add_int64 current (pos 1)) in
    (conns', if ok then holding id else trying id limit)
advance conns (holding id) = (conns, holding id)
advance conns (releasing id) =
    let current = get_count conns id in
    (conns, if leb_ℤ current (pos 0) then idle else lowering id current)
advance conns (lowering id current) =
    let (conns', ok) = compare_and_swap conns id current (sub_int64 current (pos 1)) in
    (conns', if ok then idle else releasing id)

-- How a goroutine asks for a slot: by Acquire, or by TryAcquire with a limit. Callers choose between them
-- as internal/handler/handler_helpers.go and internal/middleware/session.go do, by the limit in force.
pub data Call : Type 0 where
  plain : Call
  limited : ℤ → Call

-- Goroutines of which each asks for a slot of an account only by the calls that are allowed for it.
module _ (allowed : ℕ → Call → Type 0) where
  -- A goroutine enters the tracker with a call, or makes its next operation. Only one that holds a slot
  -- calls Release.
  pub data Move : Conns → Phase → Conns → Phase → Type 0 where
    acquires : {conns : Conns} → (id : ℕ) → allowed id plain → Move conns idle conns (acquiring id)
    tries :
        {conns : Conns}
        → (id : ℕ) (limit : ℤ) → allowed id (limited limit)
        → Move conns idle conns (trying id limit)
    releases : {conns : Conns} → (id : ℕ) → Move conns (holding id) conns (releasing id)
    goes_on : {conns : Conns} → (p : Phase) → Move conns p (advance conns p).0 (advance conns p).1

  -- One goroutine of several moves.
  pub data Step : Conns × List Phase → Conns × List Phase → Type 0 where
    move :
        {conns conns' : Conns} {p p' : Phase}
        → (before after : List Phase) → Move conns p conns' p'
        → Step (conns, before ++ p ∷ after) (conns', before ++ p' ∷ after)

  -- The states that are reached from an empty tracker and goroutines outside of it.
  pub data Reachable : Conns × List Phase → Type 0 where
    start : {ps : List Phase} → All (λ p. p ≡ idle) ps → Reachable ([], ps)
    step : {m m' : Conns × List Phase} → Reachable m → Step m m' → Reachable m'

-- Whether a goroutine has a slot of the account, as a number.
unfoldable pub holds : ℕ → Phase → ℕ
holds id idle = 0
holds id (acquiring i) = 0
holds id (adding i) = 0
holds id (trying i limit) = 0
holds id (loaded i limit current) = 0
holds id (holding i) = if i == id then 1 else 0
holds id (releasing i) = if i == id then 1 else 0
holds id (lowering i current) = if i == id then 1 else 0

-- The number of goroutines that have a slot of the account.
unfoldable pub holders : ℕ → List Phase → ℕ
unfolding holds
holders id [] = 0
holders id (p ∷ ps) = holds id p + holders id ps
