-- ===== src/Tracker.antt =====
-- internal/loadbalancer/conn_tracker.go: MemoryConnTracker, one operation at a time. The children are
-- about goroutines that interleave.
pub mod Interleaved
pub mod Alone
use orchids_2api.Prelude.{
  ℕ, zero, suc, ◌+◌, ◌-◌, ◌*◌, ◌/◌, ◌%◌, ◌^◌, ◌≤◌, ◌<◌, min, max, String, ◌≡◌, refl, sym, ap, ◌∙◌,
  subst, ◌≢◌, ◌↔◌, ◌⊎◌, inl, inr, Bool, true, false, not, ◌&&◌, ◌||◌, Option, none, some, List, [],
  ◌∷◌, ◌++◌, map, arith, ltb, leb, ◌==◌, str_eq, if◌then◌else◌, Bool-cases, Option-cases, length,
  any, All,
}
use orchids_2api.Prelude.Int.{ℤ, pos, negsuc, ltb_ℤ, leb_ℤ, pos_part, neg_part}
use orchids_2api.Prelude.Text.{is_empty, trim_space, to_lower, contains, equal_fold, has_prefix}
use orchids_2api.Prelude.Text.Trim.{trim_space_idem}
use orchids_2api.Prelude.Time.{
  Time, Duration, is_zero, after, before, sub, add, second, minute, hour,
}
use orchids_2api.Prelude.Assoc.{
  Eq, lookup, insert, delete, filter_entries, string_eq, nat_eq, lookup-insert, lookup-delete,
  beq_refl, lookup-insert_self, lookup-delete_self,
}
use text.Mathlib.TextEquality.{eq_iff}
use text.Mathlib.TextPositions.{eq_refl}
use orchids_2api.Prelude.Int64.{add_int64, sub_int64}

-- MemoryConnTracker.conns: an account and its atomic counter.
abbrev pub Conns : Type 0
Conns = List (ℕ × ℤ)

-- LoadOrStore of a new counter: the counter's value, and the map with it.
unfoldable pub load_or_store : Conns → ℕ → Conns × ℤ
load_or_store conns id = elim (lookup id conns) [
  | none ↦ (insert id (pos 0) conns, pos 0)
  | some n ↦ (conns, n)
]

unfoldable pub acquire : Conns → ℕ → Conns
unfolding load_or_store
acquire conns id =
    let (conns', n) = load_or_store conns id in insert id (add_int64 n (pos 1)) conns'

-- TryAcquire without another goroutine in between: the swap succeeds at once.
unfoldable pub try_acquire : Conns → ℕ → ℤ → Conns × Bool
unfolding load_or_store
try_acquire conns id limit =
    let (conns', current) = load_or_store conns id in
    if ltb_ℤ (pos 0) limit && leb_ℤ limit current
    then (conns', false)
    else (insert id (add_int64 current (pos 1)) conns', true)

unfoldable pub release : Conns → ℕ → Conns
release conns id = elim (lookup id conns) [
  | none ↦ conns
  | some current ↦
      if leb_ℤ current (pos 0) then conns else insert id (sub_int64 current (pos 1)) conns
]

unfoldable pub get_count : Conns → ℕ → ℤ
get_count conns id = elim (lookup id conns) [ none ↦ pos 0 | some n ↦ n ]

unfoldable pub get_counts : Conns → List ℕ → List (ℕ × ℤ) → List (ℕ × ℤ)
unfolding get_count
get_counts conns [] counts = counts
get_counts conns (id ∷ ids) counts = get_counts conns ids (insert id (get_count conns id) counts)
