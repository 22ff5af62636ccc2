-- ===== src/Tests/Tracker.antt =====
-- Two goroutines that race for the only slot of an account, and what the theorems say of the end.
use orchids_2api.Prelude.{
  ℕ, zero, suc, ◌+◌, ◌-◌, ◌*◌, ◌/◌, ◌%◌, ◌^◌, ◌≤◌, ◌<◌, min, max, String, ◌≡◌, refl, sym, ap, ◌∙◌,
  subst, ◌≢◌, ◌↔◌, ◌⊎◌, inl, inr, Bool, true, false, not, ◌&&◌, ◌||◌, Option, none, some, List, [],
  ◌∷◌, ◌++◌, map, arith, ltb, leb, ◌==◌, str_eq, Bool-cases, Option-cases, length, any, All,
}
use orchids_2api.Prelude.Int.{ℤ, pos, negsuc, ltb_ℤ, leb_ℤ, pos_part, neg_part}
use orchids_2api.Prelude.Assoc.{lookup, insert, string_eq, nat_eq}
use orchids_2api.Tracker.{Conns, get_count}
use orchids_2api.Tracker.Interleaved.{
  Call, plain, limited, idle, trying, loaded, holding, advance, tries, goes_on, move, Reachable,
  start, step, holders,
}
use orchids_2api.Tracker.Interleaved.Slots.{IsLimited}
use orchids_2api.Tracker.Interleaved.Exact.{get_count-exact, holders-limited}

-- Account 7 is taken by TryAcquire with the limit one, and any other account by Acquire.
abbrev Allowed : ℕ → Call → Type 0
Allowed id plain = id ≢ 7
Allowed id (limited limit) = limit ≡ pos 1

only_one : IsLimited Allowed 7 1
only_one plain other = other refl
only_one (limited limit) e = rw e (refl, refl)

abbrev one_taken : Conns
one_taken = (7, pos 1) ∷ []

abbrev none_taken : Conns
none_taken = (7, pos 0) ∷ []

both_loaded :
    Reachable Allowed (none_taken, loaded 7 (pos 1) (pos 0) ∷ loaded 7 (pos 1) (pos 0) ∷ [])
unfolding advance lookup insert
both_loaded =
    step
      (step
        (step
          (step (start {ps = idle ∷ idle ∷ []} (refl, (refl, tt)))
            (move [] (idle ∷ []) (tries 7 (pos 1) refl)))
          (move [] (idle ∷ []) (goes_on (trying 7 (pos 1)))))
        (move (loaded 7 (pos 1) (pos 0) ∷ []) [] (tries 7 (pos 1) refl)))
      (move (loaded 7 (pos 1) (pos 0) ∷ []) [] (goes_on (trying 7 (pos 1))))

one_refused : Reachable Allowed (one_taken, holding 7 ∷ idle ∷ [])
unfolding advance lookup insert orchids_2api.Prelude.Int64.add_int64 orchids_2api.Prelude.Int64.wrap
    orchids_2api.Prelude.Int.◌+ℤ◌
one_refused =
    step
      (step
        (step both_loaded
          (move [] (loaded 7 (pos 1) (pos 0) ∷ []) (goes_on (loaded 7 (pos 1) (pos 0)))))
        (move (holding 7 ∷ []) [] (goes_on (loaded 7 (pos 1) (pos 0)))))
      (move (holding 7 ∷ []) [] (goes_on (trying 7 (pos 1))))

get_count-exact_example : get_count one_taken 7 ≡ pos (holders 7 (holding 7 ∷ idle ∷ []))
get_count-exact_example =
    get_count-exact Allowed one_taken (holding 7 ∷ idle ∷ []) 7 (omega arith) one_refused

holders-limited_example : holders 7 (holding 7 ∷ idle ∷ []) ≤ 1
holders-limited_example =
    holders-limited Allowed one_taken (holding 7 ∷ idle ∷ []) 7 1 (omega arith) one_refused only_one
