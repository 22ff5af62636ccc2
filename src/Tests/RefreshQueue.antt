-- ===== src/Tests/RefreshQueue.antt =====
-- Two goroutines that refresh the same account.
use orchids_2api.Prelude.{◌≤◌, ◌≡◌, refl, ◌↔◌, true, some, [], ◌∷◌}
use orchids_2api.Prelude.Assoc.{lookup, insert, string_eq, nat_eq}
use orchids_2api.RefreshQueue.{
  outside, refreshing, begin_refresh, begins, Reached, idle_hub, turn, count_refreshes, is_leased,
}
use orchids_2api.RefreshQueue.Exclusive.{count_refreshes-exclusive}

second_turned_away : Reached (some ((7, tt) ∷ []), refreshing 7 ∷ outside ∷ [])
unfolding begin_refresh lookup insert
second_turned_away =
    turn
      (turn (idle_hub {ts = outside ∷ outside ∷ []} (refl, (refl, tt)))
        (begins [] (outside ∷ []) 7))
      (begins (refreshing 7 ∷ []) [] 7)

count_refreshes-exclusive_example :
    (count_refreshes 7 (refreshing 7 ∷ outside ∷ []) ≤ 1)
    × ((is_leased (some ((7, tt) ∷ [])) 7 ≡ true)
        ↔ (count_refreshes 7 (refreshing 7 ∷ outside ∷ []) ≡ 1))
count_refreshes-exclusive_example =
    count_refreshes-exclusive (some ((7, tt) ∷ [])) (refreshing 7 ∷ outside ∷ []) 7 refl
      second_turned_away
