-- ===== src/RefreshQueue/Exclusive.antt =====
-- No two refreshes of one account run at a time (internal/refreshqueue/refreshqueue.go).
use orchids_2api.Prelude.{
  ℕ, ◌+◌, ◌≤◌, ◌≡◌, refl, ap, ◌∙◌, ◌↔◌, inl, inr, true, false, none, some, List, [], ◌∷◌, ◌++◌,
  arith, ◌==◌, if◌then◌else◌, Bool-cases, Option-cases, All,
}
use orchids_2api.Prelude.Time.{after, before}
use orchids_2api.Prelude.Assoc.{lookup, string_eq, nat_eq, lookup-insert, lookup-delete}
use orchids_2api.RefreshQueue.{
  Hub, acquire_entry, try_acquire_lease, release_lease, Task, outside, refreshing, begin_refresh,
  begins, ends, Reached, idle_hub, turn, refreshes, count_refreshes, is_leased,
}

count_refreshes-append :
    (id : ℕ) (xs ys : List Task)
    → count_refreshes id (xs ++ ys) ≡ count_refreshes id xs + count_refreshes id ys
unfolding count_refreshes
count_refreshes-append id [] ys = omega arith
count_refreshes-append id (x ∷ xs) ys = omega (arith, count_refreshes-append id xs ys)

-- The refreshes of the goroutines on both sides of one.
abbrev around : List Task → List Task → ℕ → ℕ
around before after id = count_refreshes id before + count_refreshes id after

count_refreshes-around :
    (id : ℕ) (before after : List Task) (t : Task)
    → count_refreshes id (before ++ t ∷ after) ≡ around before after id + refreshes id t
unfolding count_refreshes
count_refreshes-around id before after t =
    omega (arith, count_refreshes-append id before (t ∷ after))

-- A leased account has one refresh, and another account none; `n` counts those of other goroutines.
abbrev Leased : Hub → (ℕ → ℕ) → Task → Type 0
Leased none n t = ⊥
Leased (some in_flight) n t =
    (id : ℕ)
    → (id == 0) ≡ false
    → n id + refreshes id t ≡ (if is_leased (some in_flight) id then 1 else 0)

begin-Leased :
    (hub : Hub) (n : ℕ → ℕ) (id : ℕ)
    → Leased hub n outside
    → Leased (begin_refresh hub id).0 n (begin_refresh hub id).1
unfolding begin_refresh try_acquire_lease acquire_entry refreshes is_leased
begin-Leased none n id v = v
begin-Leased (some in_flight) n id v = elim (Bool-cases (id == 0)) [
  | inl unset ↦ rw (unset, begin_refresh, try_acquire_lease) (λ j set. ground (arith, v j set))
  | inr set ↦ elim (Option-cases (lookup id in_flight)) [
    | inl free ↦
        rw (set, free, begin_refresh, try_acquire_lease, acquire_entry)
          (λ j set_j. ground (arith, v j set_j, lookup-insert id j tt in_flight))
    | inr (busy, taken) ↦ rw (set, taken, begin_refresh, try_acquire_lease, acquire_entry) v
  ]
]

release-Leased :
    (hub : Hub) (n : ℕ → ℕ) (id : ℕ)
    → Leased hub n (refreshing id)
    → Leased (release_lease hub id) n outside
unfolding release_lease refreshes is_leased
release-Leased none n id v = v
release-Leased (some in_flight) n id v = elim (Bool-cases (id == 0)) [
  | inl unset ↦ rw (unset, release_lease) (λ j set. ground (arith, v j set))
  | inr set ↦
      rw (set, release_lease) (λ j set_j. ground (arith, v j set_j, lookup-delete id j in_flight))
]

recounted :
    (hub : Hub) (n n' : ℕ → ℕ) (t t' : Task)
    → ((id : ℕ) → n' id + refreshes id t' ≡ n id + refreshes id t)
    → Leased hub n t
    → Leased hub n' t'
recounted none n n' t t' e v = v
recounted (some in_flight) n n' t t' e v = λ id set. e id ∙ v id set

-- What holds between two turns.
abbrev AllLeased : Hub → List Task → Type 0
AllLeased hub ts = Leased hub (λ id. count_refreshes id ts) outside

focus :
    (hub : Hub) (before after : List Task) (t : Task)
    → AllLeased hub (before ++ t ∷ after)
    → Leased hub (around before after) t
unfolding refreshes
focus hub before after t v =
    recounted hub (λ id. count_refreshes id (before ++ t ∷ after)) (around before after) outside t
      (λ id. omega (arith, count_refreshes-around id before after t)) v

unfocus :
    (hub : Hub) (before after : List Task) (t : Task)
    → Leased hub (around before after) t
    → AllLeased hub (before ++ t ∷ after)
unfolding refreshes
unfocus hub before after t v =
    recounted hub (around before after) (λ id. count_refreshes id (before ++ t ∷ after)) t outside
      (λ id. omega (arith, count_refreshes-around id before after t)) v

outside-none : (id : ℕ) (ts : List Task) → All (λ t. t ≡ outside) ts → count_refreshes id ts ≡ 0
unfolding count_refreshes refreshes
outside-none id [] h = refl
outside-none id (t ∷ ts) h =
    let none_here : refreshes id t ≡ 0 = ap (refreshes id) h.0 in
    omega (arith, none_here, outside-none id ts h.1)

history-AllLeased : (hub : Hub) (ts : List Task) → Reached (hub, ts) → AllLeased hub ts
unfolding is_leased lookup refreshes
history-AllLeased _ _ (idle_hub {ts} h) = λ id set. omega (arith, outside-none id ts h)
history-AllLeased _ _ (turn r (begins {hub} before after id)) =
    unfocus (begin_refresh hub id).0 before after (begin_refresh hub id).1 (
      begin-Leased hub (around before after) id
        (focus hub before after outside (history-AllLeased hub (before ++ outside ∷ after) r)))
history-AllLeased _ _ (turn r (ends {hub} before after id)) =
    unfocus (release_lease hub id) before after outside (
      release-Leased hub (around before after) id (
        focus hub before after (refreshing id)
          (history-AllLeased hub (before ++ refreshing id ∷ after) r)))

leased_once :
    (hub : Hub) (ts : List Task) (id : ℕ)
    → (id == 0) ≡ false
    → AllLeased hub ts
    → count_refreshes id ts ≡ (if is_leased hub id then 1 else 0)
unfolding refreshes
leased_once none ts id set v = absurd v
leased_once (some in_flight) ts id set v = omega (arith, v id set)

-- However the goroutines that call WithLease interleave, at most one refresh of an account with an id
-- other than 0 runs, and the hub has a lease of the account exactly while one does.
pub count_refreshes-exclusive :
    (hub : Hub) (ts : List Task) (id : ℕ)
    → (id == 0) ≡ false
    → Reached (hub, ts)
    → (count_refreshes id ts ≤ 1) × ((is_leased hub id ≡ true) ↔ (count_refreshes id ts ≡ 1))
count_refreshes-exclusive hub ts id set r =
    let count = leased_once hub ts id set (history-AllLeased hub ts r) in
    (ground arith, (λ e. ground arith, λ e. ground arith))
