-- ===== src/Balancer/Choose/Result.antt =====
-- What the selection over one window of accounts returns (internal/loadbalancer/loadbalancer.go,
-- selectAccountWithTracker).
use orchids_2api.Prelude.{
  ℕ, zero, suc, ◌<◌, ◌≡◌, refl, sym, ap, ◌∙◌, subst, ◌≢◌, ◌↔◌, inl, inr, true, false, ◌||◌, Option,
  none, some, List, [], ◌∷◌, arith, Bool-cases, get_elem?, length, All, Exists, here, there,
}
use orchids_2api.Prelude.Time.{Time}
use orchids_2api.Prelude.Assoc.{insert, string_eq, nat_eq}
use orchids_2api.Account.{Account}
use orchids_2api.Balancer.State.{Balancer, Ref, is_nil}
use orchids_2api.Balancer.Choose.{
  Score, score_lt, score_eq, score_of, is_full, gather, gather_best, idle_pool, remember,
  select_window,
}
use orchids_2api.Balancer.Choose.Least.{
  weight-pos, ScoreLe, ScoreLe-trans, All-append, All-map, Fits, Seen, Gathered,
  gather_best-Gathered,
}
use orchids_2api.Balancer.Choose.Oldest.{
  NoOlder, idle_pool-All, is_nil-idle_pool, idle_pool-NoOlder,
}

pub All-get_elem :
    (P : Ref → Type 0) (xs : List Ref) (n : ℕ) (r : Ref) → All P xs → get_elem? xs n ≡ some r → P r
All-get_elem P [] n r h e = absurd (let impossible = e in cc impossible)
All-get_elem P (x ∷ xs) zero r h e = subst P (ground arith) h.0
All-get_elem P (x ∷ xs) (suc n) r h e = All-get_elem P xs n r h.1 e

get_elem-below : (xs : List Ref) (n : ℕ) → n < length xs → get_elem? xs n ≢ none
get_elem-below [] n h e = omega arith
get_elem-below (x ∷ xs) zero h e = cc
get_elem-below (x ∷ xs) (suc n) h e = get_elem-below xs n (omega arith) e

length-pos : (xs : List Ref) → is_nil xs ≡ false → 0 < length xs
length-pos [] e = absurd (cc e)
length-pos (x ∷ xs) e = omega arith

pub All-Exists :
    (P : Ref → Type 0) (xs : List Ref) (q : Ref) → All P xs → Exists (λ b. b ≡ q) xs → P q
All-Exists P [] q h e = elim e [ ]
All-Exists P (x ∷ xs) q h (here e) = subst P e h.0
All-Exists P (x ∷ xs) q h (there e) = All-Exists P xs q h.1 e

members : (xs : List Ref) → All (λ q. Exists (λ b. b ≡ q) xs) xs
members [] = tt
members (x ∷ xs) = (here refl, All-map _ _ xs (λ q e. there e) (members xs))

module _ (heap : Ref → Account) (conns : ℕ → ℕ) where
  gather-All :
      (P : Ref → Type 0) (g : List Ref × Score) (r : Ref)
      → P r
      → All P g.0
      → All P (gather heap conns g r).0
  unfolding gather
  gather-All P (best, m) r p h = elim (Bool-cases (is_full heap conns r)) [
    | inl full ↦ rw (full, gather) h
    | inr room ↦ elim (Bool-cases (is_nil best || score_lt (score_of heap conns r) m)) [
      | inl better ↦ rw (room, better, gather) (p, tt)
      | inr worse ↦ elim (Bool-cases (score_eq (score_of heap conns r) m)) [
        | inl equal ↦ rw (room, worse, equal, gather) (All-append P best r h p)
        | inr other ↦ rw (room, worse, other, gather) h
      ]
    ]
  ]

  gather_best-All :
      (P : Ref → Type 0) (rs : List Ref) (g : List Ref × Score)
      → All P rs
      → All P g.0
      → All P (gather_best heap conns g rs).0
  unfolding gather_best
  gather_best-All P [] g ps h = h
  gather_best-All P (r ∷ rs) g ps h =
      gather_best-All P rs (gather heap conns g r) ps.1 (gather-All P g r ps.0 h)

-- `r` is a best choice among the accounts: it is one of them and has room, no account with room has a lower score, and
-- of those with the same score none has waited longer.
pub record IsBestChoice (s : Balancer) (conns : ℕ → ℕ) (accounts : List Ref) (r : Ref)
    : Type 0 where
  pub member : Exists (λ q. q ≡ r) accounts
  pub room : is_full s.heap conns r ≡ false
  pub least :
      All
        (λ q.
          is_full s.heap conns q ≡ false
          → ScoreLe (score_of s.heap conns r) (score_of s.heap conns q))
        accounts
  pub longest_idle :
      All
        (λ q.
          is_full s.heap conns q ≡ false
          → ScoreLe (score_of s.heap conns q) (score_of s.heap conns r)
          → NoOlder s.heap s.last_selected r q)
        accounts

module _ (s : Balancer) (conns : ℕ → ℕ) (accounts : List Ref) where
  -- What the load pass gathers, and its score.
  abbrev gathered : List Ref × Score
  gathered = gather_best s.heap conns ([], record { conns = 0; weight = 1 }) accounts

  gathered-Gathered : Gathered s.heap conns accounts gathered
  gathered-Gathered =
      gather_best-Gathered s.heap conns accounts [] ([], record { conns = 0; weight = 1 })
        (record { positive = omega arith; fit = tt; looked = tt })

  least_choice :
      (r : Ref)
      → Fits s.heap conns gathered.1 r
      → (q : Ref) → Seen s.heap conns gathered q
      → is_full s.heap conns q ≡ false
      → ScoreLe (score_of s.heap conns r) (score_of s.heap conns q)
  least_choice r fits q seen room = elim seen.0 [
    | inl full ↦ absurd (let both : true ≡ false = sym full ∙ room in cc both)
    | inr (some_yet, le) ↦
        ScoreLe-trans (score_of s.heap conns r) gathered.1 (score_of s.heap conns q)
          gathered-Gathered.positive fits.1 le
  ]

  idle_choice :
      (r : Ref)
      → Fits s.heap conns gathered.1 r
      → All (NoOlder s.heap s.last_selected r) gathered.0
      → (q : Ref) → Seen s.heap conns gathered q
      → is_full s.heap conns q ≡ false
      → ScoreLe (score_of s.heap conns q) (score_of s.heap conns r)
      → NoOlder s.heap s.last_selected r q
  idle_choice r fits older q seen room le =
      All-Exists (NoOlder s.heap s.last_selected r) gathered.0 q older (
        seen.1 room (
          ScoreLe-trans (score_of s.heap conns q) (score_of s.heap conns r) gathered.1
            (weight-pos s.heap conns r) le fits.1))

  pool-IsBestChoice :
      (n : ℕ) (r : Ref)
      → get_elem? (idle_pool s.heap s.last_selected gathered.0) n ≡ some r
      → IsBestChoice s conns accounts r
  pool-IsBestChoice n r e =
      let pool = idle_pool s.heap s.last_selected gathered.0 in
      let v = gathered-Gathered in
      let fits : Fits s.heap conns gathered.1 r =
        All-get_elem _ pool n r
          (idle_pool-All s.heap s.last_selected (Fits s.heap conns gathered.1) gathered.0 v.fit)
          e in
      let older : All (NoOlder s.heap s.last_selected r) gathered.0 =
        All-get_elem _ pool n r (idle_pool-NoOlder s.heap s.last_selected gathered.0) e in
      record {
        member =
            All-get_elem _ pool n r
              (idle_pool-All s.heap s.last_selected _ gathered.0
                (gather_best-All s.heap conns _ accounts _ (members accounts) tt))
              e;
        room = fits.0;
        least = All-map _ _ accounts (least_choice r fits) v.looked;
        longest_idle = All-map _ _ accounts (idle_choice r fits older) v.looked;
      }

-- The index that the code draws is below the number of accounts it draws from.
abbrev pub InRange : (ℕ → ℕ) → Type 0
InRange int_n = (n : ℕ) → 0 < n → int_n n < n

module _ (conns int_n : ℕ → ℕ) (now : Time) where
  -- The account that the random index draws from the pool of a window.
  abbrev drawn : Balancer → List Ref → Option Ref
  drawn s accounts =
      let pool = idle_pool s.heap s.last_selected (gathered s conns accounts).0 in
      get_elem? pool (int_n (length pool))

  nothing_gathered :
      (s : Balancer) (accounts : List Ref)
      → is_nil (gathered s conns accounts).0 ≡ true
      → select_window conns int_n now s accounts ≡ (s, none)
  unfolding select_window
  nothing_gathered s accounts empty = rw (empty, select_window) refl

  something_gathered :
      (s : Balancer) (accounts : List Ref)
      → is_nil (gathered s conns accounts).0 ≡ false
      → select_window conns int_n now s accounts ≡ remember conns int_n now s (drawn s accounts)
  unfolding select_window
  something_gathered s accounts found = rw (found, select_window) refl

  remember-some :
      (s s' : Balancer) (p : Option Ref) (r : Ref)
      → remember conns int_n now s p ≡ (s', some r)
      → (p ≡ some r) × (s' ≡ record s { last_selected = insert (s.heap r).id now s.last_selected })
  unfolding remember
  remember-some s s' none r e = absurd (let other : none ≡ some r = ap (λ w. w.1) e in cc other)
  remember-some s s' (some q) r e =
      let same : q ≡ r = ground (arith, ap (λ w. w.1) e) in
      (
        ap some same,
        sym (ap (λ w. w.0) e)
            ∙ ap (λ k. record s { last_selected = insert (s.heap k).id now s.last_selected }) same,
      )

  -- If the pass over one window picks an account, it is one of the window's accounts and below its
  -- limit; no account below its limit is less loaded for its weight; if it was handed out before, then
  -- so was each of the accounts that are no more loaded, and not earlier; and nothing but the time of
  -- its last selection changes.
  pub select_window-IsBestChoice :
      (s s' : Balancer) (accounts : List Ref) (r : Ref)
      → select_window conns int_n now s accounts ≡ (s', some r)
      → IsBestChoice s conns accounts r
        × (s' ≡ record s { last_selected = insert (s.heap r).id now s.last_selected })
  select_window-IsBestChoice s s' accounts r e =
      elim (Bool-cases (is_nil (gathered s conns accounts).0)) [
        | inl empty ↦ absurd (
            let other : none ≡ some r =
              ap (λ w. w.1) (sym (nothing_gathered s accounts empty) ∙ e) in
            cc other)
        | inr found ↦
            let (picked, state) =
              remember-some s s' (drawn s accounts) r
                (sym (something_gathered s accounts found) ∙ e) in
            (pool-IsBestChoice s conns accounts _ r picked, state)
      ]

  remember-heap : (s : Balancer) (p : Option Ref) → (remember conns int_n now s p).0.heap ≡ s.heap
  unfolding remember
  remember-heap s none = refl
  remember-heap s (some r) = refl

  none_remembered : (s : Balancer) (p : Option Ref) → (remember conns int_n now s p).1 ≡ p
  unfolding remember
  none_remembered s none = refl
  none_remembered s (some r) = refl

  drawn-found :
      (s : Balancer) (accounts : List Ref)
      → InRange int_n
      → is_nil (gathered s conns accounts).0 ≡ false
      → drawn s accounts ≢ none
  drawn-found s accounts below found e =
      let pool = idle_pool s.heap s.last_selected (gathered s conns accounts).0 in
      get_elem-below pool (int_n (length pool))
        (below (length pool) (
          length-pos pool
            (is_nil-idle_pool s.heap s.last_selected (gathered s conns accounts).0 found)))
        e

  nothing_gathered-full :
      (s : Balancer) (accounts : List Ref)
      → is_nil (gathered s conns accounts).0 ≡ true
      → All (λ q. is_full s.heap conns q ≡ true) accounts
  nothing_gathered-full s accounts empty =
      All-map _ _ accounts
        (λ q seen. elim seen.0 [
          | inl full ↦ full
          | inr (some_yet, le) ↦ absurd (let both : true ≡ false = sym empty ∙ some_yet in cc both)
        ])
        (gathered-Gathered s conns accounts).looked

  full-nothing_gathered :
      (s : Balancer) (best : List Ref) (m : Score)
      → All (Fits s.heap conns m) best
      → All (λ q. is_full s.heap conns q ≡ true) best
      → is_nil best ≡ true
  full-nothing_gathered s [] m fit full = refl
  full-nothing_gathered s (q ∷ qs) m fit full =
      absurd (let both : true ≡ false = sym full.0 ∙ fit.0.0 in cc both)

  -- Where the random index is below its bound, the pass over one window picks nobody exactly when every
  -- account of the window is at its limit.
  pub select_window-none :
      (s : Balancer) (accounts : List Ref)
      → InRange int_n
      → ((select_window conns int_n now s accounts).1 ≡ none)
        ↔ All (λ q. is_full s.heap conns q ≡ true) accounts
  select_window-none s accounts below = (
    λ e. elim (Bool-cases (is_nil (gathered s conns accounts).0)) [
      | inl empty ↦ nothing_gathered-full s accounts empty
      | inr found ↦ absurd (
          drawn-found s accounts below found (
            sym (none_remembered s (drawn s accounts))
            ∙ sym (ap (λ w. w.1) (something_gathered s accounts found))
            ∙ e))
    ],
    λ full.
        ap (λ w. w.1)
          (nothing_gathered s accounts (
            full-nothing_gathered s (gathered s conns accounts).0 (gathered s conns accounts).1
              (gathered-Gathered s conns accounts).fit
              (gather_best-All s.heap conns _ accounts _ full tt))),
  )

  -- The accounts themselves are left as they were.
  pub select_window-heap :
      (s : Balancer) (accounts : List Ref)
      → (select_window conns int_n now s accounts).0.heap ≡ s.heap
  unfolding remember
  select_window-heap s accounts = elim (Bool-cases (is_nil (gathered s conns accounts).0)) [
    | inl empty ↦ ap (λ w. w.0.heap) (nothing_gathered s accounts empty)
    | inr found ↦
        ap (λ w. w.0.heap) (something_gathered s accounts found)
        ∙ remember-heap s (drawn s accounts)
  ]
