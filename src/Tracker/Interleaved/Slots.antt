-- ===== src/Tracker/Interleaved/Slots.antt =====
-- How many slots of an account the goroutines that share a tracker have
-- (internal/loadbalancer/conn_tracker.go).
use orchids_2api.Prelude.{
  ℕ, suc, ◌+◌, ◌^◌, ◌≤◌, ◌<◌, ◌≡◌, refl, sym, ap, ◌∙◌, subst, inl, inr, true, false, ◌&&◌, List, [],
  ◌∷◌, ◌++◌, arith, ◌==◌, if◌then◌else◌, Bool-cases, Option-cases, ==_iff, length,
}
use orchids_2api.Prelude.Int.{ℤ, pos, negsuc, ltb_ℤ, leb_ℤ}
use orchids_2api.Prelude.Assoc.{lookup, insert, string_eq, nat_eq, lookup-insert}
use orchids_2api.Prelude.Int64.{add_int64, sub_int64, add_int64-one, sub_int64-one}
use orchids_2api.Tracker.{Conns, load_or_store, get_count}
use orchids_2api.Tracker.Interleaved.{
  Phase, Call, plain, limited, idle, acquiring, adding, trying, loaded, holding, releasing,
  lowering, compare_and_swap, advance, Move, acquires, tries, releases, goes_on, holds, holders,
}

get_count-insert :
    (conns : Conns) (id j : ℕ) (v : ℤ)
    → get_count (insert id v conns) j ≡ (if id == j then v else get_count conns j)
unfolding get_count
get_count-insert conns id j v = ground (arith, lookup-insert id j v conns)

load_or_store-get_count :
    (conns : Conns) (id : ℕ)
    → ((load_or_store conns id).1 ≡ get_count conns id)
      × ((j : ℕ) → get_count (load_or_store conns id).0 j ≡ get_count conns j)
unfolding load_or_store get_count
load_or_store-get_count conns id = elim (Option-cases (lookup id conns)) [
  | inl e ↦
      rw (e, load_or_store, get_count) (refl, λ j. ground (arith, lookup-insert id j (pos 0) conns))
  | inr (n, e) ↦ rw (e, load_or_store, get_count) (refl, λ j. refl)
]

pub holders-append :
    (id : ℕ) (xs ys : List Phase) → holders id (xs ++ ys) ≡ holders id xs + holders id ys
unfolding holders
holders-append id [] ys = omega arith
holders-append id (x ∷ xs) ys = omega (arith, holders-append id xs ys)

holds_le : (id : ℕ) (p : Phase) → holds id p ≤ 1
unfolding holds
holds_le id p = ground arith

pub holders_le : (id : ℕ) (ps : List Phase) → holders id ps ≤ length ps
unfolding holders
holders_le id [] = omega arith
holders_le id (p ∷ ps) = omega (arith, holds_le id p, holders_le id ps)

pub length-append : (xs ys : List Phase) → length (xs ++ ys) ≡ length xs + length ys
length-append [] ys = omega arith
length-append (x ∷ xs) ys = omega (arith, length-append xs ys)

raised : (c : ℤ) (k : ℕ) → c ≡ pos k → suc k < 2 ^ 63 → add_int64 c (pos 1) ≡ pos (suc k)
raised c k e h = ap (λ x. add_int64 x (pos 1)) e ∙ add_int64-one k h

lowered : (c : ℤ) (k : ℕ) → c ≡ pos (suc k) → suc k < 2 ^ 63 → sub_int64 c (pos 1) ≡ pos k
lowered c k e h = ap (λ x. sub_int64 x (pos 1)) e ∙ sub_int64-one k h

leb_ℤ-antisym : (a b : ℤ) → (leb_ℤ a b && leb_ℤ b a) ≡ true → a ≡ b
leb_ℤ-antisym (pos a) (pos b) h = ground arith
leb_ℤ-antisym (pos a) (negsuc b) h = ground arith
leb_ℤ-antisym (negsuc a) (pos b) h = ground arith
leb_ℤ-antisym (negsuc a) (negsuc b) h = ground arith

-- A counter below a limit can grow by one.
below_limit :
    (l : ℤ) (k most : ℕ)
    → (ltb_ℤ (pos 0) l && leb_ℤ l (pos k)) ≡ false
    → ltb_ℤ (pos 0) l ≡ true
    → leb_ℤ l (pos most) ≡ true
    → suc k ≤ most
below_limit (pos l) k most room positive bound = ground arith
below_limit (negsuc l) k most room positive bound = ground arith

-- A call that asks for a slot only below a positive limit, which is at most `most`.
abbrev pub IsWithin : ℕ → Call → Type 0
IsWithin most plain = ⊥
IsWithin most (limited limit) = (ltb_ℤ (pos 0) limit ≡ true) × (leb_ℤ limit (pos most) ≡ true)

module _ (allowed : ℕ → Call → Type 0) where
  -- Every call for a slot of the account is within the limit.
  abbrev pub IsLimited : ℕ → ℕ → Type 0
  IsLimited id most = (c : Call) → allowed id c → IsWithin most c

  -- A goroutine that asks for a slot does so by an allowed call, and the value it loaded is below its limit.
  abbrev pub Sound : Phase → Type 0
  Sound (acquiring id) = allowed id plain
  Sound (adding id) = allowed id plain
  Sound (trying id limit) = allowed id (limited limit)
  Sound (loaded id limit current) =
      allowed id (limited limit) × ((ltb_ℤ (pos 0) limit && leb_ℤ limit current) ≡ false)
  Sound _ = Unit

  -- The counter of every account is the number of the slots, `n` of other goroutines and those of one.
  abbrev pub Counted : Conns → (ℕ → ℕ) → Phase → Type 0
  Counted conns n p = (id : ℕ) → get_count conns id ≡ pos (n id + holds id p)

  -- No account all of whose calls are within a limit has more slots taken.
  abbrev pub Within : (ℕ → ℕ) → Phase → Type 0
  Within n p = (id most : ℕ) → IsLimited id most → n id + holds id p ≤ most

  abbrev pub Kept : Conns → (ℕ → ℕ) → Phase → Type 0
  Kept conns n p = Sound p × Counted conns n p × Within n p

  module _ (n : ℕ → ℕ) (small : (id : ℕ) → suc (n id) < 2 ^ 63) where
    insert-Counted :
        (conns : Conns) (id k : ℕ) (p p' : Phase)
        → Counted conns n p
        → ((j : ℕ) → (id == j) ≡ false → holds j p' ≡ holds j p)
        → n id + holds id p' ≡ k
        → Counted (insert id (pos k) conns) n p'
    insert-Counted conns id k p p' counted others own j = elim (Bool-cases (id == j)) [
      | inl same ↦ ground (arith, get_count-insert conns id j (pos k), ==_iff id j)
      | inr other ↦ ground (arith, get_count-insert conns id j (pos k), counted j, others j other)
    ]

    load_or_store-Counted :
        (conns : Conns) (id : ℕ) (p : Phase)
        → Counted conns n p
        → Counted (load_or_store conns id).0 n p
    load_or_store-Counted conns id p counted j = (load_or_store-get_count conns id).1 j ∙ counted j

    get_counter-Kept :
        (conns : Conns) (id : ℕ)
        → Kept conns n (acquiring id)
        → Kept (advance conns (acquiring id)).0 n (advance conns (acquiring id)).1
    unfolding advance holds
    get_counter-Kept conns id (sound, counted, within) =
        (sound, load_or_store-Counted conns id (acquiring id) counted, within)

    add-Kept :
        (conns : Conns) (id : ℕ)
        → Kept conns n (adding id)
        → Kept (advance conns (adding id)).0 n (advance conns (adding id)).1
    unfolding advance holds
    add-Kept conns id (sound, counted, within) =
        let more : add_int64 (get_count conns id) (pos 1) ≡ pos (suc (n id)) =
          raised (get_count conns id) (n id) (counted id ∙ ground arith) (small id) in
        (
          tt,
          rw (more, advance)
              (insert-Counted conns id (suc (n id)) (adding id) (holding id) counted
                (λ j other. ground arith) (ground arith)),
          λ j most only. elim (Bool-cases (id == j)) [
            | inl own ↦
                absurd (only plain (subst (λ i. allowed i plain) ((==_iff id j).0 own) sound))
            | inr other ↦ rw other (within j most only)
          ],
        )

    try-Kept :
        (conns : Conns) (id : ℕ) (limit : ℤ)
        → Kept conns n (trying id limit)
        → Kept (advance conns (trying id limit)).0 n (advance conns (trying id limit)).1
    unfolding advance holds
    try-Kept conns id limit (sound, counted, within) =
        let (conns', current) = load_or_store conns id in
        let counted' = load_or_store-Counted conns id (trying id limit) counted in
        elim (Bool-cases (ltb_ℤ (pos 0) limit && leb_ℤ limit current)) [
          | inl full ↦ rw (full, advance) (tt, counted', within)
          | inr room ↦ rw (room, advance) ((sound, room), counted', within)
        ]

    swap_up-Kept :
        (conns : Conns) (id : ℕ) (limit current : ℤ)
        → Kept conns n (loaded id limit current)
        → Kept
            (advance conns (loaded id limit current)).0
            n
            (advance conns (loaded id limit current)).1
    unfolding advance holds compare_and_swap
    swap_up-Kept conns id limit current (sound, counted, within) =
        elim (Bool-cases
          (leb_ℤ (get_count conns id) current && leb_ℤ current (get_count conns id))) [
            | inl same ↦
                let now_n : current ≡ pos (n id) =
                  sym (leb_ℤ-antisym (get_count conns id) current same)
                  ∙ counted id
                  ∙ ground arith in
                let more : add_int64 current (pos 1) ≡ pos (suc (n id)) =
                  raised current (n id) now_n (small id) in
                rw (same, more, advance, compare_and_swap)
                  (
                    tt,
                    insert-Counted conns id (suc (n id)) (loaded id limit current) (holding id)
                        counted (λ j other. ground arith) (ground arith),
                    λ j most only. elim (Bool-cases (id == j)) [
                      | inl own ↦
                          let j_is : id ≡ j = (==_iff id j).0 own in
                          let room : (ltb_ℤ (pos 0) limit && leb_ℤ limit (pos (n id))) ≡ false =
                            subst (λ c. (ltb_ℤ (pos 0) limit && leb_ℤ limit c) ≡ false) now_n
                              sound.1 in
                          let asked =
                            only (limited limit)
                              (subst (λ i. allowed i (limited limit)) j_is sound.0) in
                          let fits : suc (n id) ≤ most =
                            below_limit limit (n id) most room asked.0 asked.1 in
                          let fits_j : suc (n j) ≤ most = subst (λ i. suc (n i) ≤ most) j_is fits in
                          rw own (ground (arith, fits_j))
                      | inr other ↦ rw other (within j most only)
                    ],
                  )
            | inr changed ↦ rw (changed, advance, compare_and_swap) (sound.0, counted, within)
          ]

    load_down-Kept :
        (conns : Conns) (id : ℕ)
        → Kept conns n (releasing id)
        → Kept (advance conns (releasing id)).0 n (advance conns (releasing id)).1
    unfolding advance holds
    load_down-Kept conns id (sound, counted, within) =
        elim (Bool-cases (leb_ℤ (get_count conns id) (pos 0))) [
          | inl empty ↦ absurd (ground (arith, counted id))
          | inr some_left ↦ rw (some_left, advance) (tt, counted, within)
        ]

    swap_down-Kept :
        (conns : Conns) (id : ℕ) (current : ℤ)
        → Kept conns n (lowering id current)
        → Kept (advance conns (lowering id current)).0 n (advance conns (lowering id current)).1
    unfolding advance holds compare_and_swap
    swap_down-Kept conns id current (sound, counted, within) =
        elim (Bool-cases
          (leb_ℤ (get_count conns id) current && leb_ℤ current (get_count conns id))) [
            | inl same ↦
                let now_n : current ≡ pos (suc (n id)) =
                  sym (leb_ℤ-antisym (get_count conns id) current same)
                  ∙ counted id
                  ∙ ground arith in
                let less : sub_int64 current (pos 1) ≡ pos (n id) =
                  lowered current (n id) now_n (small id) in
                rw (same, less, advance, compare_and_swap)
                  (
                    tt,
                    insert-Counted conns id (n id) (lowering id current) idle counted
                        (λ j other. ground arith) (ground arith),
                    λ j most only. ground (arith, within j most only),
                  )
            | inr changed ↦ rw (changed, advance, compare_and_swap) (tt, counted, within)
          ]

    pub moved-Kept :
        (conns conns' : Conns) (p p' : Phase)
        → Move allowed conns p conns' p'
        → Kept conns n p
        → Kept conns' n p'
    unfolding holds advance
    moved-Kept conns _ _ _ (acquires id call) v = (call, v.1, v.2)
    moved-Kept conns _ _ _ (tries id limit call) v = (call, v.1, v.2)
    moved-Kept conns _ _ _ (releases id) v = (tt, v.1, v.2)
    moved-Kept conns _ _ _ (goes_on idle) v = v
    moved-Kept conns _ _ _ (goes_on (acquiring id)) v = get_counter-Kept conns id v
    moved-Kept conns _ _ _ (goes_on (adding id)) v = add-Kept conns id v
    moved-Kept conns _ _ _ (goes_on (trying id limit)) v = try-Kept conns id limit v
    moved-Kept conns _ _ _ (goes_on (loaded id limit current)) v =
        swap_up-Kept conns id limit current v
    moved-Kept conns _ _ _ (goes_on (holding id)) v = v
    moved-Kept conns _ _ _ (goes_on (releasing id)) v = load_down-Kept conns id v
    moved-Kept conns _ _ _ (goes_on (lowering id current)) v = swap_down-Kept conns id current v
