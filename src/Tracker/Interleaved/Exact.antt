-- ===== src/Tracker/Interleaved/Exact.antt =====
-- What every interleaving of the tracker's operations keeps (internal/loadbalancer/conn_tracker.go).
use orchids_2api.Prelude.{
  ℕ, suc, ◌+◌, ◌^◌, ◌≤◌, ◌<◌, ◌≡◌, refl, sym, ap, subst, List, [], ◌∷◌, ◌++◌, arith, length, All,
}
use orchids_2api.Prelude.Int.{pos}
use orchids_2api.Prelude.Time.{after, before}
use orchids_2api.Prelude.Assoc.{lookup, string_eq, nat_eq}
use orchids_2api.Tracker.{Conns, get_count}
use orchids_2api.Tracker.Interleaved.{
  Phase, Call, idle, Move, move, Reachable, start, step, holds, holders,
}
use orchids_2api.Tracker.Interleaved.Slots.{
  holders-append, holders_le, length-append, Sound, IsLimited, moved-Kept,
}

All-split {ℓ} :
    (P : Phase → Type ℓ) (xs ys : List Phase) (p : Phase)
    → All P (xs ++ p ∷ ys)
    → P p × ((q : Phase) → P q → All P (xs ++ q ∷ ys))
All-split P [] ys p h = (h.0, λ q k. (k, h.1))
All-split P (x ∷ xs) ys p h =
    let (own, rest) = All-split P xs ys p h.1 in (own, λ q k. (h.0, rest q k))

-- The slots that the goroutines on both sides of one have.
others : List Phase → List Phase → ℕ → ℕ
others before after id = holders id before + holders id after

holders-others :
    (id : ℕ) (before after : List Phase) (p : Phase)
    → holders id (before ++ p ∷ after) ≡ others before after id + holds id p
unfolding others holders
holders-others id before after p = omega (arith, holders-append id before (p ∷ after))

others-small :
    (before after : List Phase) (p : Phase) (id : ℕ)
    → length (before ++ p ∷ after) < 2 ^ 63
    → suc (others before after id) < 2 ^ 63
unfolding others
others-small before after p id h =
    omega (arith, length-append before (p ∷ after), holders_le id before, holders_le id after)

module _ (allowed : ℕ → Call → Type 0) where
  -- What holds between two steps.
  record Invariant (conns : Conns) (ps : List Phase) : Type 0 where
    sound : All (Sound allowed) ps
    counted : (id : ℕ) → get_count conns id ≡ pos (holders id ps)
    within : (id most : ℕ) → IsLimited allowed id most → holders id ps ≤ most

  moved-Invariant :
      (conns conns' : Conns) (p p' : Phase) (before after : List Phase)
      → length (before ++ p ∷ after) < 2 ^ 63
      → Move allowed conns p conns' p'
      → Invariant conns (before ++ p ∷ after)
      → Invariant conns' (before ++ p' ∷ after)
  moved-Invariant conns conns' p p' before after small m v =
      let n = others before after in
      let (own, put) = All-split (Sound allowed) before after p v.sound in
      let (sound, counted, within) =
        moved-Kept allowed n (λ id. others-small before after p id small) conns conns' p p' m
          (
            own,
            λ id. rw (← holders-others id before after p) (v.counted id),
            λ id most only. rw (← holders-others id before after p) (v.within id most only),
          ) in
      record {
        sound = put p' sound;
        counted = λ id. rw (holders-others id before after p') (counted id);
        within = λ id most only. rw (holders-others id before after p') (within id most only);
      }

  idle-Sound : (ps : List Phase) → All (λ p. p ≡ idle) ps → All (Sound allowed) ps
  idle-Sound [] h = tt
  idle-Sound (p ∷ ps) h = (subst (Sound allowed) (sym h.0) tt, idle-Sound ps h.1)

  idle-holders : (id : ℕ) (ps : List Phase) → All (λ p. p ≡ idle) ps → holders id ps ≡ 0
  unfolding holders holds
  idle-holders id [] h = refl
  idle-holders id (p ∷ ps) h =
      let none_held : holds id p ≡ 0 = ap (holds id) h.0 in
      omega (arith, none_held, idle-holders id ps h.1)

  start-Invariant : (ps : List Phase) → All (λ p. p ≡ idle) ps → Invariant [] ps
  unfolding get_count lookup
  start-Invariant ps h = record {
    sound = idle-Sound ps h;
    counted = λ id. rw (idle-holders id ps h) refl;
    within = λ id most only. omega (arith, idle-holders id ps h);
  }

  reached-Invariant :
      (conns : Conns) (ps : List Phase)
      → length ps < 2 ^ 63
      → Reachable allowed (conns, ps)
      → Invariant conns ps
  reached-Invariant _ _ small (start {ps} h) = start-Invariant ps h
  reached-Invariant _ _ small (step r (move {conns} {conns'} {p} {p'} before after m)) =
      let before_small : length (before ++ p ∷ after) < 2 ^ 63 =
        omega (arith, length-append before (p ∷ after), length-append before (p' ∷ after)) in
      moved-Invariant conns conns' p p' before after before_small m
        (reached-Invariant conns (before ++ p ∷ after) before_small r)

  -- However the operations of fewer than 2 ^ 63 goroutines interleave, whichever of Acquire and TryAcquire
  -- they use and with which limits, the count of every account is the number of goroutines that have a
  -- slot of it, so no slot is lost or counted twice.
  pub get_count-exact :
      (conns : Conns) (ps : List Phase) (id : ℕ)
      → length ps < 2 ^ 63
      → Reachable allowed (conns, ps)
      → get_count conns id ≡ pos (holders id ps)
  get_count-exact conns ps id small r = (reached-Invariant conns ps small r).counted id

  -- However the operations of fewer than 2 ^ 63 goroutines interleave, an account whose every slot is
  -- asked for by TryAcquire with a positive limit of at most `most`, the same each time or not, and never
  -- by Acquire, has at most `most` slots taken.
  pub holders-limited :
      (conns : Conns) (ps : List Phase) (id most : ℕ)
      → length ps < 2 ^ 63
      → Reachable allowed (conns, ps)
      → IsLimited allowed id most
      → holders id ps ≤ most
  holders-limited conns ps id most small r only =
      (reached-Invariant conns ps small r).within id most only
