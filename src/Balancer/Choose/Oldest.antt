-- ===== src/Balancer/Choose/Oldest.antt =====
-- Among equally loaded accounts the pass prefers those never handed out, and then those handed out
-- longest ago (internal/loadbalancer/loadbalancer.go, selectAccountWithTracker).
use orchids_2api.Prelude.{
  ℕ, ◌≤◌, ◌≡◌, refl, inl, inr, Bool, true, false, not, ◌||◌, Option, none, some, List, [], ◌∷◌,
  ◌++◌, arith, ◌==◌, if◌then◌else◌, Bool-cases, Option-cases, All,
}
use orchids_2api.Prelude.Time.{Time, before}
use orchids_2api.Prelude.Assoc.{lookup, string_eq, nat_eq}
use mathlib.Core.List.{append-nil, append_assoc}
use orchids_2api.Account.{Account}
use orchids_2api.Balancer.State.{Ref, is_nil}
use orchids_2api.Balancer.Choose.{Idle, idle_seen, idle_step, idle_pass, idle_pool, no_idle}
use orchids_2api.Balancer.Choose.Least.{All-append, All-map}

module _ (heap : Ref → Account) (last_selected : List (ℕ × Time)) where
  -- When an account was last handed out.
  abbrev pub last_use : Ref → Option Time
  last_use r = lookup (heap r).id last_selected

  -- An account that the pass has looked at is accounted for.
  abbrev Noted : Idle → Ref → Type 0
  Noted i q =
      (last_use q ≡ none → is_nil i.unseen ≡ false)
      × ((u : Time) → last_use q ≡ some u → (is_nil i.coldest ≡ false) × (i.oldest ≤ u))

  -- What holds between two rounds of the pass.
  record Aged (seen : List Ref) (i : Idle) : Type 0 where
    fresh : All (λ r. last_use r ≡ none) i.unseen
    cold : All (λ r. last_use r ≡ some i.oldest) i.coldest
    noted : All (Noted i) seen

  is_nil-append : (xs : List Ref) (x : Ref) → is_nil (xs ++ x ∷ []) ≡ false
  is_nil-append [] x = refl
  is_nil-append (y ∷ ys) x = refl

  colder-Aged :
      (seen : List Ref) (i : Idle) (r : Ref) (last : Time)
      → Aged seen i
      → last_use r ≡ some last
      → (is_nil i.coldest || before last i.oldest) ≡ true
      → Aged (seen ++ r ∷ []) (record i { coldest = r ∷ []; oldest = last })
  colder-Aged seen i r last v e colder =
      let i' : Idle = record i { coldest = r ∷ []; oldest = last } in
      let keep : (q : Ref) → Noted i q → Noted i' q =
        λ q n. (n.0, λ u used. let (some_cold, le) = n.1 u used in (refl, ground arith)) in
      record {
        fresh = v.fresh;
        cold = (e, tt);
        noted =
            All-append (Noted i') seen r (All-map _ _ seen keep v.noted)
              (λ never. ground arith, λ u used. (refl, ground arith));
      }

  same-Aged :
      (seen : List Ref) (i : Idle) (r : Ref) (last : Time)
      → Aged seen i
      → last_use r ≡ some last
      → last ≡ i.oldest
      → Aged (seen ++ r ∷ []) (record i { coldest = i.coldest ++ r ∷ [] })
  same-Aged seen i r last v e same =
      let i' : Idle = record i { coldest = i.coldest ++ r ∷ [] } in
      let keep : (q : Ref) → Noted i q → Noted i' q =
        λ q n. (n.0, λ u used. (is_nil-append i.coldest r, (n.1 u used).1)) in
      record {
        fresh = v.fresh;
        cold = All-append _ i.coldest r v.cold (rw (← same) e);
        noted =
            All-append (Noted i') seen r (All-map _ _ seen keep v.noted)
              (λ never. ground arith, λ u used. (is_nil-append i.coldest r, ground arith));
      }

  idle_seen-Aged :
      (seen : List Ref) (i : Idle) (r : Ref) (last : Time)
      → Aged seen i
      → last_use r ≡ some last
      → Aged (seen ++ r ∷ []) (idle_seen heap last_selected i r last)
  unfolding idle_seen
  idle_seen-Aged seen i r last v e = elim (Bool-cases (is_nil i.coldest || before last i.oldest)) [
    | inl colder ↦ rw (colder, idle_seen) (colder-Aged seen i r last v e colder)
    | inr warmer ↦ elim (Bool-cases (last == i.oldest)) [
      | inl same ↦ rw (warmer, same, idle_seen) (same-Aged seen i r last v e (ground arith))
      | inr later ↦
          rw (warmer, later, idle_seen)
            (record {
              fresh = v.fresh;
              cold = v.cold;
              noted =
                  All-append (Noted i) seen r v.noted
                    (λ never. ground arith, λ u used. (ground arith, ground arith));
            })
    ]
  ]

  unseen-Aged :
      (seen : List Ref) (i : Idle) (r : Ref)
      → Aged seen i
      → last_use r ≡ none
      → Aged (seen ++ r ∷ []) (record i { unseen = i.unseen ++ r ∷ [] })
  unseen-Aged seen i r v e =
      let i' : Idle = record i { unseen = i.unseen ++ r ∷ [] } in
      let keep : (q : Ref) → Noted i q → Noted i' q =
        λ q n. (λ never. is_nil-append i.unseen r, n.1) in
      record {
        fresh = All-append _ i.unseen r v.fresh e;
        cold = v.cold;
        noted =
            All-append (Noted i') seen r (All-map _ _ seen keep v.noted)
              (λ never. is_nil-append i.unseen r, λ u used. ground arith);
      }

  idle_step-Aged :
      (seen : List Ref) (i : Idle) (r : Ref)
      → Aged seen i
      → Aged (seen ++ r ∷ []) (idle_step heap last_selected i r)
  unfolding idle_step
  idle_step-Aged seen i r v = elim (Option-cases (last_use r)) [
    | inl e ↦ rw (e, idle_step) (unseen-Aged seen i r v e)
    | inr (last, e) ↦ rw (e, idle_step) (idle_seen-Aged seen i r last v e)
  ]

  idle_pass-Aged :
      (rs seen : List Ref) (i : Idle)
      → Aged seen i
      → Aged (seen ++ rs) (idle_pass heap last_selected i rs)
  unfolding idle_pass
  idle_pass-Aged [] seen i v = rw append-nil v
  idle_pass-Aged (r ∷ rs) seen i v = rw (← append_assoc seen (r ∷ []) rs) (
      idle_pass-Aged rs (seen ++ r ∷ []) (idle_step heap last_selected i r)
        (idle_step-Aged seen i r v))

  -- `q` has no better claim than `r`: if `r` was handed out before, so was `q`, and not earlier.
  abbrev pub NoOlder : Ref → Ref → Type 0
  NoOlder r q = (t : Time) → last_use r ≡ some t → (u : Time) × (last_use q ≡ some u) × (t ≤ u)

  All-always {ℓ} : (P : Ref → Type ℓ) (xs : List Ref) → ((x : Ref) → P x) → All P xs
  All-always P [] f = tt
  All-always P (x ∷ xs) f = (f x, All-always P xs f)

  cold-NoOlder :
      (best : List Ref) (i : Idle) (r : Ref)
      → is_nil i.unseen ≡ true
      → last_use r ≡ some i.oldest
      → All (Noted i) best
      → All (NoOlder r) best
  cold-NoOlder best i r none_unseen used = All-map _ _ best λ q n t e.
      elim (Option-cases (last_use q)) [
        | inl never ↦ absurd (let some_unseen = n.0 never in cc some_unseen)
        | inr (u, f) ↦ (u, f, ground (arith, n.1 u f))
      ]

  unaccounted :
      (i : Idle) (r : Ref) → is_nil i.unseen ≡ true → is_nil i.coldest ≡ true → Noted i r → ⊥
  unaccounted i r none_unseen none_cold n = elim (Option-cases (last_use r)) [
    | inl never ↦ let some_unseen = n.0 never in cc some_unseen
    | inr (u, used) ↦ let some_cold = (n.1 u used).0 in cc some_cold
  ]

  idle_step-All :
      (P : Ref → Type 0) (i : Idle) (r : Ref)
      → P r
      → All P i.unseen × All P i.coldest
      → All P (idle_step heap last_selected i r).unseen
        × All P (idle_step heap last_selected i r).coldest
  unfolding idle_step idle_seen
  idle_step-All P i r p v = elim (Option-cases (last_use r)) [
    | inl e ↦ rw (e, idle_step) (All-append P i.unseen r v.0 p, v.1)
    | inr (last, e) ↦ elim (Bool-cases (is_nil i.coldest || before last i.oldest)) [
      | inl colder ↦ rw (e, colder, idle_step, idle_seen) (v.0, (p, tt))
      | inr warmer ↦ elim (Bool-cases (last == i.oldest)) [
        | inl same ↦
            rw (e, warmer, same, idle_step, idle_seen) (v.0, All-append P i.coldest r v.1 p)
        | inr later ↦ rw (e, warmer, later, idle_step, idle_seen) v
      ]
    ]
  ]

  idle_pass-All :
      (P : Ref → Type 0) (rs : List Ref) (i : Idle)
      → All P rs
      → All P i.unseen × All P i.coldest
      → All P (idle_pass heap last_selected i rs).unseen
        × All P (idle_pass heap last_selected i rs).coldest
  unfolding idle_pass
  idle_pass-All P [] i h v = v
  idle_pass-All P (r ∷ rs) i h v =
      idle_pass-All P rs (idle_step heap last_selected i r) h.1 (idle_step-All P i r h.0 v)

  if-All :
      (P : Ref → Type 0) (b : Bool) (xs ys : List Ref)
      → All P xs
      → All P ys
      → All P (if b then xs else ys)
  if-All P true xs ys h k = h
  if-All P false xs ys h k = k

  -- The pool is part of the gathered list, and is not empty if that is not.
  pub idle_pool-All :
      (P : Ref → Type 0) (best : List Ref) → All P best → All P (idle_pool heap last_selected best)
  unfolding idle_pool
  idle_pool-All P best h =
      let i = idle_pass heap last_selected no_idle best in
      let v = idle_pass-All P best no_idle h (tt, tt) in
      if-All P (not (is_nil i.unseen)) i.unseen _ v.0
        (if-All P (not (is_nil i.coldest)) i.coldest best v.1 h)

  pub is_nil-idle_pool :
      (best : List Ref) → is_nil best ≡ false → is_nil (idle_pool heap last_selected best) ≡ false
  unfolding idle_pool
  is_nil-idle_pool best h = ground arith

  -- No account of the pool has a worse claim than any of the gathered ones.
  pub idle_pool-NoOlder :
      (best : List Ref) → All (λ r. All (NoOlder r) best) (idle_pool heap last_selected best)
  unfolding idle_pool
  idle_pool-NoOlder best =
      let i = idle_pass heap last_selected no_idle best in
      let v : Aged best i =
        idle_pass-Aged best [] no_idle (record { fresh = tt; cold = tt; noted = tt }) in
      elim (Bool-cases (is_nil i.unseen)) [
        | inr some_unseen ↦
            rw (some_unseen, idle_pool)
              (All-map _ _ i.unseen
                (λ r e. All-always (NoOlder r) best λ q t used. absurd (let both = used in cc both))
                v.fresh)
        | inl none_unseen ↦ elim (Bool-cases (is_nil i.coldest)) [
          | inr some_cold ↦
              rw (none_unseen, some_cold, idle_pool)
                (All-map _ _ i.coldest (λ r e. cold-NoOlder best i r none_unseen e v.noted) v.cold)
          | inl none_cold ↦
              rw (none_unseen, none_cold, idle_pool)
                (All-map _ _ best (λ r n. absurd (unaccounted i r none_unseen none_cold n)) v.noted)
        ]
      ]
