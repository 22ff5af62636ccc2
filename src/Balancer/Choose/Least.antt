-- ===== src/Balancer/Choose/Least.antt =====
-- The accounts that the load pass gathers are least loaded (internal/loadbalancer/loadbalancer.go,
-- selectAccountWithTracker).
use orchids_2api.Prelude.{
  ℕ, ◌*◌, ◌≤◌, ◌<◌, ◌≡◌, refl, sym, ◌∙◌, ◌⊎◌, inl, inr, Bool, true, false, ◌||◌, List, [], ◌∷◌,
  ◌++◌, arith, Bool-cases, All, Exists, here, there,
}
use orchids_2api.Prelude.Assoc.{string_eq, nat_eq}
use native.Mathlib.Nat.{le_of_mul-le-mul_right, mul-le-mul_right, le_refl}
use mathlib.Core.List.{append-nil, append_assoc}
use orchids_2api.Account.{Account}
use orchids_2api.Balancer.State.{Ref, is_nil}
use orchids_2api.Balancer.Choose.{
  Score, score_lt, score_eq, score_of, is_full, effective_weight, gather, gather_best,
}

-- a / v ≤ b / w, for scores.
abbrev pub ScoreLe : Score → Score → Type 0
ScoreLe a b = a.conns * b.weight ≤ b.conns * a.weight

pub ScoreLe-trans : (a b c : Score) → 0 < b.weight → ScoreLe a b → ScoreLe b c → ScoreLe a c
ScoreLe-trans a b c p h k =
    le_of_mul-le-mul_right {k = b.weight}
      (omega (arith, mul-le-mul_right c.weight h, mul-le-mul_right a.weight k)) p

pub All-append {ℓ} :
    {A : Type 0} (P : A → Type ℓ) (xs : List A) (x : A) → All P xs → P x → All P (xs ++ x ∷ [])
All-append P [] x h p = (p, tt)
All-append P (y ∷ ys) x h p = (h.0, All-append P ys x h.1 p)

pub All-map {ℓ} :
    {A : Type 0} (P Q : A → Type ℓ) (xs : List A) → ((x : A) → P x → Q x) → All P xs → All Q xs
All-map P Q [] f h = tt
All-map P Q (y ∷ ys) f h = (f y h.0, All-map P Q ys f h.1)

module _ (heap : Ref → Account) (conns : ℕ → ℕ) where
  pub weight-pos : (r : Ref) → 0 < (score_of heap conns r).weight
  unfolding score_of effective_weight
  weight-pos r = ground arith

  -- A gathered account has room and the score of the pass.
  abbrev pub Fits : Score → Ref → Type 0
  Fits m b =
      (is_full heap conns b ≡ false)
      × ScoreLe (score_of heap conns b) m
      × ScoreLe m (score_of heap conns b)

  -- An account that was looked at is full, or the pass has a score that is no worse.
  abbrev pub Covered : Bool → Score → Ref → Type 0
  Covered none_yet m q =
      (is_full heap conns q ≡ true) ⊎ ((none_yet ≡ false) × ScoreLe m (score_of heap conns q))

  -- An account with room that is as little loaded as the gathered ones is one of them.
  abbrev pub Kept : List Ref → Score → Ref → Type 0
  Kept best m q =
      is_full heap conns q ≡ false → ScoreLe (score_of heap conns q) m → Exists (λ b. b ≡ q) best

  abbrev pub Seen : List Ref × Score → Ref → Type 0
  Seen g q = Covered (is_nil g.0) g.1 q × Kept g.0 g.1 q

  -- What holds between two rounds of the load pass.
  pub record Gathered (seen : List Ref) (g : List Ref × Score) : Type 0 where
    pub positive : 0 < g.1.weight
    pub fit : All (Fits g.1) g.0
    pub looked : All (Seen g) seen

  -- A gathered account is no less loaded than the pass says, so none is strictly better.
  no_better :
      (best : List Ref) (m : Score) (r q : Ref)
      → 0 < m.weight
      → (is_nil best || score_lt (score_of heap conns r) m) ≡ true
      → Covered (is_nil best) m q
      → is_full heap conns q ≡ false
      → ScoreLe (score_of heap conns q) (score_of heap conns r)
      → ⊥
  no_better best m r q p better (inl full) room le = cc
  no_better best m r q p better (inr (some_yet, least)) room le =
      let back : ScoreLe m (score_of heap conns r) =
        ScoreLe-trans m (score_of heap conns q) (score_of heap conns r) (weight-pos q) least le in
      ground arith

  better-Seen :
      (best : List Ref) (m : Score) (r q : Ref)
      → 0 < m.weight
      → (is_nil best || score_lt (score_of heap conns r) m) ≡ true
      → Seen (best, m) q
      → Seen (r ∷ [], score_of heap conns r) q
  better-Seen best m r q p better (inl full, k) =
      (inl full, λ room le. absurd (let both : true ≡ false = sym full ∙ room in cc both))
  better-Seen best m r q p better (inr (some_yet, le), k) = (
    inr (refl, ScoreLe-trans (score_of heap conns r) m (score_of heap conns q) p (ground arith) le),
    λ room le'. absurd (no_better best m r q p better (inr (some_yet, le)) room le'),
  )

  better-Gathered :
      (seen best : List Ref) (m : Score) (r : Ref)
      → Gathered seen (best, m)
      → is_full heap conns r ≡ false
      → (is_nil best || score_lt (score_of heap conns r) m) ≡ true
      → Gathered (seen ++ r ∷ []) (r ∷ [], score_of heap conns r)
  better-Gathered seen best m r v room better = record {
    positive = weight-pos r;
    fit = ((room, le_refl _, le_refl _), tt);
    looked =
        All-append _ seen r
          (All-map _ _ seen (λ q. better-Seen best m r q v.positive better) v.looked)
          (inr (refl, le_refl _), λ open_room le. here refl);
  }

  nonnil-append : (xs : List Ref) (x : Ref) → is_nil (xs ++ x ∷ []) ≡ false
  nonnil-append [] x = refl
  nonnil-append (y ∷ ys) x = refl

  Exists-left :
      (xs : List Ref) (x q : Ref) → Exists (λ b. b ≡ q) xs → Exists (λ b. b ≡ q) (xs ++ x ∷ [])
  Exists-left [] x q h = elim h [ ]
  Exists-left (y ∷ ys) x q (here e) = here e
  Exists-left (y ∷ ys) x q (there e) = there (Exists-left ys x q e)

  Exists-last : (xs : List Ref) (x : Ref) → Exists (λ b. b ≡ x) (xs ++ x ∷ [])
  Exists-last [] x = here refl
  Exists-last (y ∷ ys) x = there (Exists-last ys x)

  equal-Gathered :
      (seen best : List Ref) (m : Score) (r : Ref)
      → Gathered seen (best, m)
      → is_full heap conns r ≡ false
      → is_nil best ≡ false
      → score_eq (score_of heap conns r) m ≡ true
      → Gathered (seen ++ r ∷ []) (best ++ r ∷ [], m)
  equal-Gathered seen best m r v room some_yet equal = record {
    positive = v.positive;
    fit = All-append (Fits m) best r v.fit (room, ground arith, ground arith);
    looked =
        All-append (Seen (best ++ r ∷ [], m)) seen r
          (All-map _ _ seen
            (λ q (c, k). (
              elim c [ inl full ↦ inl full | inr (nn, le) ↦ inr (nonnil-append best r, le) ],
              λ open_room le. Exists-left best r q (k open_room le),
            ))
            v.looked)
          (inr (nonnil-append best r, ground arith), λ open_room le. Exists-last best r);
  }

  gather-Gathered :
      (seen : List Ref) (g : List Ref × Score) (r : Ref)
      → Gathered seen g
      → Gathered (seen ++ r ∷ []) (gather heap conns g r)
  unfolding gather
  gather-Gathered seen (best, m) r v = elim (Bool-cases (is_full heap conns r)) [
    | inl full ↦
        rw (full, gather)
          (record {
            positive = v.positive;
            fit = v.fit;
            looked = All-append _ seen r v.looked (
              inl full,
              λ room le. absurd (let both : true ≡ false = sym full ∙ room in cc both),
            );
          })
    | inr room ↦ elim (Bool-cases (is_nil best || score_lt (score_of heap conns r) m)) [
      | inl better ↦ rw (room, better, gather) (better-Gathered seen best m r v room better)
      | inr worse ↦ elim (Bool-cases (score_eq (score_of heap conns r) m)) [
        | inl equal ↦
            rw (room, worse, equal, gather)
              (equal-Gathered seen best m r v room (ground arith) equal)
        | inr other ↦
            rw (room, worse, other, gather)
              (record {
                positive = v.positive;
                fit = v.fit;
                looked =
                    All-append _ seen r v.looked
                      (inr (ground arith, ground arith), λ open_room le. absurd (ground arith));
              })
      ]
    ]
  ]

  -- The gathered list is what the load pass returns over all candidates.
  pub gather_best-Gathered :
      (rs seen : List Ref) (g : List Ref × Score)
      → Gathered seen g
      → Gathered (seen ++ rs) (gather_best heap conns g rs)
  unfolding gather_best
  gather_best-Gathered [] seen g v = rw append-nil v
  gather_best-Gathered (r ∷ rs) seen g v = rw (← append_assoc seen (r ∷ []) rs) (
      gather_best-Gathered rs (seen ++ r ∷ []) (gather heap conns g r) (gather-Gathered seen g r v))
