-- ===== src/Pricing/Breakdowns.antt =====
-- The lines of a reconstructed price add up to the cost that was estimated.
use orchids_2api.Prelude.{
  ℕ, zero, suc, ◌+◌, ◌*◌, ◌-◌, ◌<◌, ◌^◌, ◌≤◌, min, String, ◌≡◌, refl, ap, ◌∙◌, subst, List, [], ◌∷◌,
  ◌++◌, arith,
}
use native.Mathlib.Nat.{zero-mul, mul-zero, zero-add}
use orchids_2api.Prelude.Int.{ℤ, pos, negsuc, ◌<ℤ◌, ◌-ℤ◌, pos_part, neg_part}
use orchids_2api.Prelude.Int64.{
  wrap, wrap_negsuc, add_int64, sub_int64, mul_int64, max_ℤ, add_int64-pos, mul_int64-pos,
}
use orchids_2api.Pricing.{
  billed_cached, billed_uncached, ComponentKind, Component, component_uncached_input,
  component_cached_input, component_output, Breakdown, Quantities, add_component, break_down,
}
use orchids_2api.Pricing.Exact.{
  exact_cost, product-bound, billed-pos, billed_cached-pos, billed_uncached-pos,
}

-- The costs of the lines, added up.
abbrev pub total_of : List Component → ℕ
total_of [] = 0
total_of (c ∷ components) = pos_part c.cost_in_usd_ticks + total_of components

total_of-append : (l k : List Component) → total_of (l ++ k) ≡ total_of l + total_of k
total_of-append [] k = ground arith
total_of-append (c ∷ l) k = ground (arith, total_of-append l k)

-- The tokens are int64 numbers below 2 ^ 44.
abbrev pub IsInRange : Quantities → Type 0
IsInRange q =
    (neg_part q.input_tokens ≤ 2 ^ 63)
    × (q.input_tokens <ℤ pos (2 ^ 44))
    × (q.output_tokens <ℤ pos (2 ^ 44))

billed_cached-exact :
    (cached input : ℤ) → billed_cached cached input ≡ pos (min (pos_part cached) (pos_part input))
unfolding billed_cached
billed_cached-exact cached (pos n) = billed_cached-pos cached n
billed_cached-exact (pos m) (negsuc n) = ground arith
billed_cached-exact (negsuc m) (negsuc n) = ground arith

billed_uncached-exact :
    (input : ℤ) (k : ℕ)
    → neg_part input ≤ 2 ^ 63
    → input <ℤ pos (2 ^ 44)
    → k ≤ pos_part input
    → billed_uncached input (pos k) ≡ pos (pos_part input - k)
unfolding billed_uncached sub_int64 ◌-ℤ◌
billed_uncached-exact (pos n) k low high h = billed_uncached-pos n k h (omega arith)
billed_uncached-exact (negsuc n) k low high h =
    let difference : negsuc n -ℤ pos k ≡ negsuc n = ground arith in
    let exact : sub_int64 (negsuc n) (pos k) ≡ negsuc n =
      ap wrap difference ∙ wrap_negsuc n (omega arith) in
    ap (max_ℤ (pos 0)) exact ∙ ground arith

-- The breakdown has this total, and its lines add up to it.
abbrev pub AddsUp : ℕ → Breakdown → Type 0
AddsUp total b = (b.cost_in_usd_ticks ≡ pos total) × (total_of b.components ≡ total)

add_component-AddsUp :
    (kind : ComponentKind) (q a t : ℕ) (b : Breakdown)
    → q * a < 2 ^ 61
    → t < 2 ^ 62
    → AddsUp t b
    → AddsUp (t + q * a) (add_component kind (pos q) (pos a) b)
unfolding add_component
add_component-AddsUp kind zero a t b h g sums = ground (arith, sums.0, sums.1, zero-mul a)
add_component-AddsUp kind (suc q) zero t b h g sums =
    ground (arith, sums.0, sums.1, mul-zero (suc q))
add_component-AddsUp kind (suc q) (suc a) t b h g sums =
    let cost : mul_int64 (pos (suc q)) (pos (suc a)) ≡ pos (suc q * suc a) =
      mul_int64-pos (suc q) (suc a) (omega arith) in
    let line : Component = record {
      kind = kind;
      quantity = pos (suc q);
      unit_price_in_usd_ticks = pos (suc a);
      cost_in_usd_ticks = mul_int64 (pos (suc q)) (pos (suc a));
    } in
    let total : add_int64 b.cost_in_usd_ticks (mul_int64 (pos (suc q)) (pos (suc a)))
        ≡ pos (t + suc q * suc a) =
      ap (λ x. add_int64 x (mul_int64 (pos (suc q)) (pos (suc a)))) sums.0
      ∙ ap (add_int64 (pos t)) cost
      ∙ add_int64-pos t (suc q * suc a) (omega arith) in
    (
      ground (arith, total),
      ground (arith, total_of-append b.components (line ∷ []), ap pos_part cost, sums.1),
    )

pub break_down-AddsUp :
    (name : String) (a b c : ℕ) (q : Quantities)
    → a < 2 ^ 17
    → b < 2 ^ 17
    → c < 2 ^ 17
    → IsInRange q
    → AddsUp
        (exact_cost (pos a, pos b, pos c) q.input_tokens q.cached_tokens q.output_tokens)
        (break_down name (pos a, pos b, pos c) q)
unfolding break_down
break_down-AddsUp name a b c q ha hb hc h =
    let n = pos_part q.input_tokens in
    let k = min (pos_part q.cached_tokens) n in
    let o = pos_part q.output_tokens in
    let uncached : n - k < 2 ^ 44 = ground arith in
    let first = product-bound (n - k) a uncached ha in
    let second = product-bound k b (ground arith) hb in
    let third = product-bound o c (ground arith) hc in
    rw
      (
        billed-pos q.output_tokens,
        billed_cached-exact q.cached_tokens q.input_tokens,
        billed_uncached-exact q.input_tokens k h.0 h.1 (ground arith),
      )
      (add_component-AddsUp component_output o c ((n - k) * a + k * b) _ third (omega arith) (
        add_component-AddsUp component_cached_input k b ((n - k) * a) _ second (omega arith) (
          subst
            (λ total. AddsUp total (
              add_component component_uncached_input (pos (n - k)) (pos a)
                (record { model = name; cost_in_usd_ticks = pos 0; components = [] })))
            (zero-add ((n - k) * a))
            (add_component-AddsUp component_uncached_input (n - k) a 0
              (record { model = name; cost_in_usd_ticks = pos 0; components = [] }) first
              (omega arith)
              (let empty : AddsUp 0
                    (record { model = name; cost_in_usd_ticks = pos 0; components = [] }) =
                  (refl, refl) in
                empty)))))
