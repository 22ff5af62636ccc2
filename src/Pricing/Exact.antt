-- ===== src/Pricing/Exact.antt =====
-- The cost of a request as a sum of products, without wrap-around, and its lines.
use orchids_2api.Prelude.{ℕ, ◌+◌, ◌*◌, ◌-◌, ◌<◌, ◌^◌, ◌≤◌, min, ◌≡◌, refl, arith}
use native.Mathlib.Nat.{mul-le-mul}
use orchids_2api.Prelude.Int.{ℤ, pos, negsuc, ◌<ℤ◌, pos_part}
use orchids_2api.Prelude.Int64.{add_int64, mul_int64, add_int64-pos, sub_int64-pos, mul_int64-pos}
use orchids_2api.Pricing.{billed, billed_cached, billed_uncached, cost_of}

-- The cost of tokens at the prices of a column, in ticks.
abbrev pub exact_cost : ℤ × ℤ × ℤ → ℤ → ℤ → ℤ → ℕ
exact_cost prices input_tokens cached_tokens output_tokens =
    let input = pos_part input_tokens in
    let cached = min (pos_part cached_tokens) input in
    (input - cached) * pos_part prices.0
    + cached * pos_part prices.1
    + pos_part output_tokens * pos_part prices.2

pub product-bound : (q a : ℕ) → q < 2 ^ 44 → a < 2 ^ 17 → q * a < 2 ^ 61
product-bound q a h g =
    let most : q * a ≤ (2 ^ 44 - 1) * (2 ^ 17 - 1) =
      mul-le-mul {n₂ = 2 ^ 44 - 1} {m₂ = 2 ^ 17 - 1} (omega arith) (omega arith) in
    omega arith

-- The sum of three products that are in range.
sum-exact :
    (u k o a b c : ℕ)
    → u < 2 ^ 44
    → k < 2 ^ 44
    → o < 2 ^ 44
    → a < 2 ^ 17
    → b < 2 ^ 17
    → c < 2 ^ 17
    → add_int64
        (add_int64 (mul_int64 (pos u) (pos a)) (mul_int64 (pos k) (pos b)))
        (mul_int64 (pos o) (pos c))
      ≡ pos (u * a + k * b + o * c)
sum-exact u k o a b c hu hk ho ha hb hc =
    let first = product-bound u a hu ha in
    let second = product-bound k b hk hb in
    let third = product-bound o c ho hc in
    rw
      (
        mul_int64-pos u a (omega arith),
        mul_int64-pos k b (omega arith),
        mul_int64-pos o c (omega arith),
        add_int64-pos (u * a) (k * b) (omega arith),
        add_int64-pos (u * a + k * b) (o * c) (omega arith),
      )
      refl

pub billed-pos : (tokens : ℤ) → billed tokens ≡ pos (pos_part tokens)
unfolding billed
billed-pos (pos n) = ground arith
billed-pos (negsuc n) = ground arith

pub billed_cached-pos :
    (cached : ℤ) (n : ℕ) → billed_cached cached (pos n) ≡ pos (min (pos_part cached) n)
unfolding billed_cached
billed_cached-pos (pos m) n = ground arith
billed_cached-pos (negsuc m) n = ground arith

pub billed_uncached-pos :
    (n k : ℕ) → k ≤ n → n < 2 ^ 44 → billed_uncached (pos n) (pos k) ≡ pos (n - k)
unfolding billed_uncached
billed_uncached-pos n k h b = rw (sub_int64-pos n k h (omega arith)) (ground arith)

-- No price wraps around and the cost is the sum of the three products.
pub cost_of-exact :
    (a b c : ℕ) (input cached output : ℤ)
    → a < 2 ^ 17
    → b < 2 ^ 17
    → c < 2 ^ 17
    → input <ℤ pos (2 ^ 44)
    → output <ℤ pos (2 ^ 44)
    → cost_of (pos a, pos b, pos c) input cached output
      ≡ pos (exact_cost (pos a, pos b, pos c) input cached output)
unfolding cost_of
cost_of-exact a b c input cached output ha hb hc hi ho =
    let n = pos_part input in
    let k = min (pos_part cached) n in
    rw
      (
        billed-pos input,
        billed-pos output,
        billed_cached-pos cached n,
        billed_uncached-pos n k (ground arith) (ground arith),
      )
      (sum-exact (n - k) k (pos_part output) a b c (ground arith) (ground arith) (ground arith) ha
        hb hc)
