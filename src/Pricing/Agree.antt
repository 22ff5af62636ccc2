-- ===== src/Pricing/Agree.antt =====
-- The estimate of a request's cost beside the lines that are reconstructed for it.
use orchids_2api.Prelude.{
  ℕ, ◌<◌, ◌^◌, String, ◌≡◌, refl, sym, ap, ◌∙◌, subst, inl, inr, ◌&&◌, Option, none, some, arith,
  if◌then◌else◌, Bool-cases, Option-cases,
}
use orchids_2api.Prelude.Int.{ℤ, pos, negsuc, ltb_ℤ, leb_ℤ, ◌<ℤ◌, pos_part}
use orchids_2api.Pricing.Table.{TokenPrice, normalize_pricing_model, resolve_official_token_price}
use orchids_2api.Pricing.{
  Result, column, estimate_cost, Breakdown, Quantities, break_down, reconstruct_breakdown,
}
use orchids_2api.Pricing.Rows.{IsColumn, resolve_official_token_price-IsRow}
use orchids_2api.Pricing.Exact.{exact_cost, cost_of-exact}
use orchids_2api.Pricing.Breakdowns.{IsInRange, AddsUp, break_down-AddsUp}

-- The three prices of a column that is in range, as natural numbers.
abbrev HasRates : ℤ × ℤ × ℤ → Type 0
HasRates prices =
    (a : ℕ) × (b : ℕ) × (c : ℕ) × (prices ≡ (pos a, pos b, pos c))
    × (a < 2 ^ 17)
    × (b < 2 ^ 17)
    × (c < 2 ^ 17)

IsColumn-HasRates : (x y z : ℤ) → IsColumn x y z → HasRates (x, y, z)
IsColumn-HasRates (pos a) (pos b) (pos c) h =
    (a, b, c, refl, ground arith, ground arith, ground arith)
IsColumn-HasRates (pos a) (pos b) (negsuc c) h = ground arith
IsColumn-HasRates (pos a) (negsuc b) z h = ground arith
IsColumn-HasRates (negsuc a) (pos b) z h = ground arith
IsColumn-HasRates (negsuc a) (negsuc b) z h = ground arith

column-HasRates :
    (model : String) (p : TokenPrice) (input context : ℤ)
    → resolve_official_token_price model ≡ some p
    → HasRates (column p input context)
unfolding column
column-HasRates model p input context h =
    let row = resolve_official_token_price-IsRow model p h in
    let context_tokens = if leb_ℤ context (pos 0) then input else context in
    elim (Bool-cases
      (ltb_ℤ (pos 0) p.long_context_tokens && ltb_ℤ p.long_context_tokens context_tokens)) [
        | inl long ↦
            rw long
              (IsColumn-HasRates p.long_input_ticks p.long_cached_ticks p.long_output_ticks row.1)
        | inr short ↦
            rw short (IsColumn-HasRates p.input_ticks p.cached_input_ticks p.output_ticks row.0)
      ]

-- Of a priced model and fewer than 2 ^ 44 input and output tokens, the cost is the sum of the three
-- products, in natural numbers, at the prices of the column that the context selects: no product and
-- no sum wraps around.
pub estimate_cost-exact :
    (model : String) (p : TokenPrice) (input cached output context : ℤ)
    → resolve_official_token_price model ≡ some p
    → input <ℤ pos (2 ^ 44)
    → output <ℤ pos (2 ^ 44)
    → estimate_cost model input cached output context
      ≡ some (record {
        model = p.canonical_model;
        cost_in_usd_ticks = pos (exact_cost (column p input context) input cached output);
      })
unfolding estimate_cost
estimate_cost-exact model p input cached output context h hi ho =
    let rates = column-HasRates model p input context h in
    rw (h, estimate_cost, rates.3)
      (ap (λ cost. some (record { model = p.canonical_model; cost_in_usd_ticks = cost }))
        (cost_of-exact rates.0 rates.1 rates.2 input cached output rates.4 rates.5 rates.6 hi ho))

abbrev pub estimated_ticks : Option Result → Option ℤ
estimated_ticks none = none
estimated_ticks (some result) = some result.cost_in_usd_ticks

-- Where a breakdown of int64 quantities below 2 ^ 44 is reconstructed, its lines add up to its cost,
-- and that is the cost that EstimateCost gives for the normalized name.
pub reconstruct_breakdown-estimate :
    (model : String) (q : Quantities) (b : Breakdown)
    → (reconstruct_breakdown model q).0 ≡ some b
    → IsInRange q
    → AddsUp (pos_part b.cost_in_usd_ticks) b
      × (estimated_ticks (
            estimate_cost
              (normalize_pricing_model model)
              q.input_tokens
              q.cached_tokens
              q.output_tokens
              q.context_tokens)
          ≡ some b.cost_in_usd_ticks)
unfolding reconstruct_breakdown
reconstruct_breakdown-estimate model q b h range =
    let name = normalize_pricing_model model in
    elim (Option-cases (resolve_official_token_price name)) [
      | inl unpriced ↦ ground (arith, h, unpriced)
      | inr (p, found) ↦
          let rates = column-HasRates name p q.input_tokens q.context_tokens found in
          let prices = column p q.input_tokens q.context_tokens in
          let total = exact_cost prices q.input_tokens q.cached_tokens q.output_tokens in
          let broken : break_down name prices q ≡ b = ground (arith, h, found) in
          let sums : AddsUp total b =
            subst (λ breakdown. AddsUp total breakdown) broken
              (subst
                (λ (x : ℤ × ℤ × ℤ).
                  AddsUp (exact_cost x q.input_tokens q.cached_tokens q.output_tokens)
                    (break_down name x q))
                (sym rates.3)
                (break_down-AddsUp name rates.0 rates.1 rates.2 q rates.4 rates.5 rates.6 range)) in
          (
            (ground (arith, sums.0), ground (arith, sums.0, sums.1)),
            ap estimated_ticks (
                  estimate_cost-exact name p q.input_tokens q.cached_tokens q.output_tokens
                    q.context_tokens found range.1 range.2)
                ∙ ap some (sym sums.0),
          )
    ]
