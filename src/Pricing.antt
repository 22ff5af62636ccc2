-- ===== src/Pricing.antt =====
-- internal/pricing/pricing.go: the price of a finished request, and the lines it is made of.
pub mod Table
pub mod Exact
pub mod Rows
pub mod Breakdowns
pub mod Agree
use orchids_2api.Prelude.{
  String, Bool, ◌||◌, ◌&&◌, Option, none, some, List, [], ◌∷◌, ◌++◌, if◌then◌else◌,
}
use orchids_2api.Prelude.Int.{ℤ, pos, ltb_ℤ, leb_ℤ}
use orchids_2api.Prelude.Int64.{add_int64, sub_int64, mul_int64, min_ℤ, max_ℤ}
use orchids_2api.Pricing.Table.{TokenPrice, normalize_pricing_model, resolve_official_token_price}

-- Result
pub record Result : Type 0 where
  pub model : String
  pub cost_in_usd_ticks : ℤ

-- EstimateCost and ReconstructBreakdown, the choice of the column: the prices of an input, a cached
-- input and an output token.
unfoldable pub column : TokenPrice → ℤ → ℤ → ℤ × ℤ × ℤ
column price input_tokens context_input_tokens =
    let context_tokens =
      if leb_ℤ context_input_tokens (pos 0) then input_tokens else context_input_tokens in
    if ltb_ℤ (pos 0) price.long_context_tokens && ltb_ℤ price.long_context_tokens context_tokens
    then (price.long_input_ticks, price.long_cached_ticks, price.long_output_ticks)
    else (price.input_ticks, price.cached_input_ticks, price.output_ticks)

-- EstimateCost and ReconstructBreakdown, the tokens that are billed: none below zero, and the cached
-- ones among those of the input.
unfoldable pub billed : ℤ → ℤ
billed tokens = max_ℤ (pos 0) tokens

unfoldable pub billed_cached : ℤ → ℤ → ℤ
billed_cached cached input = max_ℤ (pos 0) (min_ℤ cached input)

unfoldable pub billed_uncached : ℤ → ℤ → ℤ
billed_uncached input cached = max_ℤ (pos 0) (sub_int64 input cached)

-- EstimateCost
unfoldable pub cost_of : ℤ × ℤ × ℤ → ℤ → ℤ → ℤ → ℤ
unfolding billed billed_cached billed_uncached
cost_of prices input_tokens cached_input_tokens output_tokens =
    let input = billed input_tokens in
    let cached = billed_cached cached_input_tokens input in
    let uncached = billed_uncached input cached in
    let output = billed output_tokens in
    add_int64 (add_int64 (mul_int64 uncached prices.0) (mul_int64 cached prices.1))
      (mul_int64 output prices.2)

unfoldable pub estimate_cost : String → ℤ → ℤ → ℤ → ℤ → Option Result
unfolding column cost_of resolve_official_token_price
estimate_cost model input_tokens cached_input_tokens output_tokens context_input_tokens =
    elim (resolve_official_token_price model) [
      | none ↦ none
      | some price ↦ some (record {
        model = price.canonical_model;
        cost_in_usd_ticks =
            cost_of (column price input_tokens context_input_tokens) input_tokens
              cached_input_tokens output_tokens;
      })
    ]

-- ComponentKind and Unit, those of a text request
pub data ComponentKind : Type 0 where
  component_uncached_input : ComponentKind
  component_cached_input : ComponentKind
  component_output : ComponentKind

-- Component; every unit is a token.
pub record Component : Type 0 where
  pub kind : ComponentKind
  pub quantity : ℤ
  pub unit_price_in_usd_ticks : ℤ
  pub cost_in_usd_ticks : ℤ

-- Breakdown
pub record Breakdown : Type 0 where
  pub model : String
  pub cost_in_usd_ticks : ℤ
  pub components : List Component

-- Breakdown.add
unfoldable pub add_component : ComponentKind → ℤ → ℤ → Breakdown → Breakdown
add_component kind quantity unit_price b =
    if leb_ℤ quantity (pos 0) || leb_ℤ unit_price (pos 0)
    then b
    else let cost = mul_int64 quantity unit_price in
      record b {
        components =
            b.components
            ++ (record {
              kind = kind;
              quantity = quantity;
              unit_price_in_usd_ticks = unit_price;
              cost_in_usd_ticks = cost;
            }
                ∷ []);
        cost_in_usd_ticks = add_int64 b.cost_in_usd_ticks cost;
      }

-- Quantities, those of a text request
pub record Quantities : Type 0 where
  pub input_tokens : ℤ
  pub cached_tokens : ℤ
  pub output_tokens : ℤ
  pub context_tokens : ℤ

-- ReconstructBreakdown: the lines of a price.
unfoldable pub break_down : String → ℤ × ℤ × ℤ → Quantities → Breakdown
unfolding add_component billed billed_cached billed_uncached
break_down normalized prices q =
    let cached = billed_cached q.cached_tokens q.input_tokens in
    let uncached = billed_uncached q.input_tokens cached in
    add_component component_output (billed q.output_tokens) prices.2 (
      add_component component_cached_input cached prices.1 (
        add_component component_uncached_input uncached prices.0
          (record { model = normalized; cost_in_usd_ticks = pos 0; components = [] })))

unfoldable pub reconstruct_breakdown : String → Quantities → Option Breakdown × Bool
unfolding column break_down normalize_pricing_model resolve_official_token_price
reconstruct_breakdown model q =
    let normalized = normalize_pricing_model model in
    elim (resolve_official_token_price normalized) [
      | none ↦ (none, Bool.false)
      | some price ↦
          let breakdown = break_down normalized (column price q.input_tokens q.context_tokens) q in
          (some breakdown, ltb_ℤ (pos 0) breakdown.cost_in_usd_ticks)
    ]
