-- ===== src/Tests/Pricing.antt =====
-- The theorems on prices, of a request with a long context.
use orchids_2api.Prelude.{String, ◌≡◌, refl, none, some, [], ◌∷◌, arith}
use orchids_2api.Prelude.Int.{ℤ, pos, negsuc, ◌≤ℤ◌}
use orchids_2api.Pricing.Table.{TokenPrice, resolve_official_token_price}
use orchids_2api.Pricing.{
  estimate_cost, Breakdown, Quantities, component_cached_input, component_uncached_input,
  component_output, reconstruct_breakdown, column,
}
use orchids_2api.Pricing.Rows.{IsColumn, resolve_official_token_price-IsRow}
use orchids_2api.Pricing.Agree.{
  estimate_cost-exact, estimated_ticks, reconstruct_breakdown-estimate,
}
use orchids_2api.Pricing.Breakdowns.{AddsUp}

abbrev grok_45_row : TokenPrice
grok_45_row = record {
  canonical_model = "grok-4.5";
  input_ticks = pos 20000;
  cached_input_ticks = pos 3000;
  output_ticks = pos 60000;
  long_context_tokens = pos 200000;
  long_input_ticks = pos 40000;
  long_cached_ticks = pos 6000;
  long_output_ticks = pos 120000;
}

resolve_official_token_price-IsRow_example :
    IsColumn (pos 20000) (pos 3000) (pos 60000)
    × IsColumn (pos 40000) (pos 6000) (pos 120000)
    × ((pos 20000 ≤ℤ pos 40000) × (pos 3000 ≤ℤ pos 6000) × (pos 60000 ≤ℤ pos 120000))
    × (resolve_official_token_price "grok-4.5" ≡ some grok_45_row)
unfolding resolve_official_token_price orchids_2api.Prelude.Assoc.lookup
    orchids_2api.Prelude.Assoc.insert
resolve_official_token_price-IsRow_example =
    resolve_official_token_price-IsRow "build/Grok-4.5-fast" grok_45_row refl

-- 250,000 input tokens, of which 50,000 are cached, at the prices of the long column.
estimate_cost-exact_example :
    estimate_cost "grok-4.5" (pos 250000) (pos 50000) (pos 1000) (pos 0)
    ≡ some (record { model = "grok-4.5"; cost_in_usd_ticks = pos 8420000000 })
unfolding resolve_official_token_price orchids_2api.Prelude.Assoc.lookup
    orchids_2api.Prelude.Assoc.insert column
estimate_cost-exact_example =
    estimate_cost-exact "grok-4.5" grok_45_row (pos 250000) (pos 50000) (pos 1000) (pos 0) refl
      (omega arith) (omega arith)

abbrev quantities : Quantities
quantities = record {
  input_tokens = pos 250000;
  cached_tokens = pos 50000;
  output_tokens = pos 1000;
  context_tokens = pos 0;
}

abbrev breakdown : Breakdown
breakdown = record {
  model = "grok-4.5";
  cost_in_usd_ticks = pos 8420000000;
  components =
      record {
        kind = component_uncached_input;
        quantity = pos 200000;
        unit_price_in_usd_ticks = pos 40000;
        cost_in_usd_ticks = pos 8000000000;
      }
      ∷ record {
        kind = component_cached_input;
        quantity = pos 50000;
        unit_price_in_usd_ticks = pos 6000;
        cost_in_usd_ticks = pos 300000000;
      }
      ∷ record {
        kind = component_output;
        quantity = pos 1000;
        unit_price_in_usd_ticks = pos 120000;
        cost_in_usd_ticks = pos 120000000;
      }
      ∷ [];
}

reconstruct_breakdown-estimate_example :
    AddsUp 8420000000 breakdown
    × (estimated_ticks (estimate_cost "grok-4.5" (pos 250000) (pos 50000) (pos 1000) (pos 0))
        ≡ some (pos 8420000000))
unfolding reconstruct_breakdown orchids_2api.Prelude.Assoc.lookup orchids_2api.Prelude.Assoc.insert
    orchids_2api.Prelude.Int64.sub_int64 orchids_2api.Prelude.Int64.add_int64
    orchids_2api.Prelude.Int64.wrap orchids_2api.Prelude.Int.◌-ℤ◌ orchids_2api.Prelude.Int.◌+ℤ◌
    orchids_2api.Prelude.Int64.mul_int64 orchids_2api.Prelude.Int.◌*ℤ◌
reconstruct_breakdown-estimate_example =
    reconstruct_breakdown-estimate "grok-4.5" quantities breakdown refl
      (omega arith, omega arith, omega arith)

-- The two functions read a name with two prefixes differently: one normalizes it twice.
prefix_test :
    (estimate_cost "build/build/grok-4.5" (pos 1000) (pos 0) (pos 0) (pos 0) ≡ none)
    × ((reconstruct_breakdown "build/build/grok-4.5" quantities).0
        ≡ some (record breakdown { model = "build/grok-4.5" }))
unfolding estimate_cost orchids_2api.Prelude.Assoc.lookup orchids_2api.Prelude.Assoc.insert
    reconstruct_breakdown orchids_2api.Prelude.Int64.sub_int64 orchids_2api.Prelude.Int64.add_int64
    orchids_2api.Prelude.Int64.wrap orchids_2api.Prelude.Int.◌-ℤ◌ orchids_2api.Prelude.Int.◌+ℤ◌
    orchids_2api.Prelude.Int64.mul_int64 orchids_2api.Prelude.Int.◌*ℤ◌
prefix_test = (refl, refl)
