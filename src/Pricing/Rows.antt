-- ===== src/Pricing/Rows.antt =====
-- What holds of every row of the price table.
use orchids_2api.Prelude.{
  ◌^◌, String, ◌≡◌, refl, ap, ◌∙◌, inl, inr, Bool, true, false, ◌&&◌, none, some, [], ◌∷◌, arith,
  Option-cases, str_eq,
}
use orchids_2api.Prelude.Int.{ℤ, pos, negsuc, ltb_ℤ, leb_ℤ, ◌≤ℤ◌, ◌<ℤ◌}
use orchids_2api.Prelude.Assoc.{lookup, insert, string_eq}
use text.Mathlib.TextEquality.{eq_iff}
use orchids_2api.Pricing.Table.{
  TokenPrice, PriceTable, official_token_prices, family_model, resolve_normalized,
  resolve_official_token_price, normalize_pricing_model,
}

-- The prices of one column are positive and below 2 ^ 17 ticks, and a cached token is the cheapest.
abbrev pub IsColumn : ℤ → ℤ → ℤ → Type 0
IsColumn input cached output =
    (pos 1 ≤ℤ cached)
    × (cached ≤ℤ input)
    × (input <ℤ pos (2 ^ 17))
    × (pos 1 ≤ℤ output)
    × (output <ℤ pos (2 ^ 17))

eqb_ℤ : ℤ → ℤ → Bool
eqb_ℤ a b = leb_ℤ a b && leb_ℤ b a

eqb_ℤ-path : (a b : ℤ) → eqb_ℤ a b ≡ true → a ≡ b
unfolding eqb_ℤ
eqb_ℤ-path (pos m) (pos n) h = ground arith
eqb_ℤ-path (pos m) (negsuc n) h = ground arith
eqb_ℤ-path (negsuc m) (pos n) h = ground arith
eqb_ℤ-path (negsuc m) (negsuc n) h = ground arith

same_price : TokenPrice → TokenPrice → Bool
same_price p q =
    str_eq p.canonical_model q.canonical_model
    && eqb_ℤ p.input_ticks q.input_ticks
    && eqb_ℤ p.cached_input_ticks q.cached_input_ticks
    && eqb_ℤ p.output_ticks q.output_ticks
    && eqb_ℤ p.long_context_tokens q.long_context_tokens
    && eqb_ℤ p.long_input_ticks q.long_input_ticks
    && eqb_ℤ p.long_cached_ticks q.long_cached_ticks
    && eqb_ℤ p.long_output_ticks q.long_output_ticks

same_price-path : (p q : TokenPrice) → same_price p q ≡ true → p ≡ q
unfolding same_price
same_price-path p q h =
    let name : p.canonical_model ≡ q.canonical_model =
      ground (arith, eq_iff p.canonical_model q.canonical_model) in
    let both : (a b : ℤ) → eqb_ℤ a b ≡ true → a ≡ b = eqb_ℤ-path in
    λ i. record {
      canonical_model = name i;
      input_ticks = both p.input_ticks q.input_ticks (ground arith) i;
      cached_input_ticks = both p.cached_input_ticks q.cached_input_ticks (ground arith) i;
      output_ticks = both p.output_ticks q.output_ticks (ground arith) i;
      long_context_tokens = both p.long_context_tokens q.long_context_tokens (ground arith) i;
      long_input_ticks = both p.long_input_ticks q.long_input_ticks (ground arith) i;
      long_cached_ticks = both p.long_cached_ticks q.long_cached_ticks (ground arith) i;
      long_output_ticks = both p.long_output_ticks q.long_output_ticks (ground arith) i;
    }

-- The test for IsColumn.
is_priced : ℤ → ℤ → ℤ → Bool
is_priced input cached output =
    leb_ℤ (pos 1) cached
    && leb_ℤ cached input
    && ltb_ℤ input (pos (2 ^ 17))
    && leb_ℤ (pos 1) output
    && ltb_ℤ output (pos (2 ^ 17))

-- Both columns are priced, the long one no lower, and the canonical name finds the row itself.
is_row : TokenPrice → Bool
is_row p =
    is_priced p.input_ticks p.cached_input_ticks p.output_ticks
    && is_priced p.long_input_ticks p.long_cached_ticks p.long_output_ticks
    && leb_ℤ p.input_ticks p.long_input_ticks
    && leb_ℤ p.cached_input_ticks p.long_cached_ticks
    && leb_ℤ p.output_ticks p.long_output_ticks
    && elim (resolve_official_token_price p.canonical_model) [
      | none ↦ false
      | some q ↦ same_price q p
    ]

are_rows : PriceTable → Bool
are_rows [] = true
are_rows ((name, p) ∷ rows) = is_row p && are_rows rows

are_rows-table : are_rows official_token_prices ≡ true
unfolding are_rows is_row official_token_prices resolve_official_token_price is_priced same_price
    eqb_ℤ insert lookup
are_rows-table = refl

lookup-is_row :
    (name : String) (p : TokenPrice) (rows : PriceTable)
    → are_rows rows ≡ true
    → lookup name rows ≡ some p
    → is_row p ≡ true
unfolding are_rows lookup
lookup-is_row name p [] h found = ground arith
lookup-is_row name p ((other, q) ∷ rows) h found =
    ground (arith, lookup-is_row name p rows, ap is_row)

resolve_normalized-is_row :
    (name : String) (p : TokenPrice) → resolve_normalized name ≡ some p → is_row p ≡ true
unfolding resolve_normalized
resolve_normalized-is_row name p h = elim (Option-cases (lookup name official_token_prices)) [
  | inl missing ↦ elim (Option-cases (family_model name)) [
    | inl unknown ↦
        absurd
          (let both : none ≡ some p = ground (arith, missing, unknown, h) in ground (arith, both))
    | inr (canonical, family) ↦
        lookup-is_row canonical p official_token_prices are_rows-table
          (ground (arith, missing, family, h))
  ]
  | inr (q, found) ↦
      lookup-is_row name p official_token_prices are_rows-table (ground (arith, found, h))
]

canonical-is_row :
    (p : TokenPrice) → is_row p ≡ true → resolve_official_token_price p.canonical_model ≡ some p
unfolding is_row
canonical-is_row p h = elim (Option-cases (resolve_official_token_price p.canonical_model)) [
  | inl missing ↦ ground (arith, h, missing)
  | inr (q, found) ↦ found ∙ ap some (same_price-path q p (ground (arith, h, found)))
]

-- Every resolved price has positive rates below 2 ^ 17 ticks in both columns, the long-context column
-- no lower than the other, a cached input token no dearer than another input token; and its canonical
-- name resolves to the same price.
pub resolve_official_token_price-IsRow :
    (model : String) (p : TokenPrice)
    → resolve_official_token_price model ≡ some p
    → IsColumn p.input_ticks p.cached_input_ticks p.output_ticks
      × IsColumn p.long_input_ticks p.long_cached_ticks p.long_output_ticks
      × ((p.input_ticks ≤ℤ p.long_input_ticks)
          × (p.cached_input_ticks ≤ℤ p.long_cached_ticks)
          × (p.output_ticks ≤ℤ p.long_output_ticks))
      × (resolve_official_token_price p.canonical_model ≡ some p)
unfolding resolve_official_token_price is_row is_priced
resolve_official_token_price-IsRow model p h =
    let row : is_row p ≡ true = resolve_normalized-is_row (normalize_pricing_model model) p h in
    (
      (ground arith, ground arith, ground arith, ground arith, ground arith),
      (ground arith, ground arith, ground arith, ground arith, ground arith),
      (ground arith, ground arith, ground arith),
      canonical-is_row p row,
    )
