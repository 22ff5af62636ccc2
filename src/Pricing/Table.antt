-- ===== src/Pricing/Table.antt =====
-- internal/pricing/pricing.go: the official price table and how a model name finds its row.
use orchids_2api.Prelude.{
  String, Bool, true, false, ◌&&◌, ◌||◌, Option, none, some, List, [], ◌∷◌, leb, ◌==◌,
  if◌then◌else◌, ℕ, ◌≡◌, refl,
}
use Prim.Native.Char.{code}
use Prim.Native.String.{[], ◌∷◌, len}
use orchids_2api.Prelude.Int.{ℤ, pos}
use orchids_2api.Prelude.Text.{trim_space, to_lower, has_prefix, from_position}
use orchids_2api.Prelude.Assoc.{lookup, insert, string_eq}

-- tokenPrice
pub record TokenPrice : Type 0 where
  pub canonical_model : String
  pub input_ticks : ℤ
  pub cached_input_ticks : ℤ
  pub output_ticks : ℤ
  pub long_context_tokens : ℤ
  pub long_input_ticks : ℤ
  pub long_cached_ticks : ℤ
  pub long_output_ticks : ℤ

abbrev pub PriceTable : Type 0
PriceTable = List (String × TokenPrice)

-- buildOfficialTokenPrices, register
unfoldable pub register_names : TokenPrice → List String → PriceTable → PriceTable
register_names price [] prices = prices
register_names price (name ∷ names) prices = register_names price names (insert name price prices)

unfoldable pub register : String → TokenPrice → List String → PriceTable → PriceTable
unfolding register_names
register canonical price names prices =
    let row = record price { canonical_model = canonical } in
    register_names row names (insert canonical row prices)

-- buildOfficialTokenPrices, the rates: of a build, of 4.6, of 4.5, and the standard ones.
abbrev build_price : TokenPrice
build_price = record {
  canonical_model = "";
  input_ticks = pos 10000;
  cached_input_ticks = pos 2000;
  output_ticks = pos 20000;
  long_context_tokens = pos 200000;
  long_input_ticks = pos 20000;
  long_cached_ticks = pos 4000;
  long_output_ticks = pos 40000;
}

abbrev grok_46_price : TokenPrice
grok_46_price = record {
  canonical_model = "";
  input_ticks = pos 20000;
  cached_input_ticks = pos 5000;
  output_ticks = pos 60000;
  long_context_tokens = pos 200000;
  long_input_ticks = pos 40000;
  long_cached_ticks = pos 10000;
  long_output_ticks = pos 120000;
}

abbrev grok_45_price : TokenPrice
grok_45_price = record {
  canonical_model = "";
  input_ticks = pos 20000;
  cached_input_ticks = pos 3000;
  output_ticks = pos 60000;
  long_context_tokens = pos 200000;
  long_input_ticks = pos 40000;
  long_cached_ticks = pos 6000;
  long_output_ticks = pos 120000;
}

abbrev standard_price : TokenPrice
standard_price = record {
  canonical_model = "";
  input_ticks = pos 12500;
  cached_input_ticks = pos 2000;
  output_ticks = pos 25000;
  long_context_tokens = pos 200000;
  long_input_ticks = pos 25000;
  long_cached_ticks = pos 4000;
  long_output_ticks = pos 50000;
}

-- officialTokenPrices
unfoldable pub official_token_prices : PriceTable
unfolding register
official_token_prices =
    register "grok-4.20-0309-non-reasoning" standard_price
      ("grok-4.20-non-reasoning" ∷ "grok-4.20-non-reasoning-latest" ∷ "grok-4.20-beta-non-reasoning"
        ∷ "grok-4.20-beta-latest-non-reasoning" ∷ [])
      (register "grok-4.20-0309-reasoning" standard_price
        ("grok-4.20-reasoning-latest" ∷ "grok-4.20" ∷ "grok-4.20-reasoning" ∷ "grok-4.20-0309"
          ∷ "grok-4.20-beta" ∷ "grok-4.20-beta-0309" ∷ "grok-4.20-beta-latest"
          ∷ "grok-4.20-beta-reasoning" ∷ "grok-4.20-beta-latest-reasoning" ∷ [])
        (register "grok-4.20-multi-agent-0309" standard_price
          ("grok-4.20-multi-agent" ∷ "grok-4.20-multi-agent-latest"
            ∷ "grok-4.20-multi-agent-beta-latest" ∷ "grok-4.20-multi-agent-beta-0309" ∷ [])
          (register "grok-4.3" standard_price ("grok-4.3-latest" ∷ "grok-latest" ∷ []) (
            register "grok-4.5" grok_45_price ("grok-4.5-latest" ∷ "grok-build-latest" ∷ []) (
              register "grok-4.6" grok_46_price ("grok-4.6-latest" ∷ []) (
                register "grok-build-0.1" build_price
                  ("grok-code-fast-1" ∷ "grok-code-fast" ∷ "grok-code-fast-1-0825"
                    ∷ "grok-composer-2.5-fast" ∷ [])
                  []))))))

-- The regular expression `[a-z0-9.]`.
abbrev pub is_name_char : ℕ → Bool
is_name_char c = leb b'a' c && leb c b'z' || leb b'0' c && leb c b'9' || c == b'.'

-- The regular expression `(?:-[a-z0-9.]+)*$`. The flag says that a segment may end here.
segments : Bool → String → Bool
segments ended [] = ended
segments ended (c ∷ s) =
    let next = segments false s in
    let inside = segments true s in
    if code c == b'-' then ended && next else is_name_char (code c) && inside

unfoldable pub is_segments : String → Bool
unfolding segments
is_segments [] = true
is_segments (c ∷ s) = code c == b'-' && segments false s

-- The regular expression `(?:-[a-z0-9.]+)*-non-reasoning(?:-[a-z0-9.]+)*$`.
non_reasoning_from : Bool → String → Bool
unfolding is_segments
non_reasoning_from ended [] = false
non_reasoning_from ended (c ∷ s) =
    let next = non_reasoning_from false s in
    let inside = non_reasoning_from true s in
    ended
      && has_prefix (c ∷ s) "-non-reasoning"
      && is_segments (from_position (c ∷ s) (len "-non-reasoning"))
    || (if code c == b'-' then ended && next else is_name_char (code c) && inside)

unfoldable pub has_non_reasoning : String → Bool
unfolding non_reasoning_from
has_non_reasoning s = has_prefix s "-" && non_reasoning_from true s

-- officialTokenPriceRules: a literal at the start, and the form of what follows.
unfoldable pub matches : String → (String → Bool) → String → Bool
matches literal rest s = has_prefix s literal && rest (from_position s (len literal))

-- resolveOfficialTokenPrice, the family of a name
unfoldable pub family_model : String → Option String
unfolding matches is_segments has_non_reasoning
family_model s =
    if matches "grok-build-0.1" is_segments s
      || matches "grok-code-fast" is_segments s
      || matches "grok-code-fast-1" is_segments s
      || matches "grok-composer-2.5-fast" is_segments s
    then some "grok-build-0.1"
    else if matches "grok-4.6" is_segments s
    then some "grok-4.6"
    else if matches "grok-4.5" is_segments s
    then some "grok-4.5"
    else if matches "grok-4.3" is_segments s
    then some "grok-4.3"
    else if matches "grok-4.20-multi-agent" is_segments s
    then some "grok-4.20-multi-agent-0309"
    else if matches "grok-4.20" has_non_reasoning s
    then some "grok-4.20-0309-non-reasoning"
    else if matches "grok-4.20" is_segments s
    then some "grok-4.20-0309-reasoning"
    else none

-- normalizePricingModel
unfoldable pub normalize_pricing_model : String → String
unfolding trim_space to_lower
normalize_pricing_model model =
    let normalized = to_lower (trim_space model) in
    if has_prefix normalized "build/"
    then trim_space (from_position normalized (len "build/"))
    else if has_prefix normalized "grok_build/"
    then trim_space (from_position normalized (len "grok_build/"))
    else normalized

-- resolveOfficialTokenPrice
unfoldable pub resolve_normalized : String → Option TokenPrice
unfolding official_token_prices family_model
resolve_normalized normalized = elim (lookup normalized official_token_prices) [
  | some price ↦ some price
  | none ↦ elim (family_model normalized) [
    | none ↦ none
    | some canonical ↦ lookup canonical official_token_prices
  ]
]

unfoldable pub resolve_official_token_price : String → Option TokenPrice
unfolding normalize_pricing_model resolve_normalized
resolve_official_token_price model = resolve_normalized (normalize_pricing_model model)

-- The names of a family that the table does not hold find the row of the family.
family_test :
    (family_model "grok-4.20-beta-2-non-reasoning-x" ≡ some "grok-4.20-0309-non-reasoning")
    × (family_model "grok-4.20-non-reasoningx" ≡ some "grok-4.20-0309-reasoning")
    × (family_model "grok-4.20-" ≡ none)
    × (family_model "grok-code-fast-1-0825" ≡ some "grok-build-0.1")
unfolding family_model
family_test = (refl, refl, refl, refl)

normalize_test : normalize_pricing_model " Build/ Grok-4.5 " ≡ "grok-4.5"
unfolding normalize_pricing_model
normalize_test = refl
