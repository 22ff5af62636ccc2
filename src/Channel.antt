-- ===== src/Channel.antt =====
-- internal/channel/channel.go: the providers that the gateway knows.
use orchids_2api.Prelude.{
  String, Bool, true, false, ◌||◌, List, [], ◌∷◌, Option, none, some, str_eq, if◌then◌else◌,
}
use orchids_2api.Prelude.Text.{to_lower, trim_space, equal_fold}

-- Definition, as far as Parse reads it: the key and the label.
pub record Definition : Type 0 where
  pub id : String
  pub label : String

-- definitions
abbrev pub definitions : List Definition
definitions =
    record { id = "workbuddy"; label = "WorkBuddy" }
    ∷ record { id = "qoder"; label = "Qoder" }
    ∷ record { id = "cline"; label = "Cline" }
    ∷ record { id = "grok"; label = "Grok" }
    ∷ []

parse_among : List Definition → String → Option String
parse_among [] value = none
parse_among (d ∷ ds) value =
    if str_eq value d.id || equal_fold value d.label then some d.id else parse_among ds value

-- Parse
unfoldable pub parse : String → Option String
unfolding parse_among
parse value = parse_among definitions (to_lower (trim_space value))

-- IsSupported
unfoldable pub is_supported : String → Bool
unfolding parse
is_supported value = elim (parse value) [ none ↦ false | some d ↦ true ]
