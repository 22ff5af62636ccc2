-- ===== src/Tests/Cooldown.antt =====
-- The theorems on the model cooldowns, on some maps.
use orchids_2api.Prelude.{◌+◌, ◌-◌, ◌*◌, String, ◌≡◌, refl, some, List, [], ◌∷◌, arith}
use orchids_2api.Prelude.Int.{pos}
use orchids_2api.Prelude.Text.{trim_space}
use orchids_2api.Prelude.Time.{Time, second, minute, hour}
use orchids_2api.Prelude.Assoc.{lookup, string_eq, nat_eq}
use orchids_2api.Cooldown.{
  merge_model_cooldowns, merge_model_cooldown_reasons, record_model_cooldown_with_reason,
  model_cooldown_remaining, model_cooldown_kind, cooldown_label,
}
use orchids_2api.Cooldown.Merge.{merge-latest}
use orchids_2api.Cooldown.Record.{record-remaining, record-kind}
use orchids_2api.Cooldown.Reasons.{merged_reason_is_live, Labelled}
use orchids_2api.Tests.Samples.{noon, grok_account}

abbrev stored : List (String × Time)
stored = ("grok-4", noon + minute) ∷ ("grok-3", noon - minute) ∷ []

abbrev incoming : List (String × Time)
incoming = (" grok-4 ", noon + hour) ∷ ("grok-5", noon + second) ∷ []

merge-latest_example :
    lookup "grok-4" (merge_model_cooldowns noon stored incoming) ≡ some (noon + hour)
unfolding trim_space
merge-latest_example = merge-latest noon "grok-4" stored incoming refl

record-remaining_example :
    model_cooldown_remaining
      (record_model_cooldown_with_reason noon grok_account " grok-4" (noon + hour) "throttled")
      "grok-4"
      (noon + minute)
    ≡ pos (59 * minute)
unfolding trim_space model_cooldown_remaining lookup
record-remaining_example =
    record-remaining noon (noon + minute) grok_account " grok-4" "grok-4" (noon + hour) "throttled"
      (omega arith)

record-kind_example :
    model_cooldown_kind
      (record_model_cooldown_with_reason noon grok_account "grok-4" (noon + second) "throttled")
      "grok-4"
      noon
    ≡ "unavailable"
unfolding trim_space lookup model_cooldown_kind model_cooldown_remaining
    orchids_2api.Cooldown.known_model_cooldown_reason
record-kind_example =
    record-kind noon noon grok_account "grok-4" "grok-4" (noon + second) "throttled" (omega arith)
      (omega arith)

merged_reason_is_live_example : Labelled noon stored incoming "grok-4" (
    merge_model_cooldown_reasons noon stored incoming
      (("grok-4", "throttled") ∷ [])
      (("grok-4", "unavailable") ∷ []))
merged_reason_is_live_example =
    merged_reason_is_live noon stored incoming "grok-4" (("grok-4", "throttled") ∷ [])
      (("grok-4", "unavailable") ∷ [])
