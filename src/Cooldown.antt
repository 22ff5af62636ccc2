-- ===== src/Cooldown.antt =====
-- internal/store/account_cooldown.go: the per-model cooldowns of one account. `now` is the clock
-- that the Go function reads.
pub mod Merge
pub mod Record
pub mod Reasons
use orchids_2api.Prelude.{
  ℕ, String, Bool, true, false, ◌&&◌, ◌||◌, not, List, [], ◌∷◌, Option, none, some, str_eq,
  if◌then◌else◌,
}
use orchids_2api.Prelude.Int.{ℤ, pos, negsuc, ltb_ℤ, leb_ℤ}
use orchids_2api.Prelude.Text.{is_empty, trim_space}
use orchids_2api.Prelude.Time.{Time, Duration, is_zero, after, sub}
use orchids_2api.Prelude.Assoc.{lookup, insert, string_eq}
use orchids_2api.Account.{
  Account, ModelCooldownReason, model_cooldown_throttled, model_cooldown_unavailable,
  model_cooldown_entitlement_floor,
}

-- A deadline that is set and has not passed.
abbrev pub is_live : Time → Time → Bool
is_live now until = not (is_zero until) && after until now

-- The body of the loop of mergeModelCooldowns.
unfoldable pub merge_deadline : Time → List (String × Time) → String → Time → List (String × Time)
merge_deadline now merged model until =
    let name = trim_space model in
    if is_empty name || not (is_live now until) then merged else elim (lookup name merged) [
      | none ↦ insert name until merged
      | some current ↦ if after until current then insert name until merged else merged
    ]

unfoldable pub merge_source :
    Time → List (String × Time) → List (String × Time) → List (String × Time)
unfolding merge_deadline
merge_source now merged [] = merged
merge_source now merged ((model, until) ∷ source) =
    merge_source now (merge_deadline now merged model until) source

-- mergeModelCooldowns
unfoldable pub merge_model_cooldowns :
    Time → List (String × Time) → List (String × Time) → List (String × Time)
unfolding merge_source
merge_model_cooldowns now existing incoming =
    merge_source now (merge_source now [] existing) incoming

-- knownModelCooldownReason
unfoldable pub known_model_cooldown_reason : ModelCooldownReason → ModelCooldownReason
known_model_cooldown_reason reason =
    if str_eq reason model_cooldown_throttled || str_eq reason model_cooldown_unavailable
    then reason
    else ""

-- A Go map read: the zero value where the key is missing.
abbrev pub deadline_or_zero : Option Time → Time
deadline_or_zero none = 0
deadline_or_zero (some t) = t

abbrev pub reason_or_empty : Option ModelCooldownReason → ModelCooldownReason
reason_or_empty none = ""
reason_or_empty (some r) = r

unfoldable pub put_known :
    String
    → ModelCooldownReason
    → List (String × ModelCooldownReason)
    → List (String × ModelCooldownReason)
put_known name reason merged =
    let known = known_model_cooldown_reason reason in
    if is_empty known then merged else insert name known merged

module _ (now : Time) (existing_until incoming_until : List (String × Time)) where
  -- The first loop of mergeModelCooldownReasons.
  unfoldable pub merge_existing_reasons :
      List (String × ModelCooldownReason)
      → List (String × ModelCooldownReason)
      → List (String × ModelCooldownReason)
  unfolding put_known
  merge_existing_reasons merged [] = merged
  merge_existing_reasons merged ((model, reason) ∷ rest) =
      let name = trim_space model in
      let until = deadline_or_zero (lookup name existing_until) in
      merge_existing_reasons
        (if is_empty name || not (is_live now until) then merged else put_known name reason merged)
        rest

  -- The stored deadline outlasts the incoming one.
  unfoldable pub stored_outlasts : String → Time → Bool
  stored_outlasts name until = elim (lookup name existing_until) [
    | none ↦ false
    | some stored ↦ after stored until
  ]

  -- The second loop of mergeModelCooldownReasons.
  unfoldable pub merge_incoming_reasons :
      List (String × ModelCooldownReason)
      → List (String × ModelCooldownReason)
      → List (String × ModelCooldownReason)
  unfolding put_known stored_outlasts
  merge_incoming_reasons merged [] = merged
  merge_incoming_reasons merged ((model, reason) ∷ rest) =
      let name = trim_space model in
      let until = deadline_or_zero (lookup name incoming_until) in
      merge_incoming_reasons
        (if is_empty name || not (is_live now until)
          then merged
          else if stored_outlasts name until
          then merged
          else put_known name reason merged)
        rest

  -- mergeModelCooldownReasons
  unfoldable pub merge_model_cooldown_reasons :
      List (String × ModelCooldownReason)
      → List (String × ModelCooldownReason)
      → List (String × ModelCooldownReason)
  unfolding merge_existing_reasons merge_incoming_reasons
  merge_model_cooldown_reasons existing incoming =
      merge_incoming_reasons (merge_existing_reasons [] existing) incoming

-- The reason that RecordModelCooldownWithReason stores.
unfoldable pub cooldown_label : ModelCooldownReason → ModelCooldownReason
unfolding known_model_cooldown_reason
cooldown_label reason =
    if is_empty (known_model_cooldown_reason reason)
    then model_cooldown_throttled
    else known_model_cooldown_reason reason

-- The map writes of RecordModelCooldownWithReason.
unfoldable pub store_cooldown : Account → String → Time → ModelCooldownReason → Account
store_cooldown acc name until reason = record acc {
  model_cooldowns = insert name until acc.model_cooldowns;
  model_cooldown_reasons = insert name (cooldown_label reason) acc.model_cooldown_reasons;
}

-- RecordModelCooldownWithReason
unfoldable pub record_model_cooldown_with_reason :
    Time → Account → String → Time → ModelCooldownReason → Account
unfolding store_cooldown
record_model_cooldown_with_reason now acc model until reason =
    let name = trim_space model in
    if not (is_live now until) || is_empty name
    then acc
    else elim (lookup name acc.model_cooldowns) [
      | none ↦ store_cooldown acc name until reason
      | some current ↦ if after until current then store_cooldown acc name until reason else acc
    ]

-- RecordModelCooldown
unfoldable pub record_model_cooldown : Time → Account → String → Time → Account
unfolding record_model_cooldown_with_reason
record_model_cooldown now acc model until =
    record_model_cooldown_with_reason now acc model until model_cooldown_throttled

-- ModelCooldownRemaining
unfoldable pub model_cooldown_remaining : Account → String → Time → Duration
model_cooldown_remaining acc model now = elim (lookup (trim_space model) acc.model_cooldowns) [
  | none ↦ pos 0
  | some until ↦ if is_live now until then sub until now else pos 0
]

-- ModelCooldownKind
unfoldable pub model_cooldown_kind : Account → String → Time → ModelCooldownReason
model_cooldown_kind acc model now =
    let name = trim_space model in
    let remaining = model_cooldown_remaining acc name now in
    let known =
      known_model_cooldown_reason (reason_or_empty (lookup name acc.model_cooldown_reasons)) in
    if leb_ℤ remaining (pos 0)
    then ""
    else if not (is_empty known)
    then known
    else if ltb_ℤ model_cooldown_entitlement_floor remaining
    then model_cooldown_unavailable
    else model_cooldown_throttled
