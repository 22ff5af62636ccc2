-- ===== src/Cooldown/Record.antt =====
-- What recording one cooldown does to every later read (internal/store/account_cooldown.go).
use orchids_2api.Prelude.{
  ◌≤◌, ◌<◌, String, ◌≡◌, refl, ◌⊎◌, inl, inr, Bool, false, not, ◌&&◌, arith, ltb, str_eq,
  if◌then◌else◌,
}
use orchids_2api.Prelude.Int.{pos}
use orchids_2api.Prelude.Text.{is_empty, trim_space}
use orchids_2api.Prelude.Text.Trim.{trim_space_idem}
use orchids_2api.Prelude.Int64.{max_ℤ}
use orchids_2api.Prelude.Time.{Time, Duration, sub}
use orchids_2api.Prelude.Assoc.{lookup, string_eq, nat_eq, lookup-insert}
use text.Mathlib.TextEquality.{eq_iff}
use orchids_2api.Account.{
  Account, ModelCooldownReason, model_cooldown_throttled, model_cooldown_unavailable,
}
use orchids_2api.Cooldown.{
  deadline_or_zero, known_model_cooldown_reason, record_model_cooldown_with_reason,
  model_cooldown_remaining, model_cooldown_kind, cooldown_label,
}

-- How long a deadline still holds.
abbrev pub wait : Time → Time → Duration
wait until now = if ltb now until then sub until now else pos 0

-- A key names a model that the record was made for.
abbrev pub names_same : String → String → Bool
names_same model m = not (is_empty (trim_space model)) && str_eq (trim_space model) (trim_space m)

-- After a deadline is recorded for a model, a read of any model at that moment or later answers the
-- longer of the old and the new wait if both names trim to the same name that is not empty, and what
-- it answered before otherwise. So no record shortens a cooldown or touches another model.
pub record-remaining :
    (now later : Time) (acc : Account) (model m : String) (until : Time) (r : ModelCooldownReason)
    → now ≤ later
    → model_cooldown_remaining (record_model_cooldown_with_reason now acc model until r) m later ≡ (
        if names_same model m
        then max_ℤ (model_cooldown_remaining acc m later) (wait until later)
        else model_cooldown_remaining acc m later)
unfolding record_model_cooldown_with_reason model_cooldown_remaining
record-remaining now later acc model m until r le = ground (
  arith,
  eq_iff (trim_space model) (trim_space m),
  lookup-insert (trim_space model) (trim_space m) until acc.model_cooldowns,
)

known-cases :
    (r : ModelCooldownReason)
    → (r ≡ model_cooldown_throttled)
      ⊎ (r ≡ model_cooldown_unavailable)
      ⊎ (known_model_cooldown_reason r ≡ "")
unfolding known_model_cooldown_reason
known-cases r =
    ground (arith, eq_iff r model_cooldown_throttled, eq_iff r model_cooldown_unavailable)

-- Only the two labels that this build understands are stored.
pub cooldown_label-cases :
    (r : ModelCooldownReason)
    → (cooldown_label r ≡ model_cooldown_throttled)
      ⊎ (cooldown_label r ≡ model_cooldown_unavailable)
unfolding cooldown_label
cooldown_label-cases r = elim (known-cases r) [
  | inl e ↦ inl (rw e refl)
  | inr (inl e) ↦ inr (rw e refl)
  | inr (inr e) ↦ inl (rw (e, cooldown_label) refl)
]

cooldown_label-known :
    (r : ModelCooldownReason)
    → (known_model_cooldown_reason (cooldown_label r) ≡ cooldown_label r)
      × (is_empty (cooldown_label r) ≡ false)
cooldown_label-known r = elim (cooldown_label-cases r) [
  | inl e ↦ rw e (unfold known_model_cooldown_reason in (refl, refl))
  | inr e ↦ rw e (unfold known_model_cooldown_reason in (refl, refl))
]

-- While the recorded deadline lasts, the kind of the model's cooldown is the recorded label if that
-- deadline is later than the stored one, and is unchanged otherwise: a shorter throttle does not
-- relabel a longer plan verdict, and no other model is relabelled.
pub record-kind :
    (now later : Time) (acc : Account) (model m : String) (until : Time) (r : ModelCooldownReason)
    → now ≤ later
    → later < until
    → model_cooldown_kind (record_model_cooldown_with_reason now acc model until r) m later ≡ (
        if names_same model m
          && ltb (deadline_or_zero (lookup (trim_space model) acc.model_cooldowns)) until
        then cooldown_label r
        else model_cooldown_kind acc m later)
unfolding record_model_cooldown_with_reason model_cooldown_remaining model_cooldown_kind
record-kind now later acc model m until r le lt = ground (
  arith,
  trim_space_idem m,
  cooldown_label-known r,
  eq_iff (trim_space model) (trim_space m),
  lookup-insert (trim_space model) (trim_space m) until acc.model_cooldowns,
  lookup-insert (trim_space model) (trim_space m) (cooldown_label r) acc.model_cooldown_reasons,
)
