-- ===== src/Cooldown/Reasons.antt =====
-- mergeModelCooldownReasons keeps no label without its deadline (internal/store/account_cooldown.go).
use orchids_2api.Prelude.{
  String, ◌≡◌, refl, ◌⊎◌, inl, inr, Bool, true, false, not, ◌||◌, none, some, List, [], ◌∷◌, arith,
  str_eq, if◌then◌else◌, Bool-cases,
}
use orchids_2api.Prelude.Text.{is_empty, trim_space}
use orchids_2api.Prelude.Time.{Time}
use orchids_2api.Prelude.Assoc.{lookup, string_eq, nat_eq, lookup-insert}
use text.Mathlib.TextEquality.{eq_iff}
use orchids_2api.Account.{ModelCooldownReason}
use orchids_2api.Cooldown.{
  is_live, deadline_or_zero, known_model_cooldown_reason, put_known, stored_outlasts,
  merge_existing_reasons, merge_incoming_reasons, merge_model_cooldown_reasons,
}

live_first :
    (now : Time) (key name : String) (held other : List (String × Time))
    → key ≡ name
    → (is_empty key || not (is_live now (deadline_or_zero (lookup key held)))) ≡ false
    → (is_live now (deadline_or_zero (lookup name held))
        || is_live now (deadline_or_zero (lookup name other)))
      ≡ true
live_first now key name held other same go = ground arith

live_second :
    (now : Time) (key name : String) (other held : List (String × Time))
    → key ≡ name
    → (is_empty key || not (is_live now (deadline_or_zero (lookup key held)))) ≡ false
    → (is_live now (deadline_or_zero (lookup name other))
        || is_live now (deadline_or_zero (lookup name held)))
      ≡ true
live_second now key name other held same go = ground arith

module _ (now : Time) (existing_until incoming_until : List (String × Time)) (name : String) where
  -- One of the two maps of deadlines still holds the model.
  abbrev pub is_held : Bool
  is_held =
      is_live now (deadline_or_zero (lookup name existing_until))
      || is_live now (deadline_or_zero (lookup name incoming_until))

  -- A label is a known one and stands beside a live deadline.
  abbrev pub Labelled : List (String × ModelCooldownReason) → Type 0
  Labelled merged =
      (lookup name merged ≡ none)
      ⊎ ((r : ModelCooldownReason) × (lookup name merged ≡ some (known_model_cooldown_reason r))
          × (is_empty (known_model_cooldown_reason r) ≡ false)
          × (is_held ≡ true))

  put_known-Labelled :
      (key : String) (r : ModelCooldownReason) (merged : List (String × ModelCooldownReason))
      → (key ≡ name → is_held ≡ true)
      → Labelled merged
      → Labelled (put_known key r merged)
  unfolding put_known
  put_known-Labelled key r merged h (inl e) =
      elim (Bool-cases (is_empty (known_model_cooldown_reason r))) [
        | inl empty ↦ inl (ground arith)
        | inr filled ↦ elim (Bool-cases (str_eq key name)) [
          | inl same ↦ inr (
            r,
            ground (arith, lookup-insert key name (known_model_cooldown_reason r) merged),
            filled,
            h ((eq_iff key name).0 same),
          )
          | inr other ↦
              inl (ground (arith, lookup-insert key name (known_model_cooldown_reason r) merged))
        ]
      ]
  put_known-Labelled key r merged h (inr (q, e, f, b)) =
      elim (Bool-cases (is_empty (known_model_cooldown_reason r) || not (str_eq key name))) [
        | inl keep ↦
            inr (
              q,
              ground (arith, lookup-insert key name (known_model_cooldown_reason r) merged),
              f,
              b,
            )
        | inr put ↦ inr (
          r,
          ground (arith, lookup-insert key name (known_model_cooldown_reason r) merged),
          ground arith,
          b,
        )
      ]

  if-Labelled :
      (b : Bool) (xs ys : List (String × ModelCooldownReason))
      → (b ≡ true → Labelled xs)
      → (b ≡ false → Labelled ys)
      → Labelled (if b then xs else ys)
  if-Labelled true xs ys p q = p refl
  if-Labelled false xs ys p q = q refl

  existing-Labelled :
      (rest merged : List (String × ModelCooldownReason))
      → Labelled merged
      → Labelled (merge_existing_reasons now existing_until incoming_until merged rest)
  unfolding merge_existing_reasons
  existing-Labelled [] merged h = h
  existing-Labelled ((model, reason) ∷ rest) merged h =
      let key = trim_space model in
      existing-Labelled rest _ (
        if-Labelled _ merged (put_known key reason merged) (λ skip. h)
          (λ go.
            put_known-Labelled key reason merged
              (λ same. live_first now key name existing_until incoming_until same go) h))

  incoming-Labelled :
      (rest merged : List (String × ModelCooldownReason))
      → Labelled merged
      → Labelled (merge_incoming_reasons now existing_until incoming_until merged rest)
  unfolding merge_incoming_reasons
  incoming-Labelled [] merged h = h
  incoming-Labelled ((model, reason) ∷ rest) merged h =
      let key = trim_space model in
      let until = deadline_or_zero (lookup key incoming_until) in
      let put = put_known key reason merged in
      let outlasts = stored_outlasts now existing_until incoming_until key until in
      incoming-Labelled rest _ (
        if-Labelled _ merged (if outlasts then merged else put) (λ skip. h)
          (λ go.
            if-Labelled outlasts merged put (λ skip. h)
              (λ fresh.
                put_known-Labelled key reason merged
                  (λ same. live_second now key name existing_until incoming_until same go) h)))

  -- Whatever labels the two maps carry, a label that the merge keeps for a model is a known one, and
  -- a deadline of that model in one of the two maps has not passed.
  pub merged_reason_is_live :
      (existing incoming : List (String × ModelCooldownReason))
      → Labelled (merge_model_cooldown_reasons now existing_until incoming_until existing incoming)
  unfolding merge_model_cooldown_reasons lookup
  merged_reason_is_live existing incoming =
      incoming-Labelled incoming _ (existing-Labelled existing [] (inl refl))
