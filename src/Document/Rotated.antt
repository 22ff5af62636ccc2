-- ===== src/Document/Rotated.antt =====
-- The credentials of a row after any number of snapshots were written (UpdateAccount and
-- internal/store/account_merge.go).
use orchids_2api.Prelude.{
  ◌≡◌, refl, ◌∙◌, inl, inr, Bool, Option, none, some, List, [], ◌∷◌, if◌then◌else◌, Bool-cases,
  Option-cases,
}
use orchids_2api.Prelude.Time.{Time}
use orchids_2api.Document.Fields.{Row}
use orchids_2api.Document.Guards.{
  Credentials, work_buddy_credentials, qoder_credentials, cline_credentials, trimmed,
  merge_account-credentials, update_account, apply_updates,
}

-- The last of the snapshots that asks for something.
abbrev pub last_such : (Row → Bool) → List (Time × Row) → Option Row
last_such asks [] = none
last_such asks ((now, acc) ∷ updates) = elim (last_such asks updates) [
  | none ↦ if asks acc then some acc else none
  | some later ↦ some later
]

-- The credentials of that snapshot, trimmed, or else those that are stored.
abbrev pub last_credentials :
    (Row → Bool) → (Row → Credentials) → List (Time × Row) → Row → Credentials
last_credentials asks own updates existing = elim (last_such asks updates) [
  | none ↦ own existing
  | some acc ↦ trimmed (own acc)
]

-- What each update keeps or replaces, several do in the end.
updates-last_credentials :
    (asks : Row → Bool) (own : Row → Credentials)
    → ((now : Time) (acc existing : Row)
        → own (update_account now acc existing)
          ≡ (if asks acc then trimmed (own acc) else own existing))
    → (updates : List (Time × Row)) (existing : Row)
    → own (apply_updates updates existing) ≡ last_credentials asks own updates existing
updates-last_credentials asks own each [] existing = refl
updates-last_credentials asks own each ((now, acc) ∷ updates) existing =
    updates-last_credentials asks own each updates (update_account now acc existing)
    ∙ elim (Option-cases (last_such asks updates)) [
      | inl no_later ↦
          rw (no_later, last_credentials)
            (each now acc existing ∙ elim (Bool-cases (asks acc)) [
              | inl asked ↦ rw asked refl
              | inr kept ↦ rw kept refl
            ])
      | inr (later, found) ↦ rw (found, last_credentials) refl
    ]

updates-kept {ℓ} :
    {A : Type ℓ} (own : Row → A)
    → ((now : Time) (acc existing : Row) → own (update_account now acc existing) ≡ own existing)
    → (updates : List (Time × Row)) (existing : Row)
    → own (apply_updates updates existing) ≡ own existing
updates-kept own each [] existing = refl
updates-kept own each ((now, acc) ∷ updates) existing =
    updates-kept own each updates (update_account now acc existing) ∙ each now acc existing

abbrev pub asks_work_buddy : Row → Bool
asks_work_buddy acc = acc.work_buddy.replace_work_buddy_credentials

abbrev pub asks_qoder : Row → Bool
asks_qoder acc = acc.qoder.replace_qoder_credentials

abbrev pub asks_cline : Row → Bool
asks_cline acc = acc.cline.replace_cline_credentials

-- However many snapshots are written, and however stale each is, the id and the counters stay, and the
-- WorkBuddy, Qoder and Cline credentials are, trimmed, those of the last snapshot that asks to replace
-- them, blank values included, and the stored ones if none asks.
pub apply_updates-credentials :
    (updates : List (Time × Row)) (existing : Row)
    → (((apply_updates updates existing).routing.id ≡ existing.routing.id)
        × ((apply_updates updates existing).counters ≡ existing.counters))
      × (work_buddy_credentials (apply_updates updates existing)
          ≡ last_credentials asks_work_buddy work_buddy_credentials updates existing)
      × (qoder_credentials (apply_updates updates existing)
          ≡ last_credentials asks_qoder qoder_credentials updates existing)
      × (cline_credentials (apply_updates updates existing)
          ≡ last_credentials asks_cline cline_credentials updates existing)
unfolding orchids_2api.Document.Atomic.stamp
apply_updates-credentials updates existing = (
  (
    updates-kept (λ r. r.routing.id) (λ now acc e. (merge_account-credentials now acc e).0.0)
        updates existing,
    updates-kept (λ r. r.counters) (λ now acc e. (merge_account-credentials now acc e).0.1) updates
        existing,
  ),
  updates-last_credentials asks_work_buddy work_buddy_credentials
      (λ now acc e. (merge_account-credentials now acc e).1) updates existing,
  updates-last_credentials asks_qoder qoder_credentials
      (λ now acc e. (merge_account-credentials now acc e).2) updates existing,
  updates-last_credentials asks_cline cline_credentials
      (λ now acc e. (merge_account-credentials now acc e).3) updates existing,
)
