-- ===== src/Document/Guards.antt =====
-- What a merged snapshot leaves alone in the stored row: the counters, the rotated credentials, and
-- every reading that is newer than its own.
use orchids_2api.Prelude.{
  ◌≤◌, String, ◌≡◌, refl, inl, inr, Bool, true, false, List, [], ◌∷◌, arith, if◌then◌else◌,
  Bool-cases, length,
}
use orchids_2api.Prelude.Text.{trim_space}
use orchids_2api.Prelude.Time.{Time}
use orchids_2api.Account.{Account}
use orchids_2api.Document.Fields.{Row}
use orchids_2api.Document.Atomic.{stamp}
use orchids_2api.Document.{
  merge_account, merge_identity, merge_usage_meter, merge_status_and_verdict,
  merge_grok_credentials, merge_model_cooldown_state, merge_work_buddy_credentials,
  merge_qoder_credentials, merge_cline_credentials, work_buddy_meter_reading_is_newer, is_as_new,
}

-- The credentials of one provider: the access token, the refresh token and the expiry.
abbrev pub Credentials : Type 0
Credentials = String × String × Time

abbrev pub work_buddy_credentials : Row → Credentials
work_buddy_credentials r =
    let f = r.work_buddy in
    (f.work_buddy_access_token, f.work_buddy_refresh_token, f.work_buddy_expires_at)

abbrev pub qoder_credentials : Row → Credentials
qoder_credentials r =
    let f = r.qoder in (f.qoder_access_token, f.qoder_refresh_token, f.qoder_expires_at)

abbrev pub cline_credentials : Row → Credentials
cline_credentials r =
    let f = r.cline in (f.cline_access_token, f.cline_refresh_token, f.cline_expires_at)

abbrev pub trimmed : Credentials → Credentials
trimmed c = (trim_space c.0, trim_space c.1, c.2)

-- The times of the readings that a merge never moves back.
abbrev pub readings : Row → List Time
readings r =
    r.work_buddy.work_buddy_quota.synced_at ∷ r.routing.qoder_quota.synced_at
    ∷ r.qoder.qoder_models_synced_at ∷ r.cline.cline_models_synced_at ∷ []

choose-credentials :
    (replace : Bool) (a b x y : String) (t u : Time)
    → (let chosen : Credentials =
          (if replace then a else x, if replace then b else y, if replace then t else u) in
        let pairs : Credentials = if replace then (a, b, t) else (x, y, u) in chosen ≡ pairs)
choose-credentials true a b x y t u = refl
choose-credentials false a b x y t u = refl

-- A merge changes neither the id, nor the counters, nor the time of the last update, and the
-- credentials of WorkBuddy, Qoder and Cline only where the snapshot asks to replace them, by its own,
-- trimmed.
pub merge_account-credentials :
    (now : Time) (acc existing : Row)
    → (((merge_account now acc existing).routing.id ≡ existing.routing.id)
        × ((merge_account now acc existing).counters ≡ existing.counters)
        × ((merge_account now acc existing).updated_at ≡ existing.updated_at))
      × (work_buddy_credentials (merge_account now acc existing) ≡ (
          if acc.work_buddy.replace_work_buddy_credentials
          then trimmed (work_buddy_credentials acc)
          else work_buddy_credentials existing))
      × (qoder_credentials (merge_account now acc existing) ≡ (
          if acc.qoder.replace_qoder_credentials
          then trimmed (qoder_credentials acc)
          else qoder_credentials existing))
      × (cline_credentials (merge_account now acc existing) ≡ (
          if acc.cline.replace_cline_credentials
          then trimmed (cline_credentials acc)
          else cline_credentials existing))
unfolding merge_account merge_identity merge_usage_meter merge_status_and_verdict
    merge_grok_credentials merge_model_cooldown_state merge_work_buddy_credentials
    merge_qoder_credentials merge_cline_credentials
merge_account-credentials now acc existing = (
  (refl, refl, refl),
  choose-credentials acc.work_buddy.replace_work_buddy_credentials _ _ _ _ _ _,
  choose-credentials acc.qoder.replace_qoder_credentials _ _ _ _ _ _,
  choose-credentials acc.cline.replace_cline_credentials _ _ _ _ _ _,
)

-- One list of times is at or after another, place by place.
abbrev pub NotBefore : List Time → List Time → Type 0
NotBefore [] later = Unit
NotBefore (t ∷ times) [] = Unit
NotBefore (t ∷ times) (u ∷ later) = (t ≤ u) × NotBefore times later

as-new_later :
    (incoming stored : Time) → stored ≤ (if is_as_new incoming stored then incoming else stored)
unfolding is_as_new
as-new_later incoming stored = ground arith

meter-later :
    (acc existing : Row)
    → existing.work_buddy.work_buddy_quota.synced_at
      ≤ (if work_buddy_meter_reading_is_newer acc existing
          then acc.work_buddy.work_buddy_quota
          else existing.work_buddy.work_buddy_quota).synced_at
unfolding work_buddy_meter_reading_is_newer
meter-later acc existing = elim (Bool-cases (work_buddy_meter_reading_is_newer acc existing)) [
  | inl newer ↦ rw newer (ground (arith, newer))
  | inr older ↦ rw older (omega arith)
]

quota-later :
    (acc existing : Account)
    → existing.qoder_quota.synced_at
      ≤ (if is_as_new acc.qoder_quota.synced_at existing.qoder_quota.synced_at
          then acc.qoder_quota
          else existing.qoder_quota).synced_at
unfolding is_as_new
quota-later acc existing =
    elim (Bool-cases (is_as_new acc.qoder_quota.synced_at existing.qoder_quota.synced_at)) [
      | inl newer ↦ rw newer (ground (arith, newer))
      | inr older ↦ rw older (omega arith)
    ]

merge_account-NotBefore :
    (now : Time) (acc existing : Row)
    → NotBefore (readings existing) (readings (merge_account now acc existing))
unfolding merge_account merge_identity merge_usage_meter merge_status_and_verdict
    merge_grok_credentials merge_model_cooldown_state merge_work_buddy_credentials
    merge_qoder_credentials merge_cline_credentials
merge_account-NotBefore now acc existing = (
  meter-later acc existing,
  (
    quota-later acc.routing existing.routing,
    (
      as-new_later acc.qoder.qoder_models_synced_at existing.qoder.qoder_models_synced_at,
      (as-new_later acc.cline.cline_models_synced_at existing.cline.cline_models_synced_at, tt),
    ),
  ),
)

NotBefore-trans :
    (r s t : List Time) → length r ≡ length s → NotBefore r s → NotBefore s t → NotBefore r t
NotBefore-trans [] s t e h g = tt
NotBefore-trans (x ∷ r) [] t e h g = ground (arith, e)
NotBefore-trans (x ∷ r) (y ∷ s) [] e h g = tt
NotBefore-trans (x ∷ r) (y ∷ s) (z ∷ t) e h g =
    (omega arith, NotBefore-trans r s t (ground (arith, e)) h.1 g.1)

NotBefore-refl : (r : List Time) → NotBefore r r
NotBefore-refl [] = tt
NotBefore-refl (t ∷ r) = (omega arith, NotBefore-refl r)

-- The row after UpdateAccount wrote a snapshot, and after several, the oldest first.
abbrev pub update_account : Time → Row → Row → Row
update_account now acc existing =
    stamp now existing
      (record (merge_account now acc existing) { updated_at = existing.updated_at })

abbrev pub apply_updates : List (Time × Row) → Row → Row
apply_updates [] existing = existing
apply_updates ((now, acc) ∷ updates) existing =
    apply_updates updates (update_account now acc existing)

update_account-NotBefore :
    (now : Time) (acc existing : Row)
    → NotBefore
        (existing.updated_at ∷ readings existing)
        ((update_account now acc existing).updated_at ∷ readings (update_account now acc existing))
unfolding stamp
update_account-NotBefore now acc existing = (ground arith, merge_account-NotBefore now acc existing)

-- However many snapshots are written, in whatever order they were read, the times of the WorkBuddy
-- meter, of the Qoder quota, of the Qoder and Cline catalogs and of the last update never move back.
pub apply_updates-NotBefore :
    (updates : List (Time × Row)) (existing : Row)
    → NotBefore
        (existing.updated_at ∷ readings existing)
        ((apply_updates updates existing).updated_at ∷ readings (apply_updates updates existing))
apply_updates-NotBefore [] existing = NotBefore-refl (existing.updated_at ∷ readings existing)
apply_updates-NotBefore ((now, acc) ∷ updates) existing =
    NotBefore-trans (existing.updated_at ∷ readings existing)
      ((update_account now acc existing).updated_at ∷ readings (update_account now acc existing))
      ((apply_updates updates (update_account now acc existing)).updated_at
        ∷ readings (apply_updates updates (update_account now acc existing)))
      refl (update_account-NotBefore now acc existing)
      (apply_updates-NotBefore updates (update_account now acc existing))
