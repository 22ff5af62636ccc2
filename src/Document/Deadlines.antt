-- ===== src/Document/Deadlines.antt =====
-- The reset deadline of a row after stale snapshots were written (UpdateAccount and
-- accountPatch.mergeStatusAndVerdict of internal/store).
use orchids_2api.Prelude.{◌<◌, max, ◌≡◌, refl, ap, ◌∙◌, true, List, [], ◌∷◌, arith, All}
use orchids_2api.Prelude.Time.{Time}
use orchids_2api.Document.Fields.{Row}
use orchids_2api.Document.Atomic.{stamp}
use orchids_2api.Document.{
  merge_account, merge_identity, merge_usage_meter, merge_status_and_verdict, merge_quota_reset,
  merge_grok_credentials, merge_model_cooldown_state, merge_work_buddy_credentials,
  merge_qoder_credentials, merge_cline_credentials, is_stale_snapshot,
}
use orchids_2api.Document.Guards.{update_account, apply_updates}

-- A snapshot that was read before the row was last written.
abbrev pub IsStale : Row → Time × Row → Type 0
IsStale existing (now, acc) = (0 < acc.updated_at) × (acc.updated_at < existing.updated_at)

-- The latest of a deadline and those of the snapshots.
abbrev pub latest_reset : List (Time × Row) → Time → Time
latest_reset [] reset = reset
latest_reset ((now, acc) ∷ updates) reset =
    max acc.routing.quota_reset_at (latest_reset updates reset)

latest_reset-max :
    (updates : List (Time × Row)) (t u : Time)
    → latest_reset updates (max t u) ≡ max t (latest_reset updates u)
latest_reset-max [] t u = refl
latest_reset-max ((now, acc) ∷ updates) t u = omega (arith, latest_reset-max updates t u)

reset-latest :
    (incoming stored : Time) → merge_quota_reset true incoming stored ≡ max incoming stored
unfolding merge_quota_reset
reset-latest incoming stored = ground arith

-- One stale snapshot may only extend the deadline.
update_account-reset :
    (now : Time) (acc existing : Row)
    → IsStale existing (now, acc)
    → (update_account now acc existing).routing.quota_reset_at
      ≡ max acc.routing.quota_reset_at existing.routing.quota_reset_at
unfolding stamp merge_account merge_identity merge_usage_meter merge_status_and_verdict
    merge_grok_credentials merge_model_cooldown_state merge_work_buddy_credentials
    merge_qoder_credentials merge_cline_credentials is_stale_snapshot
update_account-reset now acc existing stale =
    let read_before : is_stale_snapshot acc existing ≡ true = ground (arith, stale.0, stale.1) in
    ap (λ b. merge_quota_reset b acc.routing.quota_reset_at existing.routing.quota_reset_at)
      read_before
    ∙ reset-latest acc.routing.quota_reset_at existing.routing.quota_reset_at

-- A write moves the time of the last update on, so a stale snapshot stays stale.
update_account-IsStale :
    (now : Time) (acc existing : Row) (updates : List (Time × Row))
    → All (IsStale existing) updates
    → All (IsStale (update_account now acc existing)) updates
unfolding stamp
update_account-IsStale now acc existing [] h = tt
update_account-IsStale now acc existing ((later, other) ∷ updates) h =
    ((h.0.0, ground (arith, h.0.1)), update_account-IsStale now acc existing updates h.1)

-- However many snapshots are written that were read before the row was last written, and in whatever
-- order, the reset deadline of the row is in the end the latest of its own and theirs: none of them
-- shortens or erases it.
pub apply_updates-latest_reset :
    (updates : List (Time × Row)) (existing : Row)
    → All (IsStale existing) updates
    → (apply_updates updates existing).routing.quota_reset_at
      ≡ latest_reset updates existing.routing.quota_reset_at
apply_updates-latest_reset [] existing h = refl
apply_updates-latest_reset ((now, acc) ∷ updates) existing h =
    apply_updates-latest_reset updates (update_account now acc existing)
      (update_account-IsStale now acc existing updates h.1)
    ∙ ap (latest_reset updates) (update_account-reset now acc existing h.0)
    ∙ latest_reset-max updates acc.routing.quota_reset_at existing.routing.quota_reset_at
