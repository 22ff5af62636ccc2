-- ===== src/Tests/TeamCooldown.antt =====
-- The theorems on the cooldowns of a team, noted twice.
use orchids_2api.Prelude.{◌+◌, ◌*◌, ◌≡◌, refl, none, some, [], ◌∷◌, arith}
use orchids_2api.Prelude.Int.{pos}
use orchids_2api.Prelude.Text.{trim_space, to_lower}
use orchids_2api.Prelude.Time.{minute, hour}
use orchids_2api.Prelude.Assoc.{lookup, string_eq}
use orchids_2api.Prelude.Unique.{Unique}
use orchids_2api.TeamCooldown.{Registry, note, retry_after_for, team_cooldown_key, wait_or_default}
use orchids_2api.TeamCooldown.Shared.{
  visible, longer_wait, wait_until, note-visible, retry_after_for-visible,
}
use orchids_2api.Tests.Samples.{noon}

-- The team waits for an hour already.
abbrev registry : Registry
registry = record {
  entries = ("rpm|team|grok-4", noon + hour) ∷ ("rpm|team|old", noon) ∷ [];
  last_gc = noon;
}

note-visible_example :
    Unique (note (noon + minute) "rpm" " Team" "GROK-4" (pos 0) registry).0.entries
    × (visible
          (noon + 2 * minute)
          "rpm|team|grok-4"
          (note (noon + minute) "rpm" " Team" "GROK-4" (pos 0) registry).0
        ≡ some (noon + hour))
unfolding trim_space lookup team_cooldown_key to_lower wait_or_default
note-visible_example =
    note-visible (noon + minute) (noon + 2 * minute) "rpm" " Team" "GROK-4" (pos 0) registry
      "rpm|team|grok-4" refl refl (omega arith) (refl, (refl, tt))

retry_after_for-visible_example :
    ((retry_after_for (noon + minute) "rpm" " Team" "GROK-4" none registry).1
      ≡ longer_wait
          (wait_until
            (noon + minute)
            (visible (noon + minute) (team_cooldown_key "rpm" " Team" "GROK-4") registry))
          none)
    × (visible
          (noon + 2 * minute)
          "rpm|team|old"
          (retry_after_for (noon + minute) "rpm" " Team" "GROK-4" none registry).0
        ≡ visible (noon + 2 * minute) "rpm|team|old" registry)
unfolding trim_space
retry_after_for-visible_example =
    retry_after_for-visible (noon + minute) (noon + 2 * minute) "rpm" " Team" "GROK-4" none registry
      "rpm|team|old" refl (omega arith)

-- The team still has to wait for fifty-nine minutes.
waiting_test :
    (retry_after_for (noon + minute) "rpm" " Team" "GROK-4" none registry).1 ≡ pos (59 * minute)
unfolding trim_space lookup team_cooldown_key to_lower retry_after_for
    orchids_2api.TeamCooldown.local_remaining
waiting_test = refl
