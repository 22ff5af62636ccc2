-- ===== src/TeamCooldown.antt =====
-- internal/grok/team_cooldown.go: the cooldowns that the accounts of one team share, per model. The
-- backend that other processes share is a parameter: what is noted there is returned, and what it
-- remembers is an argument.
pub mod Shared
use orchids_2api.Prelude.{
  ℕ, String, Bool, ◌&&◌, ◌||◌, Option, none, some, List, [], ltb, length, if◌then◌else◌,
}
use orchids_2api.Prelude.Int.{ℤ, pos, ltb_ℤ, leb_ℤ}
use orchids_2api.Prelude.Text.{is_empty, trim_space, to_lower, concat}
use orchids_2api.Prelude.Time.{Time, Duration, after, sub, add, minute}
use orchids_2api.Prelude.Assoc.{lookup, insert, delete, filter_entries, string_eq}

-- teamCooldownMaxSize and teamCooldownGCAfter
abbrev pub team_cooldown_max_size : ℕ
team_cooldown_max_size = 4096

abbrev pub team_cooldown_gc_after : Duration
team_cooldown_gc_after = pos minute

-- teamCooldownRegistry; an entry is its deadline.
pub record Registry : Type 0 where
  pub entries : List (String × Time)
  pub last_gc : Time

-- newTeamCooldownRegistry
unfoldable pub new_team_cooldown_registry : Time → Registry
new_team_cooldown_registry now = record { entries = []; last_gc = now }

-- teamCooldownKey
unfoldable pub team_cooldown_key : String → String → String → String
team_cooldown_key scope team_id model =
    concat scope (
      concat "|"
        (concat (to_lower (trim_space team_id)) (concat "|" (to_lower (trim_space model)))))

-- maybeGC
unfoldable pub maybe_gc : Time → Registry → Registry
maybe_gc now r =
    if ltb (length r.entries) team_cooldown_max_size
      && ltb_ℤ (sub now r.last_gc) team_cooldown_gc_after
    then r
    else record { entries = filter_entries (λ key until. after until now) r.entries; last_gc = now }

-- Note, a wait that is not positive
unfoldable pub wait_or_default : Duration → Duration
wait_or_default retry_after = if leb_ℤ retry_after (pos 0) then pos minute else retry_after

-- Note, the entry that ends later
unfoldable pub outlasts : Option Time → Time → Bool
outlasts none until = Bool.false
outlasts (some current) until = after current until

-- Note: the registry, and the wait that the backend is told.
unfoldable pub note :
    Time → String → String → String → Duration → Registry → Registry × Option Duration
unfolding maybe_gc wait_or_default outlasts team_cooldown_key
note now scope team_id model retry_after r =
    let wait = wait_or_default retry_after in
    let key = team_cooldown_key scope team_id model in
    let until = add now wait in
    if is_empty (trim_space team_id) || is_empty (trim_space model)
    then (r, none)
    else if outlasts (lookup key r.entries) until
    then (r, none)
    else (maybe_gc now (record r { entries = insert key until r.entries }), some wait)

-- RetryAfterFor, the entry that has expired
unfoldable pub drop_expired : Time → String → Registry → Registry
drop_expired now key r = elim (lookup key r.entries) [
  | none ↦ r
  | some until ↦ if after until now then r else record r { entries = delete key r.entries }
]

-- RetryAfterFor, the local wait
unfoldable pub local_remaining : Time → String → Registry → Duration
local_remaining now key r = elim (lookup key r.entries) [
  | none ↦ pos 0
  | some until ↦ if after until now then sub until now else pos 0
]

-- RetryAfterFor, with what the backend remembers, if there is one
unfoldable pub retry_after_for :
    Time → String → String → String → Option Duration → Registry → Registry × Duration
unfolding drop_expired local_remaining team_cooldown_key
retry_after_for now scope team_id model shared r =
    let key = team_cooldown_key scope team_id model in
    let remaining = local_remaining now key r in
    if is_empty (trim_space team_id) then (r, pos 0) else (
      drop_expired now key r,
      elim shared [
        | none ↦ remaining
        | some other ↦ if ltb_ℤ remaining other then other else remaining
      ],
    )
