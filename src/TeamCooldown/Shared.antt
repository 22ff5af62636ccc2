-- ===== src/TeamCooldown/Shared.antt =====
-- What a team's accounts see of a cooldown: expired entries, and their collection, are invisible.
use orchids_2api.Prelude.{
  ◌≤◌, String, ◌≡◌, refl, ap, ◌∙◌, inl, inr, true, false, ◌&&◌, Option, none, some, arith, ltb, max,
  str_eq, length, if◌then◌else◌, Bool-cases,
}
use orchids_2api.Prelude.Int.{pos, ltb_ℤ}
use orchids_2api.Prelude.Text.{is_empty, trim_space}
use orchids_2api.Prelude.Time.{Time, Duration, after, sub, add}
use orchids_2api.Prelude.Assoc.{lookup, insert, string_eq, lookup-insert, lookup-delete}
use orchids_2api.Prelude.Unique.{
  Unique, insert-Unique, filter_entries-Unique, lookup-filter_entries,
}
use text.Mathlib.TextEquality.{eq_iff}
use orchids_2api.TeamCooldown.{
  Registry, team_cooldown_max_size, team_cooldown_gc_after, team_cooldown_key, maybe_gc,
  wait_or_default, outlasts, note, drop_expired, local_remaining, retry_after_for,
}

-- The deadline of a key that has not passed.
abbrev pub live : Time → Option Time → Option Time
live now none = none
live now (some until) = if after until now then some until else none

abbrev pub visible : Time → String → Registry → Option Time
visible now key r = live now (lookup key r.entries)

-- The later of two deadlines.
abbrev pub later_of : Option Time → Option Time → Option Time
later_of none b = b
later_of (some a) none = some a
later_of (some a) (some b) = some (max a b)

maybe_gc-visible :
    (now t : Time) (key : String) (r : Registry)
    → now ≤ t
    → Unique r.entries
    → visible t key (maybe_gc now r) ≡ visible t key r
unfolding maybe_gc
maybe_gc-visible now t key r h unique = ground (
  arith,
  lookup-filter_entries (λ (k : String) (until : Time). after until now) key r.entries unique,
)

maybe_gc-Unique : (now : Time) (r : Registry) → Unique r.entries → Unique (maybe_gc now r).entries
unfolding maybe_gc
maybe_gc-Unique now r unique =
    elim (Bool-cases (
      ltb (length r.entries) team_cooldown_max_size
      && ltb_ℤ (sub now r.last_gc) team_cooldown_gc_after)) [
        | inl kept ↦ rw kept unique
        | inr swept ↦ rw swept (
            filter_entries-Unique (λ (k : String) (until : Time). after until now) r.entries unique)
      ]

-- A deadline that ends later than the noted one is the one that is seen.
outlasted-visible :
    (t until : Time) (noted key : String) (r : Registry)
    → outlasts (lookup noted r.entries) until ≡ true
    → visible t key r ≡ (
        if str_eq noted key
        then later_of (visible t key r) (live t (some until))
        else visible t key r)
unfolding outlasts
outlasted-visible t until noted key r h = ground (arith, eq_iff noted key)

inserted-visible :
    (t until : Time) (noted key : String) (r : Registry)
    → outlasts (lookup noted r.entries) until ≡ false
    → live t (lookup key (insert noted until r.entries)) ≡ (
        if str_eq noted key
        then later_of (visible t key r) (live t (some until))
        else visible t key r)
unfolding outlasts
inserted-visible t until noted key r h =
    ground (arith, eq_iff noted key, lookup-insert noted key until r.entries)

-- After a cooldown of a team and a model, neither of them blank, was noted, the deadline of its key that
-- is still ahead is the later of the one before and the one noted; every other key is seen as before; and
-- no key stands twice.
pub note-visible :
    (now t : Time) (scope team_id model : String) (retry_after : Duration) (r : Registry)
    (key : String)
    → is_empty (trim_space team_id) ≡ false
    → is_empty (trim_space model) ≡ false
    → now ≤ t
    → Unique r.entries
    → Unique (note now scope team_id model retry_after r).0.entries
      × (visible t key (note now scope team_id model retry_after r).0 ≡ (
          if str_eq (team_cooldown_key scope team_id model) key
          then later_of (visible t key r) (live t (some (add now (wait_or_default retry_after))))
          else visible t key r))
unfolding note
note-visible now t scope team_id model retry_after r key team named h unique =
    let noted = team_cooldown_key scope team_id model in
    let until = add now (wait_or_default retry_after) in
    let written : Registry = record r { entries = insert noted until r.entries } in
    elim (Bool-cases (outlasts (lookup noted r.entries) until)) [
      | inl longer ↦
          rw (team, named, longer, note) (unique, outlasted-visible t until noted key r longer)
      | inr shorter ↦
          let fresh = insert-Unique noted until r.entries unique in
          rw (team, named, shorter, note)
            (
              maybe_gc-Unique now written fresh,
              maybe_gc-visible now t key written h fresh
                  ∙ inserted-visible t until noted key r shorter,
            )
    ]

drop_expired-visible :
    (now t : Time) (asked key : String) (r : Registry)
    → now ≤ t
    → visible t key (drop_expired now asked r) ≡ visible t key r
unfolding drop_expired
drop_expired-visible now t asked key r h =
    ground (arith, eq_iff asked key, lookup-delete asked key r.entries)

-- The wait to a deadline.
abbrev pub wait_until : Time → Option Time → Duration
wait_until now none = pos 0
wait_until now (some until) = sub until now

-- The longer of a wait and the shared one, if there is one.
abbrev pub longer_wait : Duration → Option Duration → Duration
longer_wait wait none = wait
longer_wait wait (some other) = if ltb_ℤ wait other then other else wait

shared-longer :
    (wait : Duration) (shared : Option Duration)
    → elim shared as (λ x. Duration) [
      | none ↦ wait
      | some other ↦ if ltb_ℤ wait other then other else wait
    ]
      ≡ longer_wait wait shared
shared-longer wait none = refl
shared-longer wait (some other) = refl

local_remaining-visible :
    (now : Time) (asked : String) (r : Registry)
    → local_remaining now asked r ≡ wait_until now (visible now asked r)
unfolding local_remaining
local_remaining-visible now asked r = ground arith

-- Asking for a team that is not blank answers the longer of the shared wait and the time to the deadline
-- that is still ahead, and is seen by no later question.
pub retry_after_for-visible :
    (now t : Time) (scope team_id model : String) (shared : Option Duration) (r : Registry)
    (key : String)
    → is_empty (trim_space team_id) ≡ false
    → now ≤ t
    → ((retry_after_for now scope team_id model shared r).1
        ≡ longer_wait
            (wait_until now (visible now (team_cooldown_key scope team_id model) r))
            shared)
      × (visible t key (retry_after_for now scope team_id model shared r).0 ≡ visible t key r)
unfolding retry_after_for
retry_after_for-visible now t scope team_id model shared r key team h =
    let asked = team_cooldown_key scope team_id model in
    rw (team, retry_after_for)
      (
        shared-longer (local_remaining now asked r) shared
            ∙ ap (λ wait. longer_wait wait shared) (local_remaining-visible now asked r),
        drop_expired-visible now t asked key r h,
      )
