-- ===== src/Document/Atomic.antt =====
-- updateAccountAtomic of internal/store/redis_store.go: optimistic locking of one row, by writers that
-- interleave. Redis is seen through what WATCH and EXEC document: EXEC fails exactly if the key was
-- written after it was watched, which the model reads off a count of the writes. What each writer
-- does to the row is a parameter, as is reflect.DeepEqual.
pub mod Committed
pub mod Undisturbed
use orchids_2api.Prelude.{
  ℕ, zero, suc, ◌+◌, Bool, true, false, ◌&&◌, not, Option, none, some, List, [], ◌∷◌, leb, ◌==◌,
  if◌then◌else◌,
}
use orchids_2api.Prelude.Time.{Time, after}
use orchids_2api.Document.Fields.{Row}

-- updateAccountAtomic, the number of attempts
abbrev pub max_attempts : ℕ
max_attempts = 8

-- The errors that updateAccountAtomic returns.
pub data UpdateError : Type 0 where
  mutation_failed : UpdateError
  changed_too_frequently : UpdateError

-- How updateAccountAtomic returns without an error: the row is missing, the mutation leaves it as it is, or
-- the update is stored. The caller is not told which.
pub data Outcome : Type 0 where
  missing : Outcome
  unchanged : Outcome
  written : Outcome

-- The places of a goroutine in updateAccountAtomic: before an attempt, with the row watched and read,
-- and returned.
pub data Writer : Type 0 where
  idle : ℕ → Writer
  watching : ℕ → ℕ → Row → Writer
  finished : Outcome → Writer
  failed : UpdateError → Writer

-- A write of the row: a commit of a writer at a time, or a write by other code, which may delete it.
pub data Write : Type 0 where
  committed : ℕ → Time → Write
  replaced : Option Row → Write

-- The stored row, the number of its writes, the writes, newest first, and the writers.
pub record System : Type 0 where
  pub stored : Option Row
  pub version : ℕ
  pub log : List Write
  pub writers : ℕ → Writer

abbrev pub set_writer : ℕ → Writer → System → System
set_writer i w s = record s { writers = λ j. if i == j then w else s.writers j }

-- updateAccountAtomic, the new UpdatedAt
unfoldable pub stamp : Time → Row → Row → Row
stamp now previous current = record current {
  updated_at = if after now previous.updated_at then now else previous.updated_at + 1;
}

-- updateAccountAtomic, an attempt up to the read of the row
unfoldable pub begin_attempt : ℕ → Option Row → ℕ → Writer
begin_attempt attempt stored version =
    if leb max_attempts attempt
    then failed changed_too_frequently
    else elim stored [ none ↦ finished missing | some row ↦ watching attempt version row ]

unfoldable pub watch_row : ℕ → System → System
unfolding begin_attempt
watch_row i s = elim (s.writers i) [
  | idle attempt ↦ set_writer i (begin_attempt attempt s.stored s.version) s
  | _ ↦ s
]

-- A write of the key by other code.
unfoldable pub replace_row : Option Row → System → System
replace_row row s = record s { stored = row; version = suc s.version; log = replaced row ∷ s.log }

-- The system before any writer starts.
abbrev pub start_system : Option Row → System
start_system row = record { stored = row; version = 0; log = []; writers = λ i. idle 0 }

-- updateAccountAtomic, the transaction: it fails if the key was written since it was watched.
unfoldable pub execute : ℕ → Time → ℕ → ℕ → Row → Row → System → System
unfolding stamp
execute i now attempt watched row current s =
    if watched == s.version
    then set_writer i (finished written) (record s {
      stored = some (stamp now row current);
      version = suc s.version;
      log = committed i now ∷ s.log;
    })
    else set_writer i (idle (suc attempt)) s

module _ (mutate : ℕ → Row → Option Row) where
  -- The row after a write, and after all of them, each applied to the row that the ones before it
  -- left: no writer's update is lost.
  unfoldable pub apply_write : Write → Option Row → Option Row
  unfolding stamp
  apply_write (replaced row) stored = row
  apply_write (committed i now) none = none
  apply_write (committed i now) (some row) = elim (mutate i row) [
    | none ↦ some row
    | some mutated ↦ some (stamp now row (record mutated { updated_at = row.updated_at }))
  ]

  unfoldable pub replay : List Write → Option Row → Option Row
  unfolding apply_write
  replay [] row = row
  replay (w ∷ log) row = apply_write w (replay log row)

module _ (mutate : ℕ → Row → Option Row) (deep_equal : Row → Row → Bool) where
  -- updateAccountAtomic, an attempt from the mutation on. `legacy` says that the stored value must be
  -- rewritten even if it is unchanged.
  unfoldable pub finish_attempt : ℕ → Time → Bool → ℕ → ℕ → Row → System → System
  unfolding execute
  finish_attempt i now legacy attempt watched row s = elim (mutate i row) [
    | none ↦ set_writer i (failed mutation_failed) s
    | some mutated ↦
        let current = record mutated { updated_at = row.updated_at } in
        if deep_equal current row && not legacy
        then set_writer i (finished unchanged) s
        else execute i now attempt watched row current s
  ]

  unfoldable pub commit_row : ℕ → Time → Bool → System → System
  unfolding finish_attempt
  commit_row i now legacy s = elim (s.writers i) [
    | watching attempt watched row ↦ finish_attempt i now legacy attempt watched row s
    | _ ↦ s
  ]

  -- The systems that are reached from a stored row.
  pub data IsReached (row : Option Row) : System → Type 0 where
    started : IsReached row (start_system row)
    watched : {s : System} (i : ℕ) → IsReached row s → IsReached row (watch_row i s)
    committed_or_retried :
        {s : System} (i : ℕ) (now : Time) (legacy : Bool)
        → IsReached row s
        → IsReached row (commit_row i now legacy s)
    overwritten : {s : System} (r : Option Row) → IsReached row s → IsReached row (replace_row r s)
