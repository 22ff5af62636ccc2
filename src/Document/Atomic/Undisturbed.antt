-- ===== src/Document/Atomic/Undisturbed.antt =====
-- A writer whose key nobody else writes (internal/store/redis_store.go, updateAccountAtomic): what the
-- others may do meanwhile, and how the attempt ends.
use orchids_2api.Prelude.{
  ℕ, ◌≤◌, ◌<◌, ◌≡◌, refl, sym, ap, ◌∙◌, inl, inr, Bool, true, false, ◌&&◌, not, Option, none, some,
  leb, ◌==◌, if◌then◌else◌, arith, ==_iff, Bool-cases,
}
use orchids_2api.Prelude.Time.{Time}
use orchids_2api.Document.Fields.{Row}
use orchids_2api.Document.Atomic.{
  max_attempts, mutation_failed, missing, unchanged, written, Writer, idle, watching, finished,
  failed, System, set_writer, stamp, begin_attempt, watch_row, execute, finish_attempt, commit_row,
  replace_row,
}

-- A step that leaves a writer where it is, and if it does not write the row, the row as it is.
Quiet : ℕ → System → System → Type 0
Quiet i s t =
    (t.writers i ≡ s.writers i)
    × (s.version ≤ t.version)
    × (t.version ≡ s.version → t.stored ≡ s.stored)

Quiet-refl : (i : ℕ) (s : System) → Quiet i s s
unfolding Quiet
Quiet-refl i s = (refl, omega arith, λ same. refl)

Quiet-trans : (i : ℕ) (s t u : System) → Quiet i s t → Quiet i t u → Quiet i s u
unfolding Quiet
Quiet-trans i s t u h g = (
  g.0 ∙ h.0,
  omega (arith, h.1, g.1),
  λ same.
      let at_u : u.version ≡ t.version = omega (arith, same, h.1, g.1) in
      let at_t : t.version ≡ s.version = omega (arith, same, h.1, g.1) in g.2 at_u ∙ h.2 at_t,
)

set_writer-Quiet :
    (i j : ℕ) (w : Writer) (s : System) → (j == i) ≡ false → Quiet i s (set_writer j w s)
unfolding Quiet
set_writer-Quiet i j w s other = (rw other refl, omega arith, λ same. refl)

watch_row-Quiet : (i j : ℕ) (s : System) → (j == i) ≡ false → Quiet i s (watch_row j s)
unfolding watch_row
watch_row-Quiet i j s other = go (s.writers j)
  where
    go :
        (w : Writer)
        → Quiet i s (elim w [
          | idle attempt ↦ set_writer j (begin_attempt attempt s.stored s.version) s
          | _ ↦ s
        ])
    go (idle k) = set_writer-Quiet i j (begin_attempt k s.stored s.version) s other
    go (watching k v r) = Quiet-refl i s
    go (finished how) = Quiet-refl i s
    go (failed e) = Quiet-refl i s

replace_row-Quiet : (i : ℕ) (r : Option Row) (s : System) → Quiet i s (replace_row r s)
unfolding Quiet replace_row
replace_row-Quiet i r s = (refl, omega arith, λ same. absurd (omega (arith, same)))

execute-Quiet :
    (i j : ℕ) (now : Time) (k v : ℕ) (r current : Row) (s : System)
    → (j == i) ≡ false
    → Quiet i s (execute j now k v r current s)
unfolding Quiet execute
execute-Quiet i j now k v r current s other = elim (Bool-cases (v == s.version)) [
  | inl valid ↦ rw (valid, other) (refl, omega arith, λ same. absurd (omega (arith, same)))
  | inr late ↦ rw (late, other) (refl, omega arith, λ same. refl)
]

-- Where a writer is, and the row.
abbrev pub end_of : ℕ → System → Writer × Option Row
end_of i s = (s.writers i, s.stored)

set_writer-end_of : (s : System) (i : ℕ) (w : Writer) → end_of i (set_writer i w s) ≡ (w, s.stored)
set_writer-end_of s i w = let self : (i == i) ≡ true = (==_iff i i).1 refl in rw self refl

execute-end_of :
    (t : System) (i : ℕ) (now : Time) (k v : ℕ) (r current : Row)
    → v ≡ t.version
    → end_of i (execute i now k v r current t) ≡ (finished written, some (stamp now r current))
unfolding execute
execute-end_of t i now k v r current same =
    let valid : (v == t.version) ≡ true = ground arith in
    let self : (i == i) ≡ true = (==_iff i i).1 refl in rw (valid, self) refl

module _ (mutate : ℕ → Row → Option Row) (deep_equal : Row → Row → Bool) where
  finish_attempt-Quiet :
      (i j : ℕ) (now : Time) (legacy : Bool) (k v : ℕ) (r : Row) (s : System)
      → (j == i) ≡ false
      → Quiet i s (finish_attempt mutate deep_equal j now legacy k v r s)
  unfolding finish_attempt
  finish_attempt-Quiet i j now legacy k v r s other = go (mutate j r)
    where
      go :
          (o : Option Row)
          → Quiet i s (elim o [
            | none ↦ set_writer j (failed mutation_failed) s
            | some mutated ↦
                if deep_equal (record mutated { updated_at = r.updated_at }) r && not legacy
                then set_writer j (finished unchanged) s
                else execute j now k v r (record mutated { updated_at = r.updated_at }) s
          ])
      go none = set_writer-Quiet i j (failed mutation_failed) s other
      go (some mutated) =
          elim (Bool-cases
            (deep_equal (record mutated { updated_at = r.updated_at }) r && not legacy)) [
              | inl same ↦ rw same (set_writer-Quiet i j (finished unchanged) s other)
              | inr changed ↦ rw changed (
                  execute-Quiet i j now k v r (record mutated { updated_at = r.updated_at }) s
                    other)
            ]

  commit_row-Quiet :
      (i j : ℕ) (now : Time) (legacy : Bool) (s : System)
      → (j == i) ≡ false
      → Quiet i s (commit_row mutate deep_equal j now legacy s)
  unfolding commit_row
  commit_row-Quiet i j now legacy s other = go (s.writers j)
    where
      go :
          (w : Writer)
          → Quiet i s (elim w [
            | watching k v r ↦ finish_attempt mutate deep_equal j now legacy k v r s
            | _ ↦ s
          ])
      go (idle k) = Quiet-refl i s
      go (watching k v r) = finish_attempt-Quiet i j now legacy k v r s other
      go (finished how) = Quiet-refl i s
      go (failed e) = Quiet-refl i s

  -- The steps of other writers, and the writes of other code, from a system on.
  pub data IsMeanwhile (i : ℕ) (s : System) : System → Type 0 where
    at_once : IsMeanwhile i s s
    other_watched :
        {t : System} (j : ℕ)
        → (j == i) ≡ false
        → IsMeanwhile i s t
        → IsMeanwhile i s (watch_row j t)
    other_committed :
        {t : System} (j : ℕ) (now : Time) (legacy : Bool)
        → (j == i) ≡ false
        → IsMeanwhile i s t
        → IsMeanwhile i s (commit_row mutate deep_equal j now legacy t)
    row_replaced :
        {t : System} (r : Option Row) → IsMeanwhile i s t → IsMeanwhile i s (replace_row r t)

  meanwhile-Quiet : {i : ℕ} {s t : System} → IsMeanwhile i s t → Quiet i s t
  meanwhile-Quiet {i} {s} at_once = Quiet-refl i s
  meanwhile-Quiet {i} {s} (other_watched {t} j other h) =
      Quiet-trans i s t (watch_row j t) (meanwhile-Quiet h) (watch_row-Quiet i j t other)
  meanwhile-Quiet {i} {s} (other_committed {t} j now legacy other h) =
      Quiet-trans i s t (commit_row mutate deep_equal j now legacy t) (meanwhile-Quiet h)
        (commit_row-Quiet i j now legacy t other)
  meanwhile-Quiet {i} {s} (row_replaced {t} r h) =
      Quiet-trans i s t (replace_row r t) (meanwhile-Quiet h) (replace_row-Quiet i r t)

  -- How an update that is alone ends, and the row that it leaves.
  abbrev pub update_alone : ℕ → Time → Bool → Option Row → Writer × Option Row
  update_alone i now legacy none = (finished missing, none)
  update_alone i now legacy (some r) = elim (mutate i r) [
    | none ↦ (failed mutation_failed, some r)
    | some mutated ↦
        let current = record mutated { updated_at = r.updated_at } in
        if deep_equal current r && not legacy
        then (finished unchanged, some r)
        else (finished written, some (stamp now r current))
  ]

  finish_attempt-end_of :
      (t : System) (i : ℕ) (now : Time) (legacy : Bool) (k v : ℕ) (r : Row)
      → v ≡ t.version
      → t.stored ≡ some r
      → end_of i (finish_attempt mutate deep_equal i now legacy k v r t)
        ≡ update_alone i now legacy (some r)
  unfolding finish_attempt
  finish_attempt-end_of t i now legacy k v r same found = go (mutate i r)
    where
      go :
          (o : Option Row)
          → end_of i (elim o as (λ x. System) [
            | none ↦ set_writer i (failed mutation_failed) t
            | some mutated ↦
                if deep_equal (record mutated { updated_at = r.updated_at }) r && not legacy
                then set_writer i (finished unchanged) t
                else execute i now k v r (record mutated { updated_at = r.updated_at }) t
          ])
            ≡ elim o [
              | none ↦ (failed mutation_failed, some r)
              | some mutated ↦
                  if deep_equal (record mutated { updated_at = r.updated_at }) r && not legacy
                  then (finished unchanged, some r)
                  else (
                    finished written,
                    some (stamp now r (record mutated { updated_at = r.updated_at })),
                  )
            ]
      go none =
          set_writer-end_of t i (failed mutation_failed)
          ∙ ap (λ o. (failed mutation_failed, o)) found
      go (some mutated) =
          elim (Bool-cases
            (deep_equal (record mutated { updated_at = r.updated_at }) r && not legacy)) [
              | inl equal ↦ rw equal (
                  set_writer-end_of t i (finished unchanged)
                  ∙ ap (λ o. (finished unchanged, o)) found)
              | inr changed ↦
                  rw changed (
                    execute-end_of t i now k v r (record mutated { updated_at = r.updated_at })
                      same)
            ]

  commit_row-watching :
      (t : System) (i : ℕ) (now : Time) (legacy : Bool) (k v : ℕ) (r : Row)
      → t.writers i ≡ watching k v r
      → v ≡ t.version
      → t.stored ≡ some r
      → end_of i (commit_row mutate deep_equal i now legacy t) ≡ update_alone i now legacy (some r)
  unfolding commit_row
  commit_row-watching t i now legacy k v r at same found =
      rw (at, commit_row) (finish_attempt-end_of t i now legacy k v r same found)

  commit_row-finished :
      (t : System) (i : ℕ) (now : Time) (legacy : Bool)
      → t.writers i ≡ finished missing
      → t.stored ≡ none
      → end_of i (commit_row mutate deep_equal i now legacy t) ≡ (finished missing, none)
  unfolding commit_row
  commit_row-finished t i now legacy at gone =
      rw (at, commit_row) (ap (λ w. (w, t.stored)) at ∙ ap (λ o. (finished missing, o)) gone)

  -- The place of a writer that watched the row.
  watch_row-end :
      (s : System) (i k : ℕ)
      → s.writers i ≡ idle k
      → k < max_attempts
      → ((watch_row i s).writers i
          ≡ elim s.stored [ none ↦ finished missing | some r ↦ watching k s.version r ])
        × ((watch_row i s).version ≡ s.version)
        × ((watch_row i s).stored ≡ s.stored)
  unfolding watch_row begin_attempt
  watch_row-end s i k at enough =
      let under : leb max_attempts k ≡ false = ground arith in
      let self : (i == i) ≡ true = (==_iff i i).1 refl in
      rw (at, watch_row, under, begin_attempt, self) (refl, refl, refl)

  -- A writer before its ninth attempt that watches the row, and whose key nobody writes until it ends the
  -- attempt, whatever else the other writers do meanwhile, returns as if it were alone: a missing row
  -- leaves nothing to do, a failed mutation is reported, and both leave the row, as an unchanged row
  -- does; otherwise the new row, with its time, is stored.
  pub undisturbed-returns :
      (s t : System) (i k : ℕ) (now : Time) (legacy : Bool)
      → s.writers i ≡ idle k
      → k < max_attempts
      → IsMeanwhile i (watch_row i s) t
      → t.version ≡ s.version
      → end_of i (commit_row mutate deep_equal i now legacy t) ≡ update_alone i now legacy s.stored
  unfolding Quiet
  undisturbed-returns s t i k now legacy at enough h same =
      let start = watch_row-end s i k at enough in
      let quiet = meanwhile-Quiet h in
      let kept : t.stored ≡ s.stored = quiet.2 (same ∙ sym start.1) ∙ start.2 in
      go s.stored (quiet.0 ∙ start.0) kept
    where
      go :
          (o : Option Row)
          → t.writers i ≡ elim o [ none ↦ finished missing | some r ↦ watching k s.version r ]
          → t.stored ≡ o
          → end_of i (commit_row mutate deep_equal i now legacy t) ≡ update_alone i now legacy o
      go none place gone = commit_row-finished t i now legacy place gone
      go (some r) place found =
          commit_row-watching t i now legacy k s.version r place (sym same) found
