-- ===== src/Document/Atomic/Committed.antt =====
-- Every committed update was applied to the row that it replaced, and a writer gives up only after as
-- many other writes as it made attempts.
use orchids_2api.Prelude.{
  ℕ, ◌+◌, List, [], suc, ◌≤◌, ◌≡◌, refl, sym, ap, ◌∙◌, subst, inl, inr, Bool, ◌&&◌, not, Option,
  none, some, ◌∷◌, leb, ◌==◌, if◌then◌else◌, arith, ==_iff, Bool-cases, length,
}
use orchids_2api.Prelude.Time.{Time}
use orchids_2api.Document.Fields.{Row}
use orchids_2api.Document.Atomic.{
  max_attempts, mutation_failed, changed_too_frequently, Writer, idle, watching, finished, failed,
  unchanged, written, Write, committed, replaced, System, set_writer, stamp, begin_attempt,
  watch_row, execute, finish_attempt, commit_row, replace_row, IsReached, started, watched,
  committed_or_retried, overwritten, apply_write, replay,
}

-- What a writer knows of the row: a watched row is the stored one while nothing was written, and every
-- attempt but the first follows a write.
abbrev Knows : Option Row → ℕ → Writer → Type 0
Knows stored version (idle k) = k ≤ version
Knows stored version (watching k v row) =
    (k ≤ v) × (v ≤ version) × (v ≡ version → stored ≡ some row)
Knows stored version (finished how) = Unit
Knows stored version (failed mutation_failed) = Unit
Knows stored version (failed changed_too_frequently) = max_attempts ≤ version

-- After another write a writer knows less, but nothing false.
written-Knows :
    (stored other : Option Row) (version : ℕ) (w : Writer)
    → Knows stored version w
    → Knows other (suc version) w
written-Knows stored other version (idle k) h = omega arith
written-Knows stored other version (watching k v row) h =
    (h.0, omega arith, λ same. absurd (omega arith))
written-Knows stored other version (finished how) h = tt
written-Knows stored other version (failed mutation_failed) h = tt
written-Knows stored other version (failed changed_too_frequently) h = omega arith

-- The number of the commits of a writer in the log, and the number that it knows of.
abbrev pub commits_of : ℕ → List Write → ℕ
commits_of i [] = 0
commits_of i (committed j now ∷ log) = (if j == i then 1 else 0) + commits_of i log
commits_of i (replaced row ∷ log) = commits_of i log

abbrev pub stored_by : Writer → ℕ
stored_by (finished written) = 1
stored_by _ = 0

-- Every writer of a system knows what it may, the row is what the writes made of the first one, and a
-- writer that returned with its update stored committed it once.
abbrev IsConsistent : (ℕ → Row → Option Row) → Option Row → System → Type 0
IsConsistent mutate row s =
    ((j : ℕ) → Knows s.stored s.version (s.writers j))
    × (s.stored ≡ replay mutate s.log row)
    × (length s.log ≡ s.version)
    × ((j : ℕ) → commits_of j s.log ≡ stored_by (s.writers j))

set_writer-Knows :
    (s : System) (i : ℕ) (w : Writer)
    → ((j : ℕ) → Knows s.stored s.version (s.writers j))
    → Knows s.stored s.version w
    → (j : ℕ) → Knows s.stored s.version ((set_writer i w s).writers j)
set_writer-Knows s i w h g j = elim (Bool-cases (i == j)) [
  | inl same ↦ rw same g
  | inr other ↦ rw other (h j)
]

-- A writer that moves to a place that it may be in, with as many commits as before.
set_writer-IsConsistent :
    (mutate : ℕ → Row → Option Row) (row : Option Row) (s : System) (i : ℕ) (w : Writer)
    → IsConsistent mutate row s
    → Knows s.stored s.version w
    → stored_by (s.writers i) ≡ stored_by w
    → IsConsistent mutate row (set_writer i w s)
set_writer-IsConsistent mutate row s i w h g same = (
  set_writer-Knows s i w h.0 g,
  h.1,
  h.2,
  λ j. elim (Bool-cases (i == j)) [
    | inl own ↦
        let j_is : i ≡ j = (==_iff i j).0 own in
        rw own (h.3 j ∙ sym (ap (λ k. stored_by (s.writers k)) j_is) ∙ same)
    | inr other ↦ rw other (h.3 j)
  ],
)

begin_attempt-Knows :
    (k : ℕ) (stored : Option Row) (version : ℕ)
    → k ≤ version
    → Knows stored version (begin_attempt k stored version)
unfolding begin_attempt
begin_attempt-Knows k none version h = elim (Bool-cases (leb max_attempts k)) [
  | inl over ↦ rw over (ground arith)
  | inr under ↦ rw under tt
]
begin_attempt-Knows k (some row) version h = elim (Bool-cases (leb max_attempts k)) [
  | inl over ↦ rw over (ground arith)
  | inr under ↦ rw under (h, omega arith, λ same. refl)
]

begin_attempt-stored_by :
    (k : ℕ) (stored : Option Row) (version : ℕ) → stored_by (begin_attempt k stored version) ≡ 0
unfolding begin_attempt
begin_attempt-stored_by k none version = elim (Bool-cases (leb max_attempts k)) [
  | inl over ↦ rw over refl
  | inr under ↦ rw under refl
]
begin_attempt-stored_by k (some row) version = elim (Bool-cases (leb max_attempts k)) [
  | inl over ↦ rw over refl
  | inr under ↦ rw under refl
]

watch_row-IsConsistent :
    (mutate : ℕ → Row → Option Row) (row : Option Row) (s : System) (i : ℕ)
    → IsConsistent mutate row s
    → IsConsistent mutate row (watch_row i s)
unfolding watch_row
watch_row-IsConsistent mutate row s i h = go (s.writers i) refl
  where
    go :
        (w : Writer)
        → s.writers i ≡ w
        → IsConsistent mutate row (elim w [
          | idle attempt ↦ set_writer i (begin_attempt attempt s.stored s.version) s
          | _ ↦ s
        ])
    go (idle k) at =
        set_writer-IsConsistent mutate row s i (begin_attempt k s.stored s.version) h
          (begin_attempt-Knows k s.stored s.version (subst (Knows s.stored s.version) at (h.0 i)))
          (ap stored_by at ∙ sym (begin_attempt-stored_by k s.stored s.version))
    go (watching k v r) at = h
    go (finished how) at = h
    go (failed e) at = h

apply-committed :
    (mutate : ℕ → Row → Option Row) (i : ℕ) (now : Time) (r mutated : Row)
    → mutate i r ≡ some mutated
    → apply_write mutate (committed i now) (some r)
      ≡ some (stamp now r (record mutated { updated_at = r.updated_at }))
unfolding apply_write
apply-committed mutate i now r mutated h = rw (h, apply_write) refl

module _ (mutate : ℕ → Row → Option Row) (deep_equal : Row → Row → Bool) (row : Option Row) where
  execute-IsConsistent :
      (s : System) (i : ℕ) (now : Time) (k v : ℕ) (r mutated : Row)
      → mutate i r ≡ some mutated
      → IsConsistent mutate row s
      → Knows s.stored s.version (watching k v r)
      → stored_by (s.writers i) ≡ 0
      → IsConsistent mutate row
          (execute i now k v r (record mutated { updated_at = r.updated_at }) s)
  unfolding execute replay
  execute-IsConsistent s i now k v r mutated accepted h g none_yet =
      elim (Bool-cases (v == s.version)) [
        | inr late ↦
            rw late
              (set_writer-IsConsistent mutate row s i (idle (suc k)) h (ground arith) none_yet)
        | inl valid ↦
            let current : Row = record mutated { updated_at = r.updated_at } in
            let after_write : System = record s {
              stored = some (stamp now r current);
              version = suc s.version;
              log = committed i now ∷ s.log;
            } in
            rw valid (
              set_writer-Knows after_write i (finished written)
                  (λ j.
                    written-Knows s.stored (some (stamp now r current)) s.version (s.writers j)
                      (h.0 j))
                  tt,
              sym (apply-committed mutate i now r mutated accepted)
                  ∙ ap (apply_write mutate (committed i now)) (sym (g.2 (ground arith)) ∙ h.1),
              ap suc h.2,
              λ j. elim (Bool-cases (i == j)) [
                | inl own ↦
                    let j_is : i ≡ j = (==_iff i j).0 own in
                    let before : commits_of j s.log ≡ 0 =
                      h.3 j ∙ sym (ap (λ k. stored_by (s.writers k)) j_is) ∙ none_yet in
                    rw own (omega (arith, before))
                | inr other ↦ rw other (omega (arith, h.3 j))
              ],
            )
      ]

  finish_attempt-IsConsistent :
      (s : System) (i : ℕ) (now : Time) (legacy : Bool) (k v : ℕ) (r : Row)
      → IsConsistent mutate row s
      → Knows s.stored s.version (watching k v r)
      → stored_by (s.writers i) ≡ 0
      → IsConsistent mutate row (finish_attempt mutate deep_equal i now legacy k v r s)
  unfolding finish_attempt
  finish_attempt-IsConsistent s i now legacy k v r h g none_yet = go (mutate i r) refl
    where
      go :
          (o : Option Row)
          → mutate i r ≡ o
          → IsConsistent mutate row (elim o [
            | none ↦ set_writer i (failed mutation_failed) s
            | some mutated ↦
                if deep_equal (record mutated { updated_at = r.updated_at }) r && not legacy
                then set_writer i (finished unchanged) s
                else execute i now k v r (record mutated { updated_at = r.updated_at }) s
          ])
      go none refused =
          set_writer-IsConsistent mutate row s i (failed mutation_failed) h tt none_yet
      go (some mutated) accepted =
          elim (Bool-cases
            (deep_equal (record mutated { updated_at = r.updated_at }) r && not legacy)) [
              | inl same ↦
                  rw same
                    (set_writer-IsConsistent mutate row s i (finished unchanged) h tt none_yet)
              | inr changed ↦
                  rw changed (execute-IsConsistent s i now k v r mutated accepted h g none_yet)
            ]

  commit_row-IsConsistent :
      (s : System) (i : ℕ) (now : Time) (legacy : Bool)
      → IsConsistent mutate row s
      → IsConsistent mutate row (commit_row mutate deep_equal i now legacy s)
  unfolding commit_row
  commit_row-IsConsistent s i now legacy h = go (s.writers i) refl
    where
      go :
          (w : Writer)
          → s.writers i ≡ w
          → IsConsistent mutate row (elim w [
            | watching k v r ↦ finish_attempt mutate deep_equal i now legacy k v r s
            | _ ↦ s
          ])
      go (idle k) at = h
      go (watching k v r) at =
          finish_attempt-IsConsistent s i now legacy k v r h
            (subst (Knows s.stored s.version) at (h.0 i)) (ap stored_by at)
      go (finished how) at = h
      go (failed e) at = h

  reached-IsConsistent :
      {s : System} → IsReached mutate deep_equal row s → IsConsistent mutate row s
  unfolding replay replace_row apply_write
  reached-IsConsistent started = (λ j. omega arith, refl, refl, λ j. refl)
  reached-IsConsistent (watched {s} i h) =
      watch_row-IsConsistent mutate row s i (reached-IsConsistent h)
  reached-IsConsistent (committed_or_retried {s} i now legacy h) =
      commit_row-IsConsistent s i now legacy (reached-IsConsistent h)
  reached-IsConsistent (overwritten {s} r h) =
      let before = reached-IsConsistent h in
      (
        λ j. written-Knows s.stored r s.version (s.writers j) (before.0 j),
        refl,
        ap suc before.2,
        before.3,
      )

  -- In every system that the writers reach, the stored row is what the committed updates and the other
  -- writes make of the first row, each applied to the row that the ones before it left; the count of
  -- the writes is exact; a writer has committed once if it returned with its update stored, and not
  -- at all otherwise; and a writer that gave up for too many changes did so after at least eight
  -- writes.
  pub reached-replay :
      {s : System}
      → IsReached mutate deep_equal row s
      → (s.stored ≡ replay mutate s.log row)
        × (s.version ≡ length s.log)
        × ((i : ℕ) → commits_of i s.log ≡ stored_by (s.writers i))
        × ((i : ℕ) → s.writers i ≡ failed changed_too_frequently → max_attempts ≤ length s.log)
  reached-replay {s} h =
      let invariant = reached-IsConsistent h in
      (
        invariant.1,
        sym invariant.2,
        invariant.3,
        λ i gave_up.
            subst (λ n. max_attempts ≤ n) (sym invariant.2)
              (subst (Knows s.stored s.version) gave_up (invariant.0 i)),
      )
