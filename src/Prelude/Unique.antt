-- ===== src/Prelude/Unique.antt =====
-- Association lists in which no key stands twice, as in a Go map.
use orchids_2api.Prelude.{
  ◌≡◌, refl, inl, inr, Bool, none, some, List, [], ◌∷◌, arith, if◌then◌else◌, Bool-cases,
}
use orchids_2api.Prelude.Assoc.{
  Eq, lookup, insert, delete, filter_entries, string_eq, nat_eq, lookup-insert, lookup-delete,
}

module _ {κ} {K : Type κ} {V : Type 0} ⦃e : Eq K⦄ where
  abbrev pub Unique : List (K × V) → Type 0
  Unique [] = Unit
  Unique ((j, v) ∷ m) = (lookup j m ≡ none) × Unique m

  pub insert-Unique : (k : K) (v : V) (m : List (K × V)) → Unique m → Unique (insert k v m)
  unfolding insert lookup
  insert-Unique k v [] h = (refl, tt)
  insert-Unique k v ((j, w) ∷ m) h = elim (Bool-cases (e.beq j k)) [
    | inl same ↦ rw (same, insert) (ground (arith, e.beq_iff j k), h.1)
    | inr other ↦
        rw (other, insert)
          (
            ground (arith, lookup-insert k j v m, e.beq_iff j k, e.beq_iff k j),
            insert-Unique k v m h.1,
          )
  ]

  pub delete-Unique : (k : K) (m : List (K × V)) → Unique m → Unique (delete k m)
  unfolding delete lookup
  delete-Unique k [] h = tt
  delete-Unique k ((j, w) ∷ m) h = elim (Bool-cases (e.beq j k)) [
    | inl same ↦ rw (same, delete) (delete-Unique k m h.1)
    | inr other ↦ rw (other, delete) (ground (arith, lookup-delete k j m), delete-Unique k m h.1)
  ]

  -- A key is kept with its value if the value passes.
  pub lookup-filter_entries :
      (p : K → V → Bool) (k : K) (m : List (K × V))
      → Unique m
      → lookup k (filter_entries p m)
        ≡ elim (lookup k m) [ none ↦ none | some v ↦ if p k v then some v else none ]
  unfolding filter_entries lookup
  lookup-filter_entries p k [] h = refl
  lookup-filter_entries p k ((j, w) ∷ m) h =
      ground (arith, e.beq_iff j k, lookup-filter_entries p k m h.1)

  pub filter_entries-Unique :
      (p : K → V → Bool) (m : List (K × V)) → Unique m → Unique (filter_entries p m)
  unfolding filter_entries lookup
  filter_entries-Unique p [] h = tt
  filter_entries-Unique p ((j, w) ∷ m) h = elim (Bool-cases (p j w)) [
    | inl keep ↦
        rw (keep, filter_entries)
          (ground (arith, lookup-filter_entries p j m h.1), filter_entries-Unique p m h.1)
    | inr drop ↦ rw (drop, filter_entries) (filter_entries-Unique p m h.1)
  ]
