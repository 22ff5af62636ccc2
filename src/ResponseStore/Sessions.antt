-- ===== src/ResponseStore/Sessions.antt =====
-- What a caller of the response store sees over time (internal/store/memory_response_store.go).
use orchids_2api.Prelude.{
  ◌≤◌, String, ◌≡◌, refl, inl, inr, Bool, true, false, not, ◌||◌, Option, none, some, List, arith,
  str_eq, if◌then◌else◌, Bool-cases, Option-cases,
}
use orchids_2api.Prelude.Text.{is_empty, trim_space}
use orchids_2api.Prelude.Time.{Time}
use orchids_2api.Prelude.Assoc.{lookup, delete, string_eq, nat_eq, lookup-delete}
use text.Mathlib.TextEquality.{eq_iff}
use orchids_2api.Prelude.Unique.{Unique, lookup-filter_entries}
use orchids_2api.ResponseStore.{
  StoredResponse, Entry, ResponseStore, no_rows, memory_response_key, is_expired, sweep_locked,
  Fetched, found, failed, get_stored_response, get_entry,
}

-- The abstract store: the record that a key has at a moment.
abbrev pub unexpired : Time → Option Entry → Option StoredResponse
unexpired at none = none
unexpired at (some entry) = if is_expired at entry then none else some entry.stored

abbrev pub visible : Time → ResponseStore → String → Option StoredResponse
visible at s key = unexpired at (lookup key s.entries)

-- What a read answers where the record is known.
abbrev pub answer : Option StoredResponse → Fetched
answer none = failed no_rows
answer (some response) = found response

-- A part of an identity is missing.
abbrev pub is_anonymous : String → String → Bool
is_anonymous response_id owner_hash =
    is_empty (trim_space response_id) || is_empty (trim_space owner_hash)

-- Expiry lasts.
is_expired_mono :
    (now later : Time) (entry : Entry)
    → now ≤ later
    → is_expired now entry ≡ true
    → is_expired later entry ≡ true
unfolding is_expired
is_expired_mono now later entry le h = ground arith

pub sweep-visible :
    (now later : Time) (key : String) (entries : List (String × Entry))
    → Unique entries
    → now ≤ later
    → unexpired later (lookup key (sweep_locked now entries)) ≡ unexpired later (lookup key entries)
unfolding sweep_locked
sweep-visible now later key entries u le =
    let kept = lookup-filter_entries (λ k entry. not (is_expired now entry)) key entries u in
    elim (Option-cases (lookup key entries)) [
      | inl e ↦ rw (kept, e) refl
      | inr (entry, e) ↦ rw (kept, e) (ground (arith, is_expired_mono now later entry le))
    ]

pub delete-unexpired :
    (now later : Time) (own key : String) (entry : Entry) (entries : List (String × Entry))
    → now ≤ later
    → lookup own entries ≡ some entry
    → is_expired now entry ≡ true
    → unexpired later (lookup key (delete own entries)) ≡ unexpired later (lookup key entries)
delete-unexpired now later own key entry entries le e over = elim (Bool-cases (str_eq own key)) [
  | inl same ↦
      let over' = is_expired_mono now later entry le over in
      let own_is : own ≡ key = ground (arith, eq_iff own key) in
      rw (lookup-delete own key entries, same, ← own_is, e, over') refl
  | inr other ↦ rw (lookup-delete own key entries, other) refl
]

get_entry-visible :
    (now : Time) (s : ResponseStore) (own : String)
    → ((get_entry now s own (lookup own s.entries)).1 ≡ answer (visible now s own))
      × ((later : Time) (key : String)
          → now ≤ later
          → visible later (get_entry now s own (lookup own s.entries)).0 key ≡ visible later s key)
unfolding get_entry
get_entry-visible now s own = elim (Option-cases (lookup own s.entries)) [
  | inl e ↦ rw (e, get_entry) (refl, λ later key le. refl)
  | inr (entry, e) ↦ elim (Bool-cases (is_expired now entry)) [
    | inl over ↦
        rw (e, over, get_entry)
          (refl, λ later key le. delete-unexpired now later own key entry s.entries le e over)
    | inr alive ↦ rw (e, alive, get_entry) (refl, λ later key le. refl)
  ]
]

-- A read of an identified response answers the record that its key has at that moment, and no later
-- read of any key is changed by it.
pub get-visible :
    (now : Time) (s : ResponseStore) (response_id owner_hash : String)
    → is_anonymous response_id owner_hash ≡ false
    → let r = get_stored_response now s response_id owner_hash in
      (r.1
        ≡ answer
            (visible now s (memory_response_key (trim_space response_id) (trim_space owner_hash))))
      × ((later : Time) (key : String) → now ≤ later → visible later r.0 key ≡ visible later s key)
unfolding get_stored_response
get-visible now s response_id owner_hash h =
    rw (h, get_stored_response)
      (get_entry-visible now s
        (memory_response_key (trim_space response_id) (trim_space owner_hash)))
