-- ===== src/ResponseStore/Writes.antt =====
-- What a caller of the response store sees after a save and a delete (internal/store/memory_response_store.go).
use orchids_2api.Prelude.{
  ◌≤◌, String, ◌≡◌, refl, sym, ap, ◌∙◌, ◌≢◌, ◌↔◌, inl, inr, false, ◌||◌, none, some, List, arith,
  leb, str_eq, if◌then◌else◌, Bool-cases, Option-cases, length,
}
use orchids_2api.Prelude.Int.{pos, leb_ℤ}
use orchids_2api.Prelude.Text.{trim_space}
use orchids_2api.Prelude.Time.{Time, Duration, is_zero, before}
use orchids_2api.Prelude.Assoc.{lookup, string_eq, nat_eq, lookup-insert, lookup-delete}
use text.Mathlib.TextEquality.{eq_iff}
use orchids_2api.Prelude.Unique.{Unique}
use Prim.Native.String.{count}
use text.Mathlib.TextLemmas.{append_inj, append_cancel_left}
use orchids_2api.ResponseStore.{
  StoredResponse, Entry, ResponseStore, no_rows, sweep_threshold, memory_response_key, is_expired,
  sweep_locked, stamp, save_stored_response, get_stored_response, delete_entry,
  delete_stored_response,
}
use orchids_2api.ResponseStore.Sessions.{
  unexpired, visible, answer, is_anonymous, sweep-visible, get-visible,
}

kept_entries : Time → ResponseStore → List (String × Entry)
kept_entries now s =
    if leb sweep_threshold (length s.entries) then sweep_locked now s.entries else s.entries

kept-visible :
    (now later : Time) (s : ResponseStore) (key : String)
    → Unique s.entries
    → now ≤ later
    → unexpired later (lookup key (kept_entries now s)) ≡ visible later s key
unfolding kept_entries
kept-visible now later s key u le = elim (Bool-cases (leb sweep_threshold (length s.entries))) [
  | inl many ↦ rw (many, kept_entries) (sweep-visible now later key s.entries u le)
  | inr few ↦ rw (few, kept_entries) refl
]

-- The record that a save stores.
abbrev pub saved : Time → ResponseStore → StoredResponse → Duration → StoredResponse
saved now s response ttl = stamp now (if leb_ℤ ttl (pos 0) then s.ttl else ttl) response

row-unexpired :
    (later t : Time) (stored : StoredResponse)
    → unexpired later (some (record { stored = stored; expires_at = t }))
      ≡ (if is_zero t || before later t then some stored else none)
unfolding is_expired
row-unexpired later t stored = ground arith

-- After an identified response is saved, a read at that moment or later finds the stamped record
-- under its key until it expires, and finds under every other key what it found before: the sweep of
-- a full store is not seen.
pub save-visible :
    (now later : Time) (s : ResponseStore) (response : StoredResponse) (ttl : Duration)
    (key : String)
    → Unique s.entries
    → now ≤ later
    → is_anonymous response.response_id response.owner_hash ≡ false
    → let own =
        memory_response_key (trim_space response.response_id) (trim_space response.owner_hash) in
      let stored = saved now s response ttl in
      visible later (save_stored_response now s (some response) ttl).0 key ≡ (
        if str_eq own key
        then (if is_zero stored.expires_at || before later stored.expires_at
            then some stored
            else none)
        else visible later s key)
unfolding save_stored_response kept_entries
save-visible now later s response ttl key u le h =
    let own =
      memory_response_key (trim_space response.response_id) (trim_space response.owner_hash) in
    let stored = saved now s response ttl in
    let entry : Entry = record { stored = stored; expires_at = stored.expires_at } in
    let found_at = lookup-insert own key entry (kept_entries now s) in
    elim (Bool-cases (str_eq own key)) [
      | inl same ↦
          rw (h, found_at, same, save_stored_response)
            (row-unexpired later stored.expires_at stored)
      | inr other ↦
          rw (h, found_at, other, save_stored_response) (kept-visible now later s key u le)
    ]

-- The keys of two owners whose fingerprints have the same length differ, unless both the owners and
-- the identities are the same.
memory_response_key-inj :
    (a b owner_a owner_b : String)
    → count owner_a ≡ count owner_b
    → memory_response_key a owner_a ≡ memory_response_key b owner_b
    → (owner_a ≡ owner_b) × (a ≡ b)
unfolding memory_response_key
memory_response_key-inj a b owner_a owner_b len e =
    let (owners, rest) = append_inj e len in (owners, append_cancel_left "\0" a b rest)

-- A response is readable only by the owner that saved it: for two different owners whose trimmed fingerprints have the
-- same length, no save of one changes what any later read of the other answers.
pub save-other_owner :
    (now later : Time) (s : ResponseStore) (response : StoredResponse) (ttl : Duration)
    → (response_id owner_hash : String) → Unique s.entries
    → now ≤ later
    → is_anonymous response.response_id response.owner_hash ≡ false
    → is_anonymous response_id owner_hash ≡ false
    → count (trim_space response.owner_hash) ≡ count (trim_space owner_hash)
    → trim_space response.owner_hash ≢ trim_space owner_hash
    → (get_stored_response later
        (save_stored_response now s (some response) ttl).0
        response_id
        owner_hash).1
      ≡ (get_stored_response later s response_id owner_hash).1
save-other_owner now later s response ttl response_id owner_hash u le h k len differ =
    let s' = (save_stored_response now s (some response) ttl).0 in
    let own =
      memory_response_key (trim_space response.response_id) (trim_space response.owner_hash) in
    let key = memory_response_key (trim_space response_id) (trim_space owner_hash) in
    let apart : str_eq own key ≡ false = elim (Bool-cases (str_eq own key)) [
      | inl same ↦ absurd (
          differ
            (memory_response_key-inj (trim_space response.response_id) (trim_space response_id)
              (trim_space response.owner_hash) (trim_space owner_hash) len
              ((eq_iff own key).0 same)).0)
      | inr other ↦ other
    ] in
    let unseen : visible later s' key ≡ visible later s key =
      save-visible now later s response ttl key u le h ∙ rw apart refl in
    (get-visible later s' response_id owner_hash k).0
    ∙ ap answer unseen
    ∙ sym (get-visible later s response_id owner_hash k).0

delete_entry-visible :
    (later : Time) (s : ResponseStore) (own key : String)
    → visible later (delete_entry s own (lookup own s.entries)).0 key
      ≡ (if str_eq own key then none else visible later s key)
unfolding delete_entry
delete_entry-visible later s own key = elim (Option-cases (lookup own s.entries)) [
  | inl e ↦ elim (Bool-cases (str_eq own key)) [
    | inl same ↦
        let own_is : own ≡ key = (eq_iff own key).0 same in
        rw (e, same, delete_entry) (rw (← own_is, e) refl)
    | inr other ↦ rw (e, other, delete_entry) refl
  ]
  | inr (entry, e) ↦ elim (Bool-cases (str_eq own key)) [
    | inl same ↦ rw (e, same, delete_entry) (rw (lookup-delete own key s.entries, same) refl)
    | inr other ↦ rw (e, other, delete_entry) (rw (lookup-delete own key s.entries, other) refl)
  ]
]

delete_entry-refused :
    (s : ResponseStore) (own : String)
    → ((delete_entry s own (lookup own s.entries)).1 ≡ some no_rows) ↔ (lookup own s.entries ≡ none)
unfolding delete_entry
delete_entry-refused s own = elim (Option-cases (lookup own s.entries)) [
  | inl e ↦ rw (e, delete_entry) (λ x. refl, λ x. refl)
  | inr (entry, e) ↦
      rw (e, delete_entry) (λ x. absurd (let y = x in cc y), λ x. absurd (let y = x in cc y))
]

-- A delete of an identified response is refused exactly when the store has no row of its key, and
-- afterwards no read finds that key, while reads of every other key find what they found before.
pub delete-visible :
    (s : ResponseStore) (response_id owner_hash : String)
    → is_anonymous response_id owner_hash ≡ false
    → let own = memory_response_key (trim_space response_id) (trim_space owner_hash) in
      let r = delete_stored_response s response_id owner_hash in
      ((r.1 ≡ some no_rows) ↔ (lookup own s.entries ≡ none))
      × ((later : Time) (key : String)
          → visible later r.0 key ≡ (if str_eq own key then none else visible later s key))
unfolding delete_stored_response
delete-visible s response_id owner_hash h =
    let own = memory_response_key (trim_space response_id) (trim_space owner_hash) in
    rw (h, delete_stored_response)
      (delete_entry-refused s own, λ later key. delete_entry-visible later s own key)
