-- ===== src/ResponseStore/History.antt =====
-- Every history of the response store (internal/store/memory_response_store.go).
use orchids_2api.Prelude.{
  ◌≤◌, ◌<◌, String, ◌≡◌, ap, ◌∙◌, inl, inr, Bool, true, false, not, ◌||◌, Option, none, some, List,
  [], ◌∷◌, arith, leb, str_eq, if◌then◌else◌, Bool-cases, Option-cases, length,
}
use orchids_2api.Prelude.Text.{trim_space}
use orchids_2api.Prelude.Time.{Time, Duration, is_zero, before}
use orchids_2api.Prelude.Assoc.{lookup, string_eq, nat_eq, beq_refl}
use orchids_2api.Prelude.Unique.{Unique, insert-Unique, delete-Unique, filter_entries-Unique}
use orchids_2api.ResponseStore.{
  StoredResponse, Entry, ResponseStore, sweep_threshold, memory_response_key, is_expired,
  sweep_locked, save_stored_response, found, get_stored_response, get_entry, delete_entry,
  delete_stored_response,
}
use orchids_2api.ResponseStore.Sessions.{visible, answer, is_anonymous, get-visible}
use orchids_2api.ResponseStore.Writes.{saved, save-visible}
use orchids_2api.ResponseStore.{new_memory_response_store}

-- A call of the store, with the moment at which it reads the clock.
pub data Call : Type 0 where
  save : Time → Option StoredResponse → Duration → Call
  get : Time → String → String → Call
  remove : String → String → Call

-- The store after one call.
unfoldable pub after_call : ResponseStore → Call → ResponseStore
unfolding save_stored_response get_stored_response delete_stored_response
after_call s (save now response ttl) = (save_stored_response now s response ttl).0
after_call s (get now response_id owner_hash) = (get_stored_response now s response_id owner_hash).0
after_call s (remove response_id owner_hash) = (delete_stored_response s response_id owner_hash).0

-- The store after a history of calls.
unfoldable pub after_calls : ResponseStore → List Call → ResponseStore
unfolding after_call
after_calls s [] = s
after_calls s (c ∷ cs) = after_calls (after_call s c) cs

if-Unique :
    (b : Bool) (m n : List (String × Entry)) → Unique m → Unique n → Unique (if b then m else n)
if-Unique true m n p q = p
if-Unique false m n p q = q

save-Unique :
    (now : Time) (s : ResponseStore) (response : StoredResponse) (ttl : Duration)
    → Unique s.entries
    → Unique (save_stored_response now s (some response) ttl).0.entries
unfolding save_stored_response sweep_locked
save-Unique now s response ttl u =
    elim (Bool-cases (is_anonymous response.response_id response.owner_hash)) [
      | inl missing ↦ rw (missing, save_stored_response) u
      | inr there_ ↦
          rw (there_, save_stored_response)
            (insert-Unique _ _ _ (
              if-Unique (leb sweep_threshold (length s.entries)) (sweep_locked now s.entries)
                s.entries
                (filter_entries-Unique (λ k entry. not (is_expired now entry)) s.entries u) u))
    ]

get_entry-Unique :
    (now : Time) (s : ResponseStore) (own : String)
    → Unique s.entries
    → Unique (get_entry now s own (lookup own s.entries)).0.entries
unfolding get_entry
get_entry-Unique now s own u = elim (Option-cases (lookup own s.entries)) [
  | inl e ↦ rw (e, get_entry) u
  | inr (entry, e) ↦ elim (Bool-cases (is_expired now entry)) [
    | inl over ↦ rw (e, over, get_entry) (delete-Unique own s.entries u)
    | inr alive ↦ rw (e, alive, get_entry) u
  ]
]

delete_entry-Unique :
    (s : ResponseStore) (own : String)
    → Unique s.entries
    → Unique (delete_entry s own (lookup own s.entries)).0.entries
unfolding delete_entry
delete_entry-Unique s own u = elim (Option-cases (lookup own s.entries)) [
  | inl e ↦ rw (e, delete_entry) u
  | inr (entry, e) ↦ rw (e, delete_entry) (delete-Unique own s.entries u)
]

after_call-Unique :
    (s : ResponseStore) (c : Call) → Unique s.entries → Unique (after_call s c).entries
unfolding after_call save_stored_response get_stored_response delete_stored_response
after_call-Unique s (save now none ttl) u = u
after_call-Unique s (save now (some response) ttl) u = save-Unique now s response ttl u
after_call-Unique s (get now response_id owner_hash) u =
    let own = memory_response_key (trim_space response_id) (trim_space owner_hash) in
    elim (Bool-cases (is_anonymous response_id owner_hash)) [
      | inl missing ↦ rw (missing, after_call, get_stored_response) u
      | inr present ↦ rw (present, after_call, get_stored_response) (get_entry-Unique now s own u)
    ]
after_call-Unique s (remove response_id owner_hash) u =
    let own = memory_response_key (trim_space response_id) (trim_space owner_hash) in
    elim (Bool-cases (is_anonymous response_id owner_hash)) [
      | inl missing ↦ rw (missing, after_call, delete_stored_response) u
      | inr present ↦ rw (present, after_call, delete_stored_response) (delete_entry-Unique s own u)
    ]

after_calls-Unique :
    (cs : List Call) (s : ResponseStore) → Unique s.entries → Unique (after_calls s cs).entries
unfolding after_calls
after_calls-Unique [] s u = u
after_calls-Unique (c ∷ cs) s u = after_calls-Unique cs (after_call s c) (after_call-Unique s c u)

-- After any history of calls on a new store, a saved response is found by the same identity at any
-- later moment before it expires, with the stamps of the save and all else as it was given.
pub save-get :
    (cs : List Call) (default ttl : Duration) (now later : Time) (response : StoredResponse)
    → now ≤ later
    → is_anonymous response.response_id response.owner_hash ≡ false
    → let s = after_calls (new_memory_response_store default) cs in
      later < (saved now s response ttl).expires_at
      → (get_stored_response later
          (save_stored_response now s (some response) ttl).0
          response.response_id
          response.owner_hash).1
        ≡ found (saved now s response ttl)
unfolding new_memory_response_store
save-get cs default ttl now later response le h lt =
    let s = after_calls (new_memory_response_store default) cs in
    let s' = (save_stored_response now s (some response) ttl).0 in
    let own =
      memory_response_key (trim_space response.response_id) (trim_space response.owner_hash) in
    let u : Unique s.entries = after_calls-Unique cs (new_memory_response_store default) tt in
    let stored = saved now s response ttl in
    let own_found : str_eq own own ≡ true = beq_refl string_eq own in
    let alive : (if is_zero stored.expires_at || before later stored.expires_at
          then some stored
          else none)
        ≡ some stored =
      ground arith in
    let seen : visible later s' own ≡ some (saved now s response ttl) =
      save-visible now later s response ttl own u le h ∙ rw own_found alive in
    (get-visible later s' response.response_id response.owner_hash h).0 ∙ ap answer seen
