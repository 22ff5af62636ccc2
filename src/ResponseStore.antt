-- ===== src/ResponseStore.antt =====
-- internal/store/memory_response_store.go, with StoredResponse of internal/store/store_response.go.
-- The store is not nil, and an operation that reads the clock is given what it reads.
pub mod Sessions
pub mod Writes
pub mod History
use orchids_2api.Prelude.{
  ℕ, zero, suc, ◌+◌, ◌-◌, ◌*◌, ◌/◌, ◌%◌, ◌^◌, ◌≤◌, ◌<◌, min, max, String, ◌≡◌, refl, sym, ap, ◌∙◌,
  subst, ◌≢◌, ◌↔◌, ◌⊎◌, inl, inr, Bool, true, false, not, ◌&&◌, ◌||◌, Option, none, some, List, [],
  ◌∷◌, ◌++◌, map, arith, ltb, leb, ◌==◌, str_eq, if◌then◌else◌, Bool-cases, Option-cases, length,
  any, All,
}
use orchids_2api.Prelude.Int.{ℤ, pos, negsuc, ltb_ℤ, leb_ℤ, pos_part, neg_part}
use orchids_2api.Prelude.Text.{is_empty, trim_space, to_lower, contains, equal_fold, has_prefix}
use orchids_2api.Prelude.Text.Trim.{trim_space_idem}
use orchids_2api.Prelude.Time.{
  Time, Duration, is_zero, after, before, sub, add, second, minute, hour,
}
use orchids_2api.Prelude.Assoc.{
  Eq, lookup, insert, delete, filter_entries, string_eq, nat_eq, lookup-insert, lookup-delete,
  beq_refl, lookup-insert_self, lookup-delete_self,
}
use text.Mathlib.TextEquality.{eq_iff}
use text.Mathlib.TextPositions.{eq_refl}
use orchids_2api.Prelude.Text.{concat}

-- StoredResponse
pub record StoredResponse : Type 0 where
  pub response_id : String
  pub owner_hash : String
  pub account_id : ℕ
  pub model : String
  pub provider : String
  pub prompt_cache_key : String
  pub content_type : String
  pub body : List ℕ
  pub input_items : List ℕ
  pub previous_response_id : String
  pub expires_at : Time
  pub created_at : Time
  pub updated_at : Time

-- memoryStoredResponse
pub record Entry : Type 0 where
  pub stored : StoredResponse
  pub expires_at : Time

-- MemoryResponseStore
pub record ResponseStore : Type 0 where
  pub entries : List (String × Entry)
  pub ttl : Duration

-- ErrStoredResponseIdentityRequired and ErrNoRows
pub data StoreError : Type 0 where
  identity_required no_rows : StoreError

-- MemoryResponseTTL
abbrev pub memory_response_ttl : ℕ
memory_response_ttl = 30 * (24 * hour)

-- memoryResponseSweepThreshold
abbrev pub sweep_threshold : ℕ
sweep_threshold = 256

-- NewMemoryResponseStore
unfoldable pub new_memory_response_store : Duration → ResponseStore
new_memory_response_store ttl = record {
  entries = [];
  ttl = if leb_ℤ ttl (pos 0) then pos memory_response_ttl else ttl;
}

-- memoryResponseKey
unfoldable pub memory_response_key : String → String → String
memory_response_key response_id owner_hash = concat owner_hash (concat "\0" response_id)

-- The row has expired.
unfoldable pub is_expired : Time → Entry → Bool
is_expired now entry = not (is_zero entry.expires_at) && not (before now entry.expires_at)

-- sweepLocked
unfoldable pub sweep_locked : Time → List (String × Entry) → List (String × Entry)
unfolding is_expired
sweep_locked now entries = filter_entries (λ key entry. not (is_expired now entry)) entries

-- The row that SaveStoredResponse stores.
unfoldable pub stamp : Time → Duration → StoredResponse → StoredResponse
stamp now ttl response = record response {
  response_id = trim_space response.response_id;
  owner_hash = trim_space response.owner_hash;
  created_at = if is_zero response.created_at then now else response.created_at;
  updated_at = now;
  expires_at = add now ttl;
}

-- SaveStoredResponse; none is a nil response.
unfoldable pub save_stored_response :
    Time → ResponseStore → Option StoredResponse → Duration → ResponseStore × Option StoreError
unfolding stamp sweep_locked memory_response_key
save_stored_response now s none ttl = (s, some identity_required)
save_stored_response now s (some response) ttl =
    let response_id = trim_space response.response_id in
    let owner_hash = trim_space response.owner_hash in
    let stored = stamp now (if leb_ℤ ttl (pos 0) then s.ttl else ttl) response in
    let kept =
      if leb sweep_threshold (length s.entries) then sweep_locked now s.entries else s.entries in
    if is_empty response_id || is_empty owner_hash then (s, some identity_required) else (
      record s {
        entries =
            insert (memory_response_key response_id owner_hash)
              (record { stored = stored; expires_at = stored.expires_at }) kept;
      },
      none,
    )

-- What GetStoredResponse returns.
pub data Fetched : Type 0 where
  found : StoredResponse → Fetched
  failed : StoreError → Fetched

unfoldable pub get_entry : Time → ResponseStore → String → Option Entry → ResponseStore × Fetched
unfolding is_expired
get_entry now s key none = (s, failed no_rows)
get_entry now s key (some entry) =
    if is_expired now entry
    then (record s { entries = delete key s.entries }, failed no_rows)
    else (s, found entry.stored)

-- GetStoredResponse
unfoldable pub get_stored_response :
    Time → ResponseStore → String → String → ResponseStore × Fetched
unfolding get_entry memory_response_key
get_stored_response now s response_id owner_hash =
    let key = memory_response_key (trim_space response_id) (trim_space owner_hash) in
    if is_empty (trim_space response_id) || is_empty (trim_space owner_hash)
    then (s, failed no_rows)
    else get_entry now s key (lookup key s.entries)

unfoldable pub delete_entry :
    ResponseStore → String → Option Entry → ResponseStore × Option StoreError
delete_entry s key none = (s, some no_rows)
delete_entry s key (some entry) = (record s { entries = delete key s.entries }, none)

-- DeleteStoredResponse
unfoldable pub delete_stored_response :
    ResponseStore → String → String → ResponseStore × Option StoreError
unfolding delete_entry memory_response_key
delete_stored_response s response_id owner_hash =
    let key = memory_response_key (trim_space response_id) (trim_space owner_hash) in
    if is_empty (trim_space response_id) || is_empty (trim_space owner_hash)
    then (s, some no_rows)
    else delete_entry s key (lookup key s.entries)
