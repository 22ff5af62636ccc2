-- ===== src/Tests/ResponseStore.antt =====
-- The theorems on the response store, on a store of one response.
use orchids_2api.Prelude.{
  ◌+◌, ◌≤◌, String, ◌≡◌, refl, sym, ◌↔◌, true, false, none, some, [], ◌∷◌, arith, str_eq,
  if◌then◌else◌,
}
use orchids_2api.Prelude.Int.{pos}
use orchids_2api.Prelude.Text.{trim_space}
use orchids_2api.Prelude.Time.{Time, minute, hour}
use orchids_2api.Prelude.Assoc.{lookup, string_eq, nat_eq}
use text.Mathlib.TextEquality.{eq_iff}
use orchids_2api.ResponseStore.{
  StoredResponse, Entry, ResponseStore, no_rows, memory_response_key, stamp, save_stored_response,
  get_stored_response, delete_stored_response, found, new_memory_response_store,
}
use orchids_2api.ResponseStore.Sessions.{visible, get-visible}
use orchids_2api.ResponseStore.Writes.{save-visible, save-other_owner, delete-visible}
use orchids_2api.ResponseStore.History.{save, save-get, after_calls}
use orchids_2api.Tests.Samples.{noon}

abbrev response : StoredResponse
response = record {
  response_id = " resp_1";
  owner_hash = "ab";
  account_id = 7;
  model = "grok-4";
  provider = "grok";
  prompt_cache_key = "";
  content_type = "application/json";
  body = 123 ∷ 125 ∷ [];
  input_items = [];
  previous_response_id = "";
  expires_at = 0;
  created_at = 0;
  updated_at = 0;
}

abbrev empty_store : ResponseStore
empty_store = record { entries = []; ttl = pos hour }

abbrev filled_store : ResponseStore
filled_store = record {
  entries = ("ab\0resp_1", record { stored = response; expires_at = noon + hour }) ∷ [];
  ttl = pos hour;
}

save-get_example :
    (get_stored_response
      (noon + minute)
      (save_stored_response noon
        (after_calls (new_memory_response_store (pos 0)) (save noon none (pos 0) ∷ []))
        (some response)
        (pos hour)).0
      " resp_1"
      "ab").1
    ≡ found (stamp noon (pos hour) response)
unfolding trim_space stamp
save-get_example =
    save-get (save noon none (pos 0) ∷ []) (pos 0) (pos hour) noon (noon + minute) response
      (omega arith) refl (omega arith)

get-visible_example :
    ((get_stored_response noon filled_store "resp_1 " "ab").1 ≡ found response)
    × ((later : Time) (key : String)
        → noon ≤ later
        → visible later (get_stored_response noon filled_store "resp_1 " "ab").0 key
          ≡ visible later filled_store key)
unfolding trim_space lookup memory_response_key orchids_2api.ResponseStore.is_expired
get-visible_example = get-visible noon filled_store "resp_1 " "ab" refl

save-visible_example :
    visible
      (noon + minute)
      (save_stored_response noon empty_store (some response) (pos 0)).0
      "ab\0resp_1"
    ≡ some (stamp noon (pos hour) response)
unfolding trim_space memory_response_key stamp
save-visible_example =
    save-visible noon (noon + minute) empty_store response (pos 0) "ab\0resp_1" tt (omega arith)
      refl

save-other_owner_example :
    (get_stored_response noon
      (save_stored_response noon empty_store (some response) (pos 0)).0
      "resp_1"
      "cd").1
    ≡ (get_stored_response noon empty_store "resp_1" "cd").1
unfolding trim_space
save-other_owner_example =
    save-other_owner noon noon empty_store response (pos 0) "resp_1" "cd" tt (omega arith) refl refl
      refl (λ e. let same : true ≡ false = sym ((eq_iff "ab" "cd").1 e) in cc same)

delete-visible_example :
    (((delete_stored_response filled_store "resp_1" "ab").1 ≡ some no_rows)
      ↔ (lookup "ab\0resp_1" filled_store.entries ≡ none))
    × ((later : Time) (key : String)
        → visible later (delete_stored_response filled_store "resp_1" "ab").0 key
          ≡ (if str_eq "ab\0resp_1" key then none else visible later filled_store key))
unfolding trim_space memory_response_key
delete-visible_example = delete-visible filled_store "resp_1" "ab" refl
