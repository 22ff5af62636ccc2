-- ===== src/Errors/Laws.antt =====
-- What the two classifiers of internal/errors/classify.go promise to the request path and to the
-- account policy.

use orchids_2api.Prelude.{String, ◌≡◌, Bool, true, false, ◌||◌, arith}
use orchids_2api.Prelude.Text.{contains, to_lower}
use orchids_2api.Errors.Markers.{
  is_upstream_queue_gate, is_upstream_service_unavailable, is_shared_upstream_queue_refusal,
}
use orchids_2api.Errors.Markers.Codes.{
  IsAccountCode, none_code, account_codes, if-IsAccountCode, scan_status_code-IsAccountCode,
  leading_status_code-IsAccountCode,
}
use orchids_2api.Errors.Classify.{
  classify_by_status, classify_shared_refusal, classify_lower, classify_upstream_error,
  classify_account_status, account_status_of_phrases, blames_model_or_plan,
}

classify_by_status-switch :
    (s : String) → (classify_by_status s).switch_account ≡ (classify_by_status s).retryable
unfolding classify_by_status
classify_by_status-switch s = ground arith

-- Whatever the text, an error that sends the request to another account is also retryable.
switch-retryable :
    (s : String)
    → (classify_upstream_error s).switch_account ≡ true
    → (classify_upstream_error s).retryable ≡ true
unfolding classify_upstream_error classify_lower classify_shared_refusal
switch-retryable s h = ground (arith, classify_by_status-switch (to_lower s))

-- The account-scoped markers that are read before a shared refusal.
abbrev pub is_account_scoped : String → Bool
is_account_scoped lower =
    contains lower "billing daily count exceeded" || contains lower "no usable plan or allowance"

-- A refusal that names a queue, a closed service or the upstream's own pool.
abbrev pub is_shared_refusal : String → Bool
is_shared_refusal lower =
    is_upstream_queue_gate lower
    || is_upstream_service_unavailable lower
    || is_shared_upstream_queue_refusal lower

-- A refusal that every account would meet never rotates the pool, unless the text also carries one
-- of the two account-scoped markers that are read first.
shared-refusal_keeps_account :
    (s : String)
    → is_shared_refusal (to_lower s) ≡ true
    → is_account_scoped (to_lower s) ≡ false
    → (classify_upstream_error s).switch_account ≡ false
unfolding classify_upstream_error classify_lower classify_shared_refusal
shared-refusal_keeps_account s h k = ground arith

account_status_of_phrases-IsAccountCode : (s : String) → IsAccountCode (account_status_of_phrases s)
unfolding account_status_of_phrases
account_status_of_phrases-IsAccountCode s = search (if-IsAccountCode, account_codes)

-- Whatever the text, the answer is empty or one of the five codes that the account policy knows.
pub classify_account_status-IsAccountCode : (s : String) → IsAccountCode (classify_account_status s)
unfolding classify_account_status
classify_account_status-IsAccountCode s = search (
  if-IsAccountCode, none_code, leading_status_code-IsAccountCode, scan_status_code-IsAccountCode,
  account_status_of_phrases-IsAccountCode,
)

-- A text that blames the model or the plan never yields a status, so a healthy account is not
-- parked for it, whatever code the text carries besides.
pub blames_model_no_status :
    (s : String) → blames_model_or_plan (to_lower s) ≡ true → classify_account_status s ≡ ""
unfolding classify_account_status
blames_model_no_status s h = ground arith
