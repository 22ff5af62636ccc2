-- ===== src/Policy/Scopes.antt =====
-- What every verdict of Classify says consistently (internal/accountpolicy/policy.go).
use orchids_2api.Prelude.{
  String, ◌≡◌, refl, inl, inr, Bool, true, false, not, ◌&&◌, Option, none, some, arith, str_eq,
  if◌then◌else◌, Bool-cases, Option-cases,
}
use orchids_2api.Prelude.Int.{◌<ℤ◌, pos}
use orchids_2api.Prelude.Text.{is_empty, trim_space, to_lower, contains, equal_fold}
use orchids_2api.Prelude.Time.{Time}
use orchids_2api.Prelude.Assoc.{string_eq, nat_eq}
use orchids_2api.Account.{Account}
use orchids_2api.Errors.Markers.{
  contains_any, is_credit_exhaustion, is_shared_upstream_queue_refusal, is_upstream_queue_gate,
  is_upstream_service_unavailable, upstream_marker_text,
}
use orchids_2api.Errors.Markers.Codes.{
  IsAccountCode, none_code, unauthorized, payment, forbidden, not_found, throttled,
}
use orchids_2api.Errors.Laws.{classify_account_status-IsAccountCode}
use orchids_2api.Errors.Classify.{
  classify_upstream_error, classify_account_status, classify_lower, classify_shared_refusal,
}
use orchids_2api.Policy.Verdict.{
  Verdict, Scope, scope_none, scope_model, scope_account, scope_credential, success,
}
use orchids_2api.Policy.Classify.{
  UpstreamError, is_model_scoped_failure, is_entitlement_refusal, is_client_refusal,
  is_global_upstream_refusal, account_type_of, daily_count_cooldown, credit_exhaustion_verdict,
  classify_status, classify_model_scope, classify_retry_after, classify_spent, classify_refusal,
  classify, model_cooldown_kind_for,
}

abbrev pub is_account_level : Scope → Bool
is_account_level scope_none = false
is_account_level scope_model = false
is_account_level scope_account = true
is_account_level scope_credential = true

abbrev pub is_credential : Scope → Bool
is_credential scope_credential = true
is_credential _ = false

abbrev pub is_model : Scope → Bool
is_model scope_model = true
is_model _ = false

-- The parts of a verdict agree with one another.
pub record IsCoherent (v : Verdict) : Type 0 where
  pub login : v.needs_login ≡ is_credential v.scope
  pub credential : is_credential v.scope ≡ str_eq v.status "401"
  pub level : is_account_level v.scope ≡ not (is_empty v.status)
  pub throttle : str_eq v.status "429" ≡ true → pos 0 <ℤ v.cooldown
  pub rotates : is_empty v.status ≡ false → v.switch_account ≡ true
  pub labelled :
      is_model v.scope ≡ true → pos 0 <ℤ v.cooldown → is_empty v.model_cooldown_kind ≡ false

classify_status-IsCoherent :
    (now : Time) (acc : Option Account) (err : UpstreamError) (message s : String)
    → IsAccountCode s
    → classify_account_status message ≡ s
    → IsCoherent (classify_status now acc err message)
unfolding classify_status
classify_status-IsCoherent now acc err message s none_code e =
    rw (e, classify_status) (ground arith)
classify_status-IsCoherent now acc err message s unauthorized e =
    rw (e, classify_status) (ground arith)
classify_status-IsCoherent now acc err message s payment e = rw (e, classify_status) (ground arith)
classify_status-IsCoherent now acc err message s forbidden e =
    rw (e, classify_status) (ground arith)
classify_status-IsCoherent now acc err message s not_found e =
    rw (e, classify_status) (ground arith)
classify_status-IsCoherent now acc err message s throttled e =
    rw (e, classify_status) (ground arith)

-- A branch at a time.
if-IsCoherent :
    (b : Bool) (v w : Verdict) → IsCoherent v → IsCoherent w → IsCoherent (if b then v else w)
if-IsCoherent true v w p q = p
if-IsCoherent false v w p q = q

model_cooldown_kind_for-filled : (s : String) → is_empty (model_cooldown_kind_for s) ≡ false
unfolding model_cooldown_kind_for
model_cooldown_kind_for-filled s = elim (Bool-cases (is_entitlement_refusal s)) [
  | inl e ↦ rw (e, model_cooldown_kind_for)
  | inr e ↦ rw (e, model_cooldown_kind_for)
]

classify_model_scope-IsCoherent :
    (now : Time) (acc : Option Account) (err : UpstreamError) (message model : String)
    → IsCoherent (classify_model_scope now acc err message model)
unfolding classify_model_scope
classify_model_scope-IsCoherent now acc err message model =
    if-IsCoherent (is_model_scoped_failure (to_lower message)) _ _
      (ground (arith, model_cooldown_kind_for-filled (to_lower message)))
      (classify_status-IsCoherent now acc err message _
        (classify_account_status-IsAccountCode message) refl)

classify_retry_after-IsCoherent :
    (now : Time) (acc : Option Account) (err : UpstreamError) (message model : String)
    → IsCoherent (classify_retry_after now acc err message model)
unfolding classify_retry_after
classify_retry_after-IsCoherent now acc err message model = elim (Option-cases err.retry_after) [
  | inl e ↦ rw (e, classify_retry_after) (classify_model_scope-IsCoherent now acc err message model)
  | inr (wait, e) ↦ rw (e, classify_retry_after) (ground arith)
]

classify_spent-IsCoherent :
    (now : Time) (acc : Option Account) (err : UpstreamError) (message model : String)
    → IsCoherent (classify_spent now acc err message model)
unfolding classify_spent credit_exhaustion_verdict
classify_spent-IsCoherent now acc err message model =
    let typ = trim_space (account_type_of acc) in
    let waits = classify_retry_after-IsCoherent now acc err message model in
    elim (Bool-cases (equal_fold typ "workbuddy")) [
      | inl e ↦
          rw (e, classify_spent, credit_exhaustion_verdict)
            (if-IsCoherent (is_credit_exhaustion (to_lower message)) _ _ (ground arith) waits)
      | inr e ↦ elim (Bool-cases (equal_fold typ "qoder")) [
        | inl q ↦
            rw (e, q, classify_spent, credit_exhaustion_verdict)
              (if-IsCoherent (is_credit_exhaustion (to_lower message)) _ _ (ground arith) waits)
        | inr q ↦
            rw (e, q, classify_spent, credit_exhaustion_verdict)
              (if-IsCoherent (is_credit_exhaustion (to_lower message)) _ _ waits waits)
      ]
    ]

classify_refusal-IsCoherent :
    (now : Time) (acc : Option Account) (err : UpstreamError) (message model : String)
    → IsCoherent (classify_refusal now acc err message model)
unfolding classify_refusal
classify_refusal-IsCoherent now acc err message model =
    let lower = to_lower message in
    if-IsCoherent (is_global_upstream_refusal lower) _ _ (ground arith) (
      if-IsCoherent (is_client_refusal lower) _ _ (ground arith) (
        if-IsCoherent (contains lower "empty upstream stream") _ _ (ground arith)
          (classify_spent-IsCoherent now acc err message model)))

daily_count_cooldown-pos :
    (acc : Option Account) (now : Time) → pos 0 <ℤ daily_count_cooldown acc now
unfolding daily_count_cooldown
daily_count_cooldown-pos none now = omega arith
daily_count_cooldown-pos (some acc) now = ground arith

-- Whatever the account and the error, the parts of the verdict agree: a login is asked for exactly
-- when the scope is the credential, which is exactly status 401; a status is recorded exactly when
-- the scope is the account or its credential; a status 429 comes with a positive cooldown; a
-- recorded status rotates to another account; a cooldown of one model carries its kind.
pub classify-IsCoherent :
    (now : Time) (acc : Option Account) (err : Option UpstreamError) (model : String)
    → IsCoherent (classify now acc err model)
unfolding classify success
classify-IsCoherent now acc none model = ground arith
classify-IsCoherent now acc (some err) model =
    let lower = to_lower (trim_space err.text) in
    let is_qoder = equal_fold (account_type_of acc) "qoder" in
    if-IsCoherent (is_qoder && contains lower "billing daily count exceeded") _ _
      (ground (arith, daily_count_cooldown-pos acc now))
      (if-IsCoherent (is_qoder && contains lower "no usable plan or allowance") _ _ (ground arith)
        (classify_refusal-IsCoherent now acc err (trim_space err.text) model))

-- A refusal of the request itself is final for both readers of the error: for an account of another
-- channel than Qoder, and a text with nothing to trim that names no shared refusal, the policy
-- records no status, and neither the policy nor the classifier retries or rotates.
client_refusal_final :
    (now : Time) (acc : Option Account) (err : UpstreamError) (model : String)
    → trim_space err.text ≡ err.text
    → is_client_refusal (to_lower err.text) ≡ true
    → equal_fold (account_type_of acc) "qoder" ≡ false
    → is_global_upstream_refusal (to_lower err.text) ≡ false
    → let v = classify now acc (some err) model in
      let c = classify_upstream_error err.text in
      (v.status ≡ "")
      × (v.retryable ≡ false)
      × (v.switch_account ≡ false)
      × (c.retryable ≡ false)
      × (c.switch_account ≡ false)
unfolding classify classify_refusal classify_upstream_error classify_lower is_client_refusal
    contains_any
client_refusal_final now acc err model t h q g = ground arith

-- The two readers disagree on the upstream's own throttled pool: for an account of another channel
-- than Qoder and a text with nothing to trim, where no earlier case of the classifier applies and the
-- text has no queue or service flag, the policy calls the error retryable on the account that it
-- holds, and the classifier calls it not retryable.
pub shared_pool_disagreement :
    (now : Time) (acc : Option Account) (err : UpstreamError) (model : String)
    → trim_space err.text ≡ err.text
    → equal_fold (account_type_of acc) "qoder" ≡ false
    → classify_lower (to_lower err.text) ≡ classify_shared_refusal (to_lower err.text)
    → is_upstream_queue_gate (to_lower err.text) ≡ false
    → is_upstream_service_unavailable (to_lower err.text) ≡ false
    → is_shared_upstream_queue_refusal (to_lower err.text) ≡ true
    → ((classify now acc (some err) model).retryable ≡ true)
      × ((classify now acc (some err) model).switch_account ≡ false)
      × ((classify_upstream_error err.text).retryable ≡ false)
unfolding classify classify_refusal classify_upstream_error classify_shared_refusal
    is_global_upstream_refusal is_shared_upstream_queue_refusal upstream_marker_text contains_any
shared_pool_disagreement now acc err model t q e gate service h = ground arith
