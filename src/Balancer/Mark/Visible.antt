-- ===== src/Balancer/Mark/Visible.antt =====
-- A marked status is seen by the next selection and is what the store is given.
use orchids_2api.Prelude.{
  ℕ, ◌+◌, ◌≤◌, String, ◌≡◌, refl, sym, ap, ◌∙◌, subst, ◌⊎◌, inl, inr, true, false, ◌==◌, some, List,
  [], ◌∷◌, ◌++◌, arith, if◌then◌else◌, Bool-cases,
}
use orchids_2api.Prelude.Int.{ℤ, pos}
use orchids_2api.Prelude.Int64.{add_int64}
use orchids_2api.Prelude.Text.{is_empty}
use orchids_2api.Prelude.Time.{Time}
use orchids_2api.Account.{Account, account_auth_status_reauth_required}
use orchids_2api.Policy.Hold.{rate_limit_cooldown}
use orchids_2api.Balancer.State.{Balancer, Ref, store_at, cached_account_locked}
use orchids_2api.Balancer.Mark.{
  mark_reset, mark_row, copy_mark, write_cached, publish_status, mark_account_status,
}

-- What routing reads of a status.
abbrev pub Standing : Type 0
Standing = String × Time × String × ℤ × Time

abbrev pub standing : Account → Standing
standing acc = (
  acc.status_code, acc.last_attempt, acc.auth_status, acc.rate_limit_failures, acc.quota_reset_at,
)

store_at_self : (heap : Ref → Account) (r : Ref) (acc : Account) → store_at heap r acc r ≡ acc
unfolding store_at
store_at_self heap r acc = let same : (r == r) ≡ true = ground arith in rw (same, store_at) refl

store_at-other :
    (heap : Ref → Account) (r p : Ref) (acc : Account)
    → (p == r) ≡ false
    → store_at heap r acc p ≡ heap p
unfolding store_at
store_at-other heap r p acc h = rw (h, store_at) refl

store_at-id :
    (heap : Ref → Account) (r x : Ref) (acc : Account)
    → acc.id ≡ (heap r).id
    → (store_at heap r acc x).id ≡ (heap x).id
unfolding store_at
store_at-id heap r x acc h = elim (Bool-cases (x == r)) [
  | inl e ↦
      let same : x ≡ r = ground arith in rw (e, store_at) (h ∙ ap (λ q. (heap q).id) (sym same))
  | inr e ↦ rw (e, store_at) refl
]

cached-store_at :
    (heap : Ref → Account) (r : Ref) (acc : Account) (rs : List Ref) (id : ℕ)
    → acc.id ≡ (heap r).id
    → cached_account_locked (store_at heap r acc) rs id ≡ cached_account_locked heap rs id
unfolding cached_account_locked
cached-store_at heap r acc [] id h = refl
cached-store_at heap r acc (x ∷ rs) id h =
    ground (arith, store_at-id heap r x acc h, cached-store_at heap r acc rs id h)

-- The status of the object in hand is copied to the cached one and kept by both.
copied-standing :
    (heap : Ref → Account) (r q x : Ref)
    → ((x == r) ≡ true) ⊎ ((x == q) ≡ true)
    → standing (store_at heap q (copy_mark (heap r) (heap q)) x) ≡ standing (heap r)
unfolding store_at copy_mark
copied-standing heap r q x which = elim (Bool-cases (x == q)) [
  | inl e ↦ rw (e, store_at) refl
  | inr e ↦ let same : x ≡ r = ground arith in rw (e, store_at) (ap (λ p. standing (heap p)) same)
]

id-marked : (now : Time) (status : String) (acc : Account) → (mark_row now status acc).id ≡ acc.id
unfolding mark_row
id-marked now status acc = refl

status-marked :
    (now : Time) (status : String) (acc : Account) → (mark_row now status acc).status_code ≡ status
unfolding mark_row
status-marked now status acc = refl

mark_row-holds :
    (now : Time) (status : String) (acc : Account)
    → (status ≡ "429"
        → now + rate_limit_cooldown (add_int64 acc.rate_limit_failures (pos 1))
          ≤ (mark_row now status acc).quota_reset_at)
      × (status ≡ "401"
          → (mark_row now status acc).auth_status ≡ account_auth_status_reauth_required)
unfolding mark_row mark_reset
mark_row-holds now status acc = (λ e. rw e (ground arith), λ e. rw e refl)

published :
    (s : Balancer) (r q : Ref) (marked : Account)
    → marked.id ≡ (s.heap r).id
    → cached_account_locked s.heap s.cached_accounts (s.heap r).id ≡ some q
    → let heap = store_at s.heap r marked in
      publish_status copy_mark (record s { heap = heap }) r ≡ record s {
        heap = store_at heap q (copy_mark (heap r) (heap q));
        updates = s.updates ++ store_at heap q (copy_mark (heap r) (heap q)) r ∷ [];
      }
unfolding publish_status write_cached
published s r q marked same cached =
    let heap = store_at s.heap r marked in
    let found : cached_account_locked heap s.cached_accounts (heap r).id ≡ some q =
      ap (cached_account_locked heap s.cached_accounts)
        (ap (λ (acc : Account). acc.id) (store_at_self s.heap r marked) ∙ same)
      ∙ cached-store_at s.heap r marked s.cached_accounts (s.heap r).id same
      ∙ cached in
    rw (found, publish_status) refl

-- The state after a status was marked on an object: the object and the cached one have that status, and
-- the same last attempt, sign-in state, failure count and reset; after 429 the cached one is not reset
-- before the backoff of the raised failure count, and after 401 it asks for a login; the store is given
-- the object last; and every other object is left alone.
abbrev pub IsMarked : Time → String → Balancer → Ref → Ref → Balancer → Type 0
IsMarked now status s r q marked =
    (standing (marked.heap r) ≡ standing (marked.heap q))
    × ((marked.heap q).status_code ≡ status)
    × (status ≡ "429"
        → now + rate_limit_cooldown (add_int64 (s.heap r).rate_limit_failures (pos 1))
          ≤ (marked.heap q).quota_reset_at)
    × (status ≡ "401" → (marked.heap q).auth_status ≡ account_auth_status_reauth_required)
    × (marked.updates ≡ s.updates ++ marked.heap r ∷ [])
    × ((p : Ref) → (p == r) ≡ false → (p == q) ≡ false → marked.heap p ≡ s.heap p)

-- After a status that is not empty was marked on an object whose account is cached, the object and the
-- cached one have that status, and the same last attempt, sign-in state, failure count and reset; after
-- 429 the cached one is not reset before the backoff of the raised failure count, and after 401 it asks
-- for a login; the store is given the object last; and every other object is left alone.
pub mark_account_status-IsMarked :
    (now : Time) (status : String) (s : Balancer) (r q : Ref)
    → is_empty status ≡ false
    → cached_account_locked s.heap s.cached_accounts (s.heap r).id ≡ some q
    → IsMarked now status s r q (mark_account_status now status s r)
unfolding mark_account_status
mark_account_status-IsMarked now status s r q given cached =
    let row = mark_row now status (s.heap r) in
    let heap = store_at s.heap r row in
    let heap' = store_at heap q (copy_mark (heap r) (heap q)) in
    let at_r : standing (heap' r) ≡ standing row =
      copied-standing heap r q r (inl (ground arith)) ∙ ap standing (store_at_self s.heap r row) in
    let at_q : standing (heap' q) ≡ standing row =
      copied-standing heap r q q (inr (ground arith)) ∙ ap standing (store_at_self s.heap r row) in
    let holds = mark_row-holds now status (s.heap r) in
    let whole : mark_account_status now status s r
        ≡ record s { heap = heap'; updates = s.updates ++ heap' r ∷ [] } =
      ap (λ test. if test then s else publish_status copy_mark (record s { heap = heap }) r) given
      ∙ published s r q row (id-marked now status (s.heap r)) cached in
    subst (IsMarked now status s r q) (sym whole) (
      at_r ∙ sym at_q,
      ap (λ (x : Standing). x.0) at_q ∙ status-marked now status (s.heap r),
      λ e.
          subst
            (λ (reset : Time).
              now + rate_limit_cooldown (add_int64 (s.heap r).rate_limit_failures (pos 1)) ≤ reset)
            (sym (ap (λ (x : Standing). x.4) at_q)) (holds.0 e),
      λ e. ap (λ (x : Standing). x.2) at_q ∙ holds.1 e,
      refl,
      λ p not_r not_q. store_at-other heap q p _ not_q ∙ store_at-other s.heap r p row not_r,
    )
