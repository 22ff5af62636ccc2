-- ===== src/Balancer/Select/Kin.antt =====
-- What the availability check never changes of an account (internal/loadbalancer/loadbalancer.go).
use orchids_2api.Prelude.{
  ℕ, ◌≡◌, refl, sym, ◌∙◌, subst, inl, inr, true, false, Option, none, some, arith, ◌==◌, Bool-cases,
  Option-cases,
}
use orchids_2api.Prelude.Text.{is_empty, trim_space}
use orchids_2api.Prelude.Time.{Time}
use orchids_2api.Prelude.Assoc.{lookup, string_eq, nat_eq}
use orchids_2api.Account.{Account, account_auth_active}
use orchids_2api.Balancer.State.{
  Balancer, Ref, store_at, reset_account_runtime_state, reset_cached, cached_account_locked,
  clear_account_status, claim_row, claim_billing, claim_grok_paid_quota_probe,
}
use orchids_2api.Balancer.Available.{
  Action, refuse, admit, clear, billing_gate, carry_out, is_account_available, status_action,
}

-- Two rows of the same account, as far as its identity and its credentials go.
pub record IsKin (a b : Account) : Type 0 where
  pub id : a.id ≡ b.id
  pub account_type : a.account_type ≡ b.account_type
  pub agent_mode : a.agent_mode ≡ b.agent_mode
  pub auth_status : a.auth_status ≡ b.auth_status

pub IsKin-refl : (a : Account) → IsKin a a
IsKin-refl a = record { id = refl; account_type = refl; agent_mode = refl; auth_status = refl }

pub IsKin-trans : (a b c : Account) → IsKin a b → IsKin b c → IsKin a c
IsKin-trans a b c p q = record {
  id = p.id ∙ q.id;
  account_type = p.account_type ∙ q.account_type;
  agent_mode = p.agent_mode ∙ q.agent_mode;
  auth_status = p.auth_status ∙ q.auth_status;
}

-- Every object of the second heap is a row of the same account as in the first.
abbrev pub HeapsKin : (Ref → Account) → (Ref → Account) → Type 0
HeapsKin heap heap' = (q : Ref) → IsKin (heap' q) (heap q)

pub HeapsKin-trans : (a b c : Ref → Account) → HeapsKin a b → HeapsKin b c → HeapsKin a c
HeapsKin-trans a b c p q r = IsKin-trans (c r) (b r) (a r) (q r) (p r)

reset-IsKin : (a : Account) → IsKin (reset_account_runtime_state a) a
unfolding reset_account_runtime_state
reset-IsKin a = record { id = refl; account_type = refl; agent_mode = refl; auth_status = refl }

reset-HeapsKin :
    (heap : Ref → Account) (r : Ref)
    → HeapsKin heap (store_at heap r (reset_account_runtime_state (heap r)))
unfolding store_at
reset-HeapsKin heap r q = elim (Bool-cases (q == r)) [
  | inl same ↦
      let q_is : q ≡ r = ground arith in
      rw (same, store_at)
        (subst (λ k. IsKin (reset_account_runtime_state (heap r)) (heap k)) (sym q_is)
          (reset-IsKin (heap r)))
  | inr other ↦ rw (other, store_at) (IsKin-refl (heap q))
]

reset_cached-HeapsKin :
    (heap : Ref → Account) (found : Option Ref) → HeapsKin heap (reset_cached heap found)
unfolding reset_cached
reset_cached-HeapsKin heap none q = IsKin-refl (heap q)
reset_cached-HeapsKin heap (some r) q = reset-HeapsKin heap r q

clear-HeapsKin : (s : Balancer) (r : Ref) → HeapsKin s.heap (clear_account_status s r).heap
unfolding clear_account_status
clear-HeapsKin s r =
    let heap = store_at s.heap r (reset_account_runtime_state (s.heap r)) in
    let found = cached_account_locked heap s.cached_accounts (s.heap r).id in
    HeapsKin-trans s.heap heap (reset_cached heap found) (reset-HeapsKin s.heap r)
      (reset_cached-HeapsKin heap found)

claim_row-heap :
    (s : Balancer) (id : ℕ) (now : Time) (row : Option Account)
    → (claim_row s id now row).0.heap ≡ s.heap
unfolding claim_row
claim_row-heap s id now none = refl
claim_row-heap s id now (some row) = elim (Option-cases (claim_billing now row.grok_billing)) [
  | inl e ↦ rw (e, claim_row) refl
  | inr (billing, e) ↦ rw (e, claim_row) refl
]

claim-heap :
    (s : Balancer) (id : ℕ) (now : Time) → (claim_grok_paid_quota_probe s id now).0.heap ≡ s.heap
unfolding claim_grok_paid_quota_probe
claim-heap s id now = elim (Bool-cases (id == 0)) [
  | inl e ↦ rw (e, claim_grok_paid_quota_probe) refl
  | inr e ↦ rw (e, claim_grok_paid_quota_probe) (claim_row-heap s id now (lookup id s.rows))
]

billing_gate-heap : (s : Balancer) (r : Ref) (now : Time) → (billing_gate s r now).0.heap ≡ s.heap
unfolding billing_gate
billing_gate-heap s r now = ground (arith, claim-heap s (s.heap r).id now)

carry_out-HeapsKin :
    (s : Balancer) (r : Ref) (a : Action) → HeapsKin s.heap (carry_out s r a).0.heap
unfolding carry_out
carry_out-HeapsKin s r refuse q = IsKin-refl (s.heap q)
carry_out-HeapsKin s r admit q = IsKin-refl (s.heap q)
carry_out-HeapsKin s r clear q = clear-HeapsKin s r q

same-HeapsKin : (a b : Ref → Account) → b ≡ a → HeapsKin a b
same-HeapsKin a b e = subst (HeapsKin a) (sym e) (λ q. IsKin-refl (a q))

-- The availability check never changes the identity or the credentials of an account, and admits only one whose
-- credentials are active.
pub available-HeapsKin :
    (s : Balancer) (r : Ref) (now : Time)
    → HeapsKin s.heap (is_account_available s r now).0.heap
      × ((is_account_available s r now).1 ≡ true → account_auth_active (s.heap r) ≡ true)
unfolding is_account_available
available-HeapsKin s r now =
    let (s', go_on) = billing_gate s r now in
    let gate : HeapsKin s.heap s'.heap = same-HeapsKin s.heap s'.heap (billing_gate-heap s r now) in
    elim (Bool-cases (account_auth_active (s.heap r))) [
      | inr inactive ↦
          rw (inactive, is_account_available)
            (λ q. IsKin-refl (s.heap q), λ e. absurd (let x : false ≡ true = e in cc x))
      | inl active ↦ elim (Bool-cases go_on) [
        | inr stops ↦ rw (active, stops, is_account_available) (gate, λ e. refl)
        | inl goes ↦ elim (Bool-cases (is_empty (trim_space (s.heap r).status_code))) [
          | inl blank ↦ rw (active, goes, blank, is_account_available) (gate, λ e. refl)
          | inr marked ↦
              rw (active, goes, marked, is_account_available)
                (
                  HeapsKin-trans s.heap s'.heap
                      (carry_out s' r (status_action (s.heap r) now)).0.heap gate
                      (carry_out-HeapsKin s' r (status_action (s.heap r) now)),
                  λ e. refl,
                )
        ]
      ]
    ]
