-- ===== src/Policy/Backoff.antt =====
-- The bounded exponential backoff of RateLimitCooldown (internal/accountpolicy/policy.go).
use orchids_2api.Prelude.{ℕ, zero, suc, ◌*◌, ◌^◌, ◌≤◌, min, ◌≡◌, refl, arith}
use orchids_2api.Prelude.Int.{ℤ, pos, negsuc}
use orchids_2api.Prelude.Assoc.{string_eq, nat_eq}
use native.Mathlib.Nat.{pow-suc, pow-le-pow_right}
use orchids_2api.Policy.Hold.{
  cooldown_rate_limit_base, cooldown_rate_limit_max, double_until_max, rate_limit_cooldown,
}

pow_pos : (n : ℕ) → 1 ≤ 2 ^ n
pow_pos zero = omega arith
pow_pos (suc n) = rw pow-suc (omega (arith, pow_pos n))

le-mul : (c p : ℕ) → 1 ≤ p → c ≤ c * p
le-mul c p h = grind arith

double-shift : (c rounds : ℕ) → c * 2 ^ suc rounds ≡ c * 2 * 2 ^ rounds
double-shift c rounds = rw pow-suc (omega arith)

-- The cap is applied after the loop, so the loop may be read as a plain power.
cap-double_until_max :
    (rounds c : ℕ)
    → min (double_until_max rounds c) cooldown_rate_limit_max
      ≡ min (c * 2 ^ rounds) cooldown_rate_limit_max
unfolding double_until_max
cap-double_until_max zero c = omega arith
cap-double_until_max (suc rounds) c = ground (
  arith,
  cap-double_until_max rounds (c * 2),
  double-shift c rounds,
  le-mul c (2 ^ suc rounds) (pow_pos (suc rounds)),
)

-- After k + 1 consecutive rate limits the cooldown is thirty seconds doubled k times, and never more
-- than thirty minutes; a missing or negative count is read as the first failure.
pub backoff-power :
    (k : ℕ)
    → (rate_limit_cooldown (pos (suc k))
        ≡ min (cooldown_rate_limit_base * 2 ^ k) cooldown_rate_limit_max)
      × (rate_limit_cooldown (negsuc k) ≡ cooldown_rate_limit_base)
      × (rate_limit_cooldown (pos 0) ≡ cooldown_rate_limit_base)
unfolding rate_limit_cooldown double_until_max
backoff-power k =
    (ground (arith, cap-double_until_max k cooldown_rate_limit_base), ground arith, refl)

pub backoff_bounds :
    (failures : ℤ)
    → (cooldown_rate_limit_base ≤ rate_limit_cooldown failures)
      × (rate_limit_cooldown failures ≤ cooldown_rate_limit_max)
backoff_bounds (pos zero) = omega (arith, (backoff-power 0).2)
backoff_bounds (pos (suc k)) = omega (arith, (backoff-power k).0, pow_pos k)
backoff_bounds (negsuc k) = omega (arith, (backoff-power k).1)

-- A higher count of failures, from 0 on, never has a shorter rate-limit cooldown.
backoff_mono : (i j : ℕ) → i ≤ j → rate_limit_cooldown (pos i) ≤ rate_limit_cooldown (pos j)
backoff_mono zero j h = omega (arith, (backoff-power 0).2, (backoff_bounds (pos j)).0)
backoff_mono (suc i) zero h = absurd (omega arith)
backoff_mono (suc i) (suc j) h =
    let smaller : i ≤ j = omega arith in
    omega (
      arith,
      (backoff-power i).0,
      (backoff-power j).0,
      pow-le-pow_right {n = 2} (omega arith) smaller,
    )
