-- ===== src/Prelude/Int64.antt =====
-- Go's int64 (and int, on the 64-bit targets): an integer, with the wrap-around written out.
use Prim.Native.Nat.{ℕ, suc, ◌+◌, ◌*◌, ◌-◌, ◌%◌, ◌^◌, ◌≤◌, ◌<◌}
use mathlib.Core.Path.{◌≡◌, ap, ◌∙◌}
use native.Mathlib.Omega.{arith}
use orchids_2api.Prelude.Tests.{ltb, if◌then◌else◌}
use orchids_2api.Prelude.Int.{ℤ, pos, negsuc, ◌+ℤ◌, ◌-ℤ◌, ◌*ℤ◌, ltb_ℤ}

-- The value of an int64 that holds the low 64 bits of an integer.
unfoldable pub wrap : ℤ → ℤ
wrap (pos n) =
    if ltb (n % 2 ^ 64) (2 ^ 63) then pos (n % 2 ^ 64) else negsuc (2 ^ 64 - 1 - n % 2 ^ 64)
wrap (negsuc n) =
    if ltb (n % 2 ^ 64) (2 ^ 63) then negsuc (n % 2 ^ 64) else pos (2 ^ 64 - 1 - n % 2 ^ 64)

unfoldable pub add_int64 : ℤ → ℤ → ℤ
add_int64 a b = wrap (a +ℤ b)

unfoldable pub sub_int64 : ℤ → ℤ → ℤ
sub_int64 a b = wrap (a -ℤ b)

unfoldable pub mul_int64 : ℤ → ℤ → ℤ
mul_int64 a b = wrap (a *ℤ b)

-- Go's built-in `min` and `max`.
abbrev pub min_ℤ : ℤ → ℤ → ℤ
min_ℤ a b = if ltb_ℤ b a then b else a

abbrev pub max_ℤ : ℤ → ℤ → ℤ
max_ℤ a b = if ltb_ℤ a b then b else a

-- A value in range is kept.
pub wrap_pos : (n : ℕ) → n < 2 ^ 63 → wrap (pos n) ≡ pos n
unfolding wrap
wrap_pos n h = ground arith

pub wrap_negsuc : (n : ℕ) → n < 2 ^ 63 → wrap (negsuc n) ≡ negsuc n
unfolding wrap
wrap_negsuc n h = ground arith

pub add_int64-one : (n : ℕ) → suc n < 2 ^ 63 → add_int64 (pos n) (pos 1) ≡ pos (suc n)
unfolding add_int64 ◌+ℤ◌
add_int64-one n h =
    ap wrap (let sum : pos n +ℤ pos 1 ≡ pos (suc n) = ground arith in sum) ∙ wrap_pos (suc n) h

pub sub_int64-one : (n : ℕ) → suc n < 2 ^ 63 → sub_int64 (pos (suc n)) (pos 1) ≡ pos n
unfolding sub_int64 ◌-ℤ◌
sub_int64-one n h =
    ap wrap (let difference : pos (suc n) -ℤ pos 1 ≡ pos n = ground arith in difference)
    ∙ wrap_pos n (omega arith)

pub add_int64-pos : (m n : ℕ) → m + n < 2 ^ 63 → add_int64 (pos m) (pos n) ≡ pos (m + n)
unfolding add_int64 ◌+ℤ◌
add_int64-pos m n h =
    ap wrap (let sum : pos m +ℤ pos n ≡ pos (m + n) = ground arith in sum) ∙ wrap_pos (m + n) h

pub mul_int64-pos : (m n : ℕ) → m * n < 2 ^ 63 → mul_int64 (pos m) (pos n) ≡ pos (m * n)
unfolding mul_int64 ◌*ℤ◌
mul_int64-pos m n h =
    ap wrap (let product : pos m *ℤ pos n ≡ pos (m * n) = ground arith in product)
    ∙ wrap_pos (m * n) h

pub sub_int64-pos : (m n : ℕ) → n ≤ m → m < 2 ^ 63 → sub_int64 (pos m) (pos n) ≡ pos (m - n)
unfolding sub_int64 ◌-ℤ◌
sub_int64-pos m n h b =
    ap wrap (let difference : pos m -ℤ pos n ≡ pos (m - n) = ground arith in difference)
    ∙ wrap_pos (m - n) (omega arith)
