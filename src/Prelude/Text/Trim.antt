-- ===== src/Prelude/Text/Trim.antt =====
-- strings.TrimSpace is idempotent, so trimming a key twice names the same entry.
use Prim.Native.Char.{Char, code}
use Prim.Native.String.{String, [], ◌∷◌}
use Prim.Native.Nat.{ℕ}
use mathlib.Core.Bool.{Bool, true, false, ◌&&◌}
use mathlib.Core.Path.{◌≡◌, refl}
use native.Mathlib.Omega.{arith}
use orchids_2api.Prelude.Tests.{if◌then◌else◌}
use orchids_2api.Prelude.Text.{is_empty, is_space, trim_left, trim_right, trim_space}

trim_left_idem : (p : ℕ → Bool) (s : String) → trim_left p (trim_left p s) ≡ trim_left p s
unfolding trim_left
trim_left_idem p [] = refl
trim_left_idem p (c ∷ s) = ground (arith, trim_left_idem p s)

trim_right_idem : (p : ℕ → Bool) (s : String) → trim_right p (trim_right p s) ≡ trim_right p s
unfolding trim_right
trim_right_idem p [] = refl
trim_right_idem p (c ∷ s) = ground (arith, trim_right_idem p s)

if_cons_tail :
    (b : Bool) (c : Char) (r s : String)
    → ◌≡◌ {A = String} (if b then [] else c ∷ r) (c ∷ s)
    → r ≡ s
if_cons_tail true c r s h = cc
if_cons_tail false c r s h = cc

-- The rest of a text that has nothing to trim on the right has nothing to trim there either.
trim_right-tail :
    (p : ℕ → Bool) (c : Char) (s : String) → trim_right p (c ∷ s) ≡ c ∷ s → trim_right p s ≡ s
unfolding trim_right
trim_right-tail p c s h =
    if_cons_tail (p (code c) && is_empty (trim_right p s)) c (trim_right p s) s h

trim_right-trim_left :
    (p : ℕ → Bool) (s : String) → trim_right p s ≡ s → trim_right p (trim_left p s) ≡ trim_left p s
unfolding trim_left
trim_right-trim_left p [] h = h
trim_right-trim_left p (c ∷ s) h =
    ground (arith, h, trim_right-tail p c s h, trim_right-trim_left p s (trim_right-tail p c s h))

pub trim_space_idem : (s : String) → trim_space (trim_space s) ≡ trim_space s
unfolding trim_space
trim_space_idem s = ground (
  arith,
  trim_right-trim_left is_space (trim_right is_space s) (trim_right_idem is_space s),
  trim_left_idem is_space (trim_right is_space s),
)
