-- ===== src/Prelude/Order.antt =====
-- Go's `<` on strings: UTF-8 keeps the order of the code points, so it is their lexicographic order.
use orchids_2api.Prelude.{String, Bool, true, false, ltb, if◌then◌else◌, ◌≡◌, arith}
use Prim.Native.Nat.{compare, Ordering}
use Prim.Native.Char.{code}
use Prim.Native.String.{[], ◌∷◌}
use text.Mathlib.TextEquality.{codes_equal}

unfoldable pub str_less : String → String → Bool
str_less [] [] = false
str_less [] (d ∷ t) = true
str_less (c ∷ s) [] = false
str_less (c ∷ s) (d ∷ t) =
    let rest = str_less s t in
    if ltb (code c) (code d) then true else if ltb (code d) (code c) then false else rest

pub str_less_trans :
    (s t u : String) → str_less s t ≡ true → str_less t u ≡ true → str_less s u ≡ true
unfolding str_less
str_less_trans [] [] u h g = ground arith
str_less_trans [] (d ∷ t) [] h g = ground arith
str_less_trans [] (d ∷ t) (e ∷ u) h g = ground arith
str_less_trans (c ∷ s) [] u h g = ground arith
str_less_trans (c ∷ s) (d ∷ t) [] h g = ground arith
str_less_trans (c ∷ s) (d ∷ t) (e ∷ u) h g = ground (arith, str_less_trans s t u)

pub str_less-asym : (s t : String) → str_less s t ≡ true → str_less t s ≡ false
unfolding str_less
str_less-asym [] [] h = ground arith
str_less-asym [] (d ∷ t) h = ground arith
str_less-asym (c ∷ s) [] h = ground arith
str_less-asym (c ∷ s) (d ∷ t) h = ground (arith, str_less-asym s t)

pub str_less-total : (s t : String) → str_less s t ≡ false → str_less t s ≡ false → s ≡ t
unfolding str_less
str_less-total [] [] h g = ground arith
str_less-total [] (d ∷ t) h g = ground arith
str_less-total (c ∷ s) [] h g = ground arith
str_less-total (c ∷ s) (d ∷ t) h g = λ i.
    codes_equal c d (let same : compare (code c) (code d) ≡ Ordering.eq = ground arith in same) i
    ∷ str_less-total s t (let left : str_less s t ≡ false = ground arith in left)
        (let right : str_less t s ≡ false = ground arith in right) i
