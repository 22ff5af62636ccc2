-- ===== src/Version/Antisymmetric.antt =====
-- The precedence of two versions does not depend on which is named first.
use orchids_2api.Prelude.{
  zero, suc, String, ◌≡◌, ◌≢◌, refl, sym, ap, ◌∙◌, inl, inr, true, false, Option, none, some, List,
  [], ◌∷◌, arith, ◌==◌, str_eq, Bool-cases,
}
use Prim.Native.Nat.{compare, Ordering}
use Prim.Native.Char.{Char, code}
use Prim.Native.String.{[], ◌∷◌, char_at}
use text.Mathlib.TextEquality.{eq_iff, codes_equal}
use orchids_2api.Prelude.Int.{ℤ, pos, negsuc}
use orchids_2api.Prelude.Text.{is_empty}
use orchids_2api.Prelude.Order.{str_less-asym}
use orchids_2api.Version.{
  split, number_compare, string_compare, compare_identifiers, compare_prereleases, Parts,
  compare_parts, compare_versions, version_parts, compare_parsed, version_compare,
}

-- The other sign.
abbrev pub opposite : ℤ → ℤ
opposite (pos zero) = pos 0
opposite (pos (suc n)) = negsuc 0
opposite (negsuc n) = pos 1

number_compare-opposite : (a b : String) → number_compare b a ≡ opposite (number_compare a b)
unfolding number_compare
number_compare-opposite a b = ground arith

string_compare-opposite : (a b : String) → string_compare b a ≡ opposite (string_compare a b)
unfolding string_compare
string_compare-opposite a b = ground (arith, str_less-asym a b, str_less-asym b a)

compare_identifiers-opposite :
    (x y : String) → compare_identifiers y x ≡ opposite (compare_identifiers x y)
unfolding compare_identifiers
compare_identifiers-opposite x y =
    ground (arith, number_compare-opposite x y, string_compare-opposite x y)

compare_prereleases-opposite :
    (xs ys : List String)
    → xs ≢ ys
    → compare_prereleases ys xs ≡ opposite (compare_prereleases xs ys)
unfolding compare_prereleases
compare_prereleases-opposite [] [] h = absurd (h refl)
compare_prereleases-opposite [] (y ∷ ys) h = refl
compare_prereleases-opposite (x ∷ xs) [] h = refl
compare_prereleases-opposite (x ∷ xs) (y ∷ ys) h = elim (Bool-cases (str_eq x y)) [
  | inl same ↦
      let equal : x ≡ y = (eq_iff x y).0 same in
      let swapped : str_eq y x ≡ true = (eq_iff y x).1 (sym equal) in
      rw (same, swapped) (compare_prereleases-opposite xs ys (λ e. h (λ i. equal i ∷ e i)))
  | inr other ↦
      let swapped : str_eq y x ≡ false = ground (arith, other, eq_iff x y, eq_iff y x) in
      rw (other, swapped) (compare_identifiers-opposite x y)
]

-- One text after another.
glue : String → String → String
glue [] t = t
glue (c ∷ s) t = c ∷ glue s t

-- The parts that split takes apart, each after the character.
join : Char → List String → String
join d [] = ""
join d (part ∷ parts) = d ∷ glue part (join d parts)

tail : String → String
tail [] = []
tail (c ∷ s) = s

-- One character put back.
joined :
    (d c : Char) (s : String) (rest : List String)
    → join d rest ≡ d ∷ s
    → (code c == code d) ≡ false
    → join d (elim rest [ [] ↦ (c ∷ []) ∷ [] | part ∷ parts ↦ (c ∷ part) ∷ parts ]) ≡ d ∷ c ∷ s
unfolding join tail glue
joined d c s [] h other = absurd (let both : true ≡ false = ap is_empty h in ground (arith, both))
joined d c s (part ∷ parts) h other = λ i. d ∷ c ∷ tail (h i)

join-split : (d : Char) (s : String) → join d (split (code d) s) ≡ d ∷ s
unfolding join split glue
join-split d [] = refl
join-split d (c ∷ s) = elim (Bool-cases (code c == code d)) [
  | inl same ↦
      let equal : d ≡ c =
        codes_equal d c
          (let codes : compare (code d) (code c) ≡ Ordering.eq = ground (arith, same) in codes) in
      rw (same, split) (λ i. d ∷ (join-split d s ∙ (λ j. equal j ∷ s)) i)
  | inr other ↦ rw (other, split) (joined d c s (split (code d) s) (join-split d s) other)
]

split-injective : (d : Char) (s t : String) → split (code d) s ≡ split (code d) t → s ≡ t
unfolding tail
split-injective d s t h = ap tail (sym (join-split d s) ∙ ap (join d) h ∙ join-split d t)

compare_parts-opposite : (x y : Parts) → compare_parts y x ≡ opposite (compare_parts x y)
unfolding compare_parts
compare_parts-opposite x y = elim (Bool-cases (str_eq x.prerelease y.prerelease)) [
  | inl same ↦
      let swapped : str_eq y.prerelease x.prerelease ≡ true =
        ground (arith, same, eq_iff x.prerelease y.prerelease, eq_iff y.prerelease x.prerelease) in
      rw (same, swapped) refl
  | inr other ↦
      let apart : x.prerelease ≢ y.prerelease =
        λ e. ground (arith, other, e, eq_iff x.prerelease y.prerelease) in
      let swapped : str_eq y.prerelease x.prerelease ≡ false =
        ground (arith, other, eq_iff x.prerelease y.prerelease, eq_iff y.prerelease x.prerelease) in
      ground (
        arith,
        other,
        swapped,
        eq_iff x.prerelease y.prerelease,
        compare_prereleases-opposite (split b'.' x.prerelease) (split b'.' y.prerelease)
            (λ e. apart (split-injective (char_at "." 0) x.prerelease y.prerelease e)),
      )
]

compare_versions-opposite : (x y : Parts) → compare_versions y x ≡ opposite (compare_versions x y)
unfolding compare_versions
compare_versions-opposite x y = ground (
  arith,
  number_compare-opposite x.major y.major,
  number_compare-opposite x.minor y.minor,
  number_compare-opposite x.patch y.patch,
  compare_parts-opposite x y,
)

own-precedence : (v : ℤ) → v ≡ opposite v → v ≡ pos 0
own-precedence (pos zero) h = refl
own-precedence (pos (suc n)) h = ground (arith, h)
own-precedence (negsuc n) h = ground (arith, h)

compare_parsed-opposite :
    (x y : Option Parts) (sign : ℤ)
    → compare_parsed x y ≡ some sign
    → (compare_parsed y x ≡ some (opposite sign)) × (compare_parsed x x ≡ some (pos 0))
unfolding compare_parsed
compare_parsed-opposite none y sign h = ground (arith, h)
compare_parsed-opposite (some x) none sign h = ground (arith, h)
compare_parsed-opposite (some x) (some y) sign h = (
  ap some (
      compare_versions-opposite x y
      ∙ ap opposite (let value : compare_versions x y ≡ sign = ground (arith, h) in value)),
  ap some (own-precedence (compare_versions x x) (compare_versions-opposite x x)),
)

-- Where two versions are compared, they are compared the other way round with the opposite sign, and a
-- version that is compared at all has its own precedence.
pub version_compare-opposite :
    (a b : String) (sign : ℤ)
    → version_compare a b ≡ some sign
    → (version_compare b a ≡ some (opposite sign)) × (version_compare a a ≡ some (pos 0))
unfolding version_compare
version_compare-opposite a b sign h =
    compare_parsed-opposite (version_parts a) (version_parts b) sign h
