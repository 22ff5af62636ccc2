-- ===== src/Version.antt =====
-- internal/selfupdate/version.go: the precedence of two versions. The regular expression is written out
-- by cutting at the first `+` and, before it, at the first `-`, which occur in no earlier part.
pub mod Antisymmetric
use orchids_2api.Prelude.{
  ℕ, ◌+◌, ◌*◌, ◌-◌, String, Bool, true, false, not, ◌&&◌, ◌||◌, Option, none, some, List, [], ◌∷◌,
  ltb, leb, ◌==◌, str_eq, if◌then◌else◌, ◌≡◌, refl,
}
use Prim.Native.Char.{code}
use Prim.Native.String.{[], ◌∷◌}
use orchids_2api.Prelude.Int.{ℤ, pos, negsuc}
use orchids_2api.Prelude.Text.{is_empty, has_prefix, from_position}
use orchids_2api.Prelude.Order.{str_less}

-- strings.Split(s, d), for one character
unfoldable pub split : ℕ → String → List String
split d [] = [] ∷ []
split d (c ∷ s) =
    let rest = split d s in
    if code c == d
    then [] ∷ rest
    else elim rest [ [] ↦ (c ∷ []) ∷ [] | part ∷ parts ↦ (c ∷ part) ∷ parts ]

-- The part before the first of a character, and the part after it, if there is one.
unfoldable pub cut : ℕ → String → String × Option String
cut d [] = ([], none)
cut d (c ∷ s) = let rest = cut d s in if code c == d then ([], some s) else (c ∷ rest.0, rest.1)

abbrev pub is_digit : ℕ → Bool
is_digit c = leb b'0' c && leb c b'9'

-- numeric
unfoldable pub digits : String → Bool
digits [] = true
digits (c ∷ s) = is_digit (code c) && digits s

unfoldable pub numeric : String → Bool
unfolding digits
numeric s = not (is_empty s) && digits s

-- len(id) > 1 && id[0] == '0'
unfoldable pub has_leading_zero : String → Bool
has_leading_zero [] = false
has_leading_zero (c ∷ s) = code c == b'0' && not (is_empty s)

-- The regular expression `0|[1-9][0-9]*`.
unfoldable pub is_number : String → Bool
unfolding numeric has_leading_zero
is_number s = numeric s && not (has_leading_zero s)

-- The regular expression `[0-9A-Za-z-]+`, and identifiers separated by dots.
unfoldable pub identifier_characters : String → Bool
identifier_characters [] = true
identifier_characters (c ∷ s) =
    (is_digit (code c)
      || leb b'A' (code c) && leb (code c) b'Z'
      || leb b'a' (code c) && leb (code c) b'z'
      || code c == b'-')
    && identifier_characters s

unfoldable pub are_identifiers : List String → Bool
unfolding identifier_characters
are_identifiers [] = true
are_identifiers (id ∷ ids) = not (is_empty id) && identifier_characters id && are_identifiers ids

unfoldable pub are_optional_identifiers : Option String → Bool
unfolding are_identifiers split
are_optional_identifiers none = true
are_optional_identifiers (some s) = are_identifiers (split b'.' s)

-- versionParts, the loop over the identifiers of a prerelease
unfoldable pub has_padded_number : List String → Bool
unfolding has_leading_zero numeric
has_padded_number [] = false
has_padded_number (id ∷ ids) = has_leading_zero id && numeric id || has_padded_number ids

-- The parts that versionParts returns: the three numbers and the prerelease.
pub record Parts : Type 0 where
  pub major : String
  pub minor : String
  pub patch : String
  pub prerelease : String

abbrev pub text_of : Option String → String
text_of none = ""
text_of (some s) = s

unfoldable pub numbers_of : String → Option String → List String → Option Parts
unfolding is_number has_padded_number split
numbers_of build prerelease (major ∷ minor ∷ patch ∷ []) =
    if is_number major
      && is_number minor
      && is_number patch
      && not (has_padded_number (split b'.' (text_of prerelease)))
    then some
        (record { major = major; minor = minor; patch = patch; prerelease = text_of prerelease })
    else none
numbers_of build prerelease _ = none

-- versionParts
unfoldable pub version_parts : String → Option Parts
unfolding cut split are_optional_identifiers numbers_of
version_parts v =
    let bare = if has_prefix v "v" then from_position v 1 else v in
    let build = cut b'+' bare in
    let core = cut b'-' build.0 in
    if are_optional_identifiers build.1 && are_optional_identifiers core.1
    then numbers_of v core.1 (split b'.' core.0)
    else none

-- big.Int, of a decimal text
unfoldable pub number_from : ℕ → String → ℕ
number_from n [] = n
number_from n (c ∷ s) = number_from (n * 10 + (code c - b'0')) s

-- numberCompare
unfoldable pub number_compare : String → String → ℤ
unfolding number_from
number_compare a b =
    let x = number_from 0 a in
    let y = number_from 0 b in if ltb x y then negsuc 0 else if ltb y x then pos 1 else pos 0

-- strings.Compare
unfoldable pub string_compare : String → String → ℤ
unfolding str_less
string_compare a b = if str_less a b then negsuc 0 else if str_less b a then pos 1 else pos 0

-- Compare, two identifiers that differ
unfoldable pub compare_identifiers : String → String → ℤ
unfolding number_compare string_compare numeric
compare_identifiers x y =
    if numeric x && numeric y
    then number_compare x y
    else if numeric x
    then negsuc 0
    else if numeric y
    then pos 1
    else string_compare x y

-- Compare, the loop over the identifiers
unfoldable pub compare_prereleases : List String → List String → ℤ
unfolding compare_identifiers
compare_prereleases [] [] = pos 1
compare_prereleases [] (y ∷ ys) = negsuc 0
compare_prereleases (x ∷ xs) [] = pos 1
compare_prereleases (x ∷ xs) (y ∷ ys) =
    let rest = compare_prereleases xs ys in if str_eq x y then rest else compare_identifiers x y

-- Compare, from the prereleases on
unfoldable pub compare_parts : Parts → Parts → ℤ
unfolding compare_prereleases split
compare_parts x y =
    if str_eq x.prerelease y.prerelease
    then pos 0
    else if is_empty x.prerelease
    then pos 1
    else if is_empty y.prerelease
    then negsuc 0
    else compare_prereleases (split b'.' x.prerelease) (split b'.' y.prerelease)

abbrev pub is_zero_ℤ : ℤ → Bool
is_zero_ℤ (pos n) = n == 0
is_zero_ℤ (negsuc n) = false

-- Compare, the numbers in turn
unfoldable pub compare_versions : Parts → Parts → ℤ
unfolding number_compare compare_parts
compare_versions x y =
    let major = number_compare x.major y.major in
    let minor = number_compare x.minor y.minor in
    let patch = number_compare x.patch y.patch in
    if not (is_zero_ℤ major)
    then major
    else if not (is_zero_ℤ minor)
    then minor
    else if not (is_zero_ℤ patch)
    then patch
    else compare_parts x y

-- Compare, of the parts; none where it returns false.
unfoldable pub compare_parsed : Option Parts → Option Parts → Option ℤ
unfolding compare_versions
compare_parsed none y = none
compare_parsed (some x) none = none
compare_parsed (some x) (some y) = some (compare_versions x y)

-- Compare
unfoldable pub version_compare : String → String → Option ℤ
unfolding version_parts compare_parsed
version_compare a b = compare_parsed (version_parts a) (version_parts b)

precedence_test :
    (version_compare "v1.2.10-rc.2+build" "1.2.10-rc.11" ≡ some (negsuc 0))
    × (version_compare "1.10.0" "1.9.9" ≡ some (pos 1))
    × (version_compare "1.0.0" "1.0.0-beta" ≡ some (pos 1))
    × (version_compare "1.0.0-01" "1.0.0" ≡ none)
    × (version_compare "1.0.0-a.-" "1.0.0-a" ≡ some (pos 1))
unfolding version_compare
precedence_test = (refl, refl, refl, refl, refl)
