-- ===== src/Prelude/Text.antt =====
-- What the source uses of Go's strings package. A text is its Unicode code points; every text that
-- is searched for is ASCII, so no search or comparison depends on the case folding of other letters
-- than those that fold to ASCII, which are written out.
pub mod Trim
use Prim.Native.Nat.{ℕ, ◌-◌}
use Prim.Native.Char.{Char, code}
use Prim.Native.String.{String, [], ◌∷◌, char_at, slice, len, find, ◌++◌}
use mathlib.Core.Bool.{Bool, true, false, ◌&&◌, ◌||◌}
use mathlib.Core.Path.{◌≡◌, refl}
use mathlib.Core.Option.{Option}
use text.Mathlib.Text.{starts_with, find?}
use orchids_2api.Prelude.Tests.{leb, ◌==◌, str_eq, if◌then◌else◌}

abbrev pub is_empty : String → Bool
is_empty [] = true
is_empty (c ∷ s) = false

-- unicode.IsSpace
is_space : ℕ → Bool
is_space c =
    leb 9 c && leb c 13
    || c == 0x20
    || c == 0x85
    || c == 0xa0
    || c == 0x1680
    || leb 0x2000 c && leb c 0x200a
    || c == 0x2028
    || c == 0x2029
    || c == 0x202f
    || c == 0x205f
    || c == 0x3000

-- strings.TrimLeftFunc, for TrimSpace and for TrimLeft with a set of characters.
unfoldable pub trim_left : (ℕ → Bool) → String → String
trim_left drop [] = []
trim_left drop (c ∷ s) = if drop (code c) then trim_left drop s else c ∷ s

unfoldable pub trim_right : (ℕ → Bool) → String → String
trim_right drop [] = []
trim_right drop (c ∷ s) =
    let rest = trim_right drop s in if drop (code c) && is_empty rest then [] else c ∷ rest

unfoldable pub trim_space : String → String
unfolding trim_left trim_right is_space
trim_space s = trim_left is_space (trim_right is_space s)

-- unicode.ToLower, where the result is ASCII: the letters A to Z, U+0130 and U+212A.
lower_char : Char → Char
lower_char c =
    if leb b'A' (code c) && leb (code c) b'Z'
    then char_at "abcdefghijklmnopqrstuvwxyz" (code c - b'A')
    else if code c == 0x130
    then "i"
    else if code c == 0x212a
    then "k"
    else c

unfoldable pub to_lower : String → String
unfolding lower_char
to_lower [] = []
to_lower (c ∷ s) = lower_char c ∷ to_lower s

-- Simple folding, where the result is ASCII: A to Z, U+017F and U+212A.
fold_char : Char → Char
fold_char c =
    if leb b'A' (code c) && leb (code c) b'Z'
    then char_at "abcdefghijklmnopqrstuvwxyz" (code c - b'A')
    else if code c == 0x17f
    then "s"
    else if code c == 0x212a
    then "k"
    else c

unfoldable pub fold : String → String
unfolding fold_char
fold [] = []
fold (c ∷ s) = fold_char c ∷ fold s

-- strings.EqualFold
unfoldable pub equal_fold : String → String → Bool
unfolding fold
equal_fold s t = str_eq (fold s) (fold t)

abbrev pub has_prefix : String → String → Bool
has_prefix s t = starts_with s t

unfoldable pub has_suffix : String → String → Bool
has_suffix s t = leb (len t) (len s) && str_eq (slice s (len s - len t) (len s)) t

unfoldable pub contains : String → String → Bool
contains s t = leb (find s t) (len s)

-- strings.ReplaceAll(s, c, "") for one character.
unfoldable pub remove_char : ℕ → String → String
remove_char d [] = []
remove_char d (c ∷ s) = let rest = remove_char d s in if code c == d then rest else c ∷ rest

-- s + t
abbrev pub concat : String → String → String
concat s t = s ++ t

-- s[i:], at a position between two characters.
abbrev pub from_position : String → ℕ → String
from_position s i = slice s i (len s)

-- strings.Index, with none for a negative result.
abbrev pub index : String → String → Option ℕ
index s t = find? s t

trim_space_test : trim_space " \u{3000}a b\n" ≡ "a b"
unfolding trim_space
trim_space_test = refl

to_lower_test : to_lower "HTTP 401 Ümlaut" ≡ "http 401 Ümlaut"
unfolding to_lower
to_lower_test = refl

contains_test : contains "status=401" "=4" ≡ true
unfolding contains
contains_test = refl

has_suffix_test : has_suffix "read: eof" ": eof" ≡ true
unfolding has_suffix
has_suffix_test = refl
