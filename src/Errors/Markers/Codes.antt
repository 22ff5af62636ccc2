-- ===== src/Errors/Markers/Codes.antt =====
-- The codes that the searches of internal/errors/classify.go can find in a text.

use Prim.Native.Char.{code}
use orchids_2api.Prelude.{
  ◌==◌, String, ◌≡◌, refl, inl, inr, Bool, true, false, Option, none, some, List, [], ◌∷◌, All,
  subst, Bool-cases, if◌then◌else◌, arith,
}
use orchids_2api.Prelude.Text.{trim_left, trim_space, to_lower, is_empty}
use orchids_2api.Errors.Markers.{
  scan_status_code, leading_status_code, code_at_delimiter, first_code, or_else,
  status_code_prefixes,
}

-- The status codes that ClassifyAccountStatus may answer, the empty one included.
pub data IsAccountCode : String → Type 0 where
  none_code : IsAccountCode ""
  unauthorized : IsAccountCode "401"
  payment : IsAccountCode "402"
  forbidden : IsAccountCode "403"
  not_found : IsAccountCode "404"
  throttled : IsAccountCode "429"

pub ruleset account_codes = (none_code, unauthorized, payment, forbidden, not_found, throttled)

pub if-IsAccountCode :
    (b : Bool) (s t : String)
    → IsAccountCode s
    → IsAccountCode t
    → IsAccountCode (if b then s else t)
if-IsAccountCode true s t p q = p
if-IsAccountCode false s t p q = q

or_else-IsAccountCode :
    (o : Option String) (t : String)
    → ((c : String) → o ≡ some c → IsAccountCode c)
    → IsAccountCode t
    → IsAccountCode (or_else o t)
unfolding or_else
or_else-IsAccountCode none t p q = q
or_else-IsAccountCode (some c) t p q = p c refl

if_some-IsAccountCode :
    (b : Bool) (d c : String) (rest : Option String)
    → IsAccountCode d
    → (rest ≡ some c → IsAccountCode c)
    → (if b then some d else rest) ≡ some c
    → IsAccountCode c
if_some-IsAccountCode true d c rest p q h = let e : d ≡ c = cc in subst IsAccountCode e p
if_some-IsAccountCode false d c rest p q h = q h

first_code-IsAccountCode :
    (cs : List String) (s c : String)
    → All IsAccountCode cs
    → first_code cs s ≡ some c
    → IsAccountCode c
unfolding first_code
first_code-IsAccountCode [] s c p h = cc
first_code-IsAccountCode (d ∷ cs) s c p h =
    if_some-IsAccountCode _ d c (first_code cs s) p.0 (first_code-IsAccountCode cs s c p.1) h

code_at_delimiter-IsAccountCode : (s c : String) → code_at_delimiter s ≡ some c → IsAccountCode c
unfolding code_at_delimiter
code_at_delimiter-IsAccountCode s c h = elim (Bool-cases (is_empty s)) [
  | inl e ↦ cc e
  | inr e ↦
      first_code-IsAccountCode status_code_prefixes s c
        (unauthorized, (payment, (forbidden, (not_found, (throttled, tt))))) (ground arith)
]

pub scan_status_code-IsAccountCode : (s : String) → IsAccountCode (scan_status_code s)
unfolding scan_status_code
scan_status_code-IsAccountCode String.[] = none_code
scan_status_code-IsAccountCode (String.◌∷◌ c s) =
    let rest = scan_status_code-IsAccountCode s in
    let behind = trim_left (λ d. d == b' ') s in
    if-IsAccountCode (code c == b':') (or_else (code_at_delimiter behind) (scan_status_code s))
      (scan_status_code s)
      (or_else-IsAccountCode (code_at_delimiter behind) (scan_status_code s)
        (code_at_delimiter-IsAccountCode behind) rest)
      rest

pub leading_status_code-IsAccountCode : (s : String) → IsAccountCode (leading_status_code s)
unfolding leading_status_code
leading_status_code-IsAccountCode s =
    let trimmed = trim_space (to_lower s) in
    or_else-IsAccountCode (code_at_delimiter trimmed) "" (code_at_delimiter-IsAccountCode trimmed)
      none_code
