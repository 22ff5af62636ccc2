-- ===== src/Errors/Markers.antt =====
-- internal/errors/classify.go: the searches that both classifiers share. A position in the text is
-- the rest of the text from there on.
pub mod Codes
use Prim.Native.Char.{code}
use Prim.Native.String.{len, slice}
use orchids_2api.Prelude.{
  ℕ, ◌+◌, String, ◌≡◌, refl, Bool, true, false, ◌&&◌, ◌||◌, Option, none, some, List, [], ◌∷◌, map,
  ◌==◌, str_eq, if◌then◌else◌,
}
use orchids_2api.Prelude.Text.{
  is_empty, contains, has_prefix, trim_space, trim_left, to_lower, remove_char, concat,
  from_position, index,
}

-- slices.ContainsFunc over a list of phrases, and a chain of strings.Contains joined by `||`.
unfoldable pub contains_any : String → List String → Bool
contains_any s [] = false
contains_any s (t ∷ ts) = contains s t || contains_any s ts

explicit_patterns : List String
explicit_patterns =
    "http " ∷ "http/1.1 " ∷ "http/2 " ∷ "status " ∷ "status=" ∷ "status:" ∷ "statuscode "
    ∷ "statuscode=" ∷ "status code " ∷ "code " ∷ "code=" ∷ "code:" ∷ "response status "
    ∷ "response code " ∷ []

-- HasExplicitHTTPStatus
unfoldable pub has_explicit_http_status : String → String → Bool
unfolding explicit_patterns contains_any
has_explicit_http_status lower code =
    let trimmed = trim_space code in
    if is_empty trimmed || is_empty lower
    then false
    else contains_any lower (map (λ p. concat p trimmed) explicit_patterns)

-- statusCodePrefixes
abbrev pub status_code_prefixes : List String
status_code_prefixes = "401" ∷ "402" ∷ "403" ∷ "404" ∷ "429" ∷ []

-- The text after a code that a delimiter or the end of the text must follow.
is_delimited : String → Bool
is_delimited rest = is_empty rest || has_prefix rest ":" || has_prefix rest " "

first_code : List String → String → Option String
unfolding is_delimited
first_code [] s = none
first_code (c ∷ cs) s =
    if has_prefix s c && is_delimited (from_position s (len c)) then some c else first_code cs s

-- codeAtDelimiter
unfoldable pub code_at_delimiter : String → Option String
unfolding first_code
code_at_delimiter s = if is_empty s then none else first_code status_code_prefixes s

or_else : Option String → String → String
or_else none rest = rest
or_else (some c) rest = c

-- scanStatusCode
unfoldable pub scan_status_code : String → String
unfolding code_at_delimiter trim_left or_else
scan_status_code String.[] = ""
scan_status_code (String.◌∷◌ c s) =
    let rest = scan_status_code s in
    if code c == b':' then or_else (code_at_delimiter (trim_left (λ d. d == b' ') s)) rest else rest

-- LeadingStatusCode
unfoldable pub leading_status_code : String → String
unfolding code_at_delimiter or_else
leading_status_code s = or_else (code_at_delimiter (trim_space (to_lower s))) ""

-- upstreamMarkerText
unfoldable pub upstream_marker_text : String → String
upstream_marker_text s = remove_char 0x5c (to_lower s)

-- The text before the first of `,"} `.
until_separator : String → String
until_separator String.[] = ""
until_separator (String.◌∷◌ c s) =
    let rest = until_separator s in
    if code c == b',' || code c == 0x22 || code c == b'}' || code c == b' '
    then ""
    else String.◌∷◌ c rest

is_flag_lead : ℕ → Bool
is_flag_lead c = c == 0x22 || c == b':' || c == b'=' || c == b' '

value_at : String → String → Option ℕ → String
unfolding until_separator is_flag_lead
value_at text name none = ""
value_at text name (some i) =
    until_separator (trim_left is_flag_lead (from_position text (i + len name)))

-- flagValue
unfoldable pub flag_value : String → String → String
unfolding value_at
flag_value text name = value_at text name (index text name)

-- isSharedUpstreamQueueRefusal
unfoldable pub is_shared_upstream_queue_refusal : String → Bool
is_shared_upstream_queue_refusal s = contains_any (upstream_marker_text s) (
    "available upstream accounts are rate-limited" ∷ "available upstream accounts are rate limited"
    ∷ [])

-- isUpstreamQueueGate
unfoldable pub is_upstream_queue_gate : String → Bool
is_upstream_queue_gate s =
    let text = upstream_marker_text s in
    if str_eq (flag_value text "isqueued") "true"
    then true
    else contains_any text ("10605" ∷ "qoder gateway is busy" ∷ [])

-- isUpstreamServiceUnavailable
unfoldable pub is_upstream_service_unavailable : String → Bool
is_upstream_service_unavailable s =
    let text = upstream_marker_text s in
    if str_eq (flag_value text "isqueued") "true"
    then false
    else if str_eq (flag_value text "serviceavailable") "false"
    then true
    else str_eq (flag_value text "queuecount") "0"

-- isClineModelEntitlement
unfoldable pub is_cline_model_entitlement : String → Bool
is_cline_model_entitlement lower =
    has_explicit_http_status lower "403"
    && contains_any lower (
        "entitlement" ∷ "not subscribed to required model plan"
        ∷ "only available via cline product surfaces" ∷ [])

-- IsCreditExhaustion
unfoldable pub is_credit_exhaustion : String → Bool
is_credit_exhaustion s = contains_any (to_lower s) (
    "qoder quota exhausted" ∷ "no ai credits remaining" ∷ "insufficient_funds"
    ∷ "insufficient funding" ∷ "available funding is insufficient" ∷ "out of credits"
    ∷ "credits exhausted" ∷ "run out of credits" ∷ [])

scan_status_code_test : scan_status_code "workbuddy: refresh:  401: token" ≡ "401"
unfolding scan_status_code
scan_status_code_test = refl

leading_status_code_test : leading_status_code "4040 widgets" ≡ ""
unfolding leading_status_code trim_space to_lower
leading_status_code_test = refl

flag_value_test : flag_value "{\"isqueued\":true,\"queuecount\":0}" "queuecount" ≡ "0"
unfolding flag_value trim_left
flag_value_test = refl
