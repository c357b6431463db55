-- ===== src/Enrollment/Fields.antt =====
-- The validation and normalisation of the fields that an enrollment request gives
-- (packages/control-plane/src/node-enrollment.ts), with the JavaScript functions that it calls on
-- unknown values.
use opus8_cf.Base.{
  ℕ, Bool, true, false, not, ◌&&◌, ◌||◌, List, [], ◌∷◌, Option, none, some, leb, ltb, ◌==◌,
  if◌then◌else◌, length, all, any, Text, codes, trim, lower, is_alnum, is_lower, is_digit, includes,
  starts_with, ends_with, split, Number, whole, other, Value, undefined, null, bool, num, str, arr,
  obj, Values, values, Result, ok, err,
}

-- What the code takes from the JavaScript and Workers run time. `json_parse` is none where
-- `JSON.parse` throws; `string_of` is `String(v)` of a value that is no string; `number_of` is
-- `Number(s)` of a string.
pub record Runtime : Type 0 where
  pub hmac_sign : Text → Text → Text
  pub json_parse : Text → Option Value
  pub json_strings : List Text → Text
  pub string_of : Value → Text
  pub number_of : Text → Number

-- The errors that the module throws, one for each message, and their HTTP statuses.
pub data EnrollmentError : Type 0 where
  invalid_node_id invalid_account provisioning_denied identity_changed : EnrollmentError
  already_pending invalid_capabilities invalid_path invalid_ttl : EnrollmentError
  invalid_region invalid_preferred_ip : EnrollmentError
  invalid_credential invalid_token token_used : EnrollmentError
  no_enrollment mismatch region_mismatch enrollment_used : EnrollmentError
  -- The database refused a row: a unique key was taken.
  constraint_failed : EnrollmentError

unfoldable pub status_of : EnrollmentError → ℕ
status_of invalid_node_id = 400
status_of invalid_account = 400
status_of provisioning_denied = 403
status_of identity_changed = 409
status_of already_pending = 409
status_of invalid_capabilities = 400
status_of invalid_path = 400
status_of invalid_ttl = 400
status_of invalid_region = 400
status_of invalid_preferred_ip = 400
status_of invalid_credential = 401
status_of invalid_token = 401
status_of token_used = 409
status_of no_enrollment = 409
status_of mismatch = 409
status_of region_mismatch = 409
status_of enrollment_used = 409
status_of constraint_failed = 500

abbrev pub Outcome : Type 0 → Type 0
Outcome A = Result EnrollmentError A

abbrev pub is_node_id_char : ℕ → Bool
is_node_id_char c = is_alnum c || (c == b'.' || (c == b'_' || (c == b':' || c == b'-')))

-- `/^[A-Za-z0-9._:-]{1,80}$/`.
unfoldable pub node_id_pattern : Text → Bool
node_id_pattern s = leb 1 (length s) && leb (length s) 80 && all is_node_id_char s

-- `validNodeId`, with the string that it narrows to.
unfoldable pub valid_node_id : Value → Option Text
valid_node_id (str s) = if node_id_pattern s then some s else none
valid_node_id _ = none

abbrev pub is_label_char : ℕ → Bool
is_label_char c = is_lower c || (is_digit c || (c == b'.' || (c == b'_' || c == b'-')))

-- `/^[a-z0-9][a-z0-9._-]{0,n}$/`.
unfoldable pub label_pattern : ℕ → Text → Bool
label_pattern n [] = false
label_pattern n (c ∷ s) = (is_lower c || is_digit c) && (leb (length s) n && all is_label_char s)

unfoldable pub normalize_account_alias : Value → Option Text
normalize_account_alias (str s) =
    let alias = lower (trim s) in if label_pattern 31 alias then some alias else none
normalize_account_alias _ = none

abbrev pub is_hex_lower : ℕ → Bool
is_hex_lower c = is_digit c || (leb b'a' c && leb c b'f')

abbrev pub is_hex : ℕ → Bool
is_hex c = is_hex_lower c || (leb b'A' c && leb c b'F')

unfoldable pub normalize_account_id : Value → Option Text
normalize_account_id (str s) =
    let account_id = lower (trim s) in
    if (length account_id == 32) && all is_hex_lower account_id then some account_id else none
normalize_account_id _ = none

-- `s.replace(/\.$/, "")`.
unfoldable pub drop_last_dot : Text → Text
drop_last_dot [] = []
drop_last_dot (c ∷ []) = if c == b'.' then [] else c ∷ []
drop_last_dot (c ∷ d ∷ s) = c ∷ drop_last_dot (d ∷ s)

abbrev pub is_host_char : ℕ → Bool
is_host_char c = is_lower c || (is_digit c || (c == b'.' || c == b'-'))

unfoldable pub bad_label : Text → Bool
bad_label label =
    (length label == 0)
    || (ltb 63 (length label) || (starts_with label (codes "-") || ends_with label (codes "-")))

unfoldable pub check_hostname : Text → Option Text
check_hostname hostname =
    if (ltb (length hostname) 4 || ltb 253 (length hostname))
      || (not (any (λ c. c == b'.') hostname) || not (all is_host_char hostname))
    then none
    else if any bad_label (split b'.' hostname)
    then none
    else some hostname

unfoldable pub normalize_hostname : Value → Option Text
normalize_hostname (str s) = check_hostname (drop_last_dot (lower (trim s)))
normalize_hostname _ = none

abbrev pub is_region_char : ℕ → Bool
is_region_char c = is_alnum c || (c == b' ' || (c == b'.' || (c == b'_' || c == b'-')))

unfoldable pub normalize_region : Value → Outcome (Option Text)
normalize_region undefined = ok none
normalize_region null = ok none
normalize_region (str []) = ok none
normalize_region (str (c ∷ s)) =
    let region = trim (c ∷ s) in
    if (length region == 0) || (ltb 32 (length region) || not (all is_region_char region))
    then err invalid_region
    else ok (some region)
normalize_region _ = err invalid_region

-- `/^[a-z0-9][a-z0-9._-]{0,63}$/i` on an entry, which has to be a string.
abbrev pub is_capability_char : ℕ → Bool
is_capability_char c = is_alnum c || (c == b'.' || (c == b'_' || c == b'-'))

unfoldable pub capability_entry : Value → Option Text
capability_entry (str (c ∷ s)) =
    if is_alnum c && (leb (length s) 63 && all is_capability_char s)
    then some (lower (c ∷ s))
    else none
capability_entry _ = none

unfoldable pub capability_entries : Values → Option (List Text)
capability_entries Values.nil = some []
capability_entries (Values.cons v vs) = elim (capability_entry v) [
  | none ↦ none
  | some e ↦ elim (capability_entries vs) [ none ↦ none | some es ↦ some (e ∷ es) ]
]

-- `[...new Set(xs)]`: the first of equal entries stays.
unfoldable pub distinct_from : List Text → List Text → List Text
distinct_from seen [] = []
distinct_from seen (x ∷ xs) =
    let skipped = distinct_from seen xs in
    let kept = x ∷ distinct_from (x ∷ seen) xs in
    elim (includes seen x) [ true ↦ skipped | false ↦ kept ]

unfoldable pub normalize_capabilities : Value → List Text → Outcome (List Text)
unfolding distinct_from
normalize_capabilities undefined fallback = ok fallback
normalize_capabilities (arr vs) fallback =
    if ltb 32 (length (values vs)) then err invalid_capabilities else elim (capability_entries vs) [
      | none ↦ err invalid_capabilities
      | some es ↦ ok (distinct_from [] es)
    ]
normalize_capabilities _ fallback = err invalid_capabilities

-- `parsed.filter((entry) => typeof entry === "string")`.
unfoldable pub strings_of : List Value → List Text
strings_of [] = []
strings_of (str s ∷ vs) = s ∷ strings_of vs
strings_of (_ ∷ vs) = strings_of vs

strings_of_parsed : Option Value → List Text
strings_of_parsed (some (arr vs)) = strings_of (values vs)
strings_of_parsed _ = []

unfoldable pub parse_capabilities : Runtime → Option Text → List Text
unfolding strings_of strings_of_parsed
parse_capabilities rt (some (c ∷ s)) = strings_of_parsed (rt.json_parse (c ∷ s))
parse_capabilities rt _ = strings_of_parsed (rt.json_parse (codes "[]"))

abbrev pub is_address_char : ℕ → Bool
is_address_char c = is_hex c || (c == b':' || c == b'.')

unfoldable pub normalize_preferred_ip : Value → Outcome (Option Text)
normalize_preferred_ip undefined = ok none
normalize_preferred_ip null = ok none
normalize_preferred_ip (str []) = ok none
normalize_preferred_ip (str (c ∷ s)) =
    if ltb 64 (length (c ∷ s)) || not (all is_address_char (c ∷ s))
    then err invalid_preferred_ip
    else ok (some (c ∷ s))
normalize_preferred_ip _ = err invalid_preferred_ip

-- `Number(v)`.
unfoldable pub to_number : Runtime → Value → Number
to_number rt undefined = other
to_number rt null = whole 0
to_number rt (bool true) = whole 1
to_number rt (bool false) = whole 0
to_number rt (num n) = n
to_number rt (str s) = rt.number_of s
to_number rt (arr vs) = rt.number_of (rt.string_of (arr vs))
to_number rt obj = other

-- `String(v)`.
unfoldable pub to_string : Runtime → Value → Text
to_string rt (str s) = s
to_string rt v = rt.string_of v
