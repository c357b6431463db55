-- ===== src/Routing.antt =====
-- packages/control-plane/src/routing.ts: the hosts that are unlocked through landing servers.
pub mod Normal
pub mod Stored
pub mod Requests
pub mod Locked
use mathlib.Core.List.{reverse}
use opus8_cf.Base.{
  ℕ, Bool, true, false, not, ◌&&◌, ◌||◌, List, [], ◌∷◌, ◌++◌, Option, none, some, leb, ltb, ◌==◌,
  if◌then◌else◌, or_else, length, all, any, take, drop, keep, Text, codes, truthy, includes, trim,
  lower, is_lower, is_digit, is_space, split, starts_with, has_text, Number, whole, Value, str, arr,
  num, undefined, Values, nil, cons, values,
}
use opus8_cf.Enrollment.Fields.{drop_last_dot}

abbrev pub max_unlock_hosts : ℕ
max_unlock_hosts = 500

abbrev pub is_part_char : ℕ → Bool
is_part_char c = is_lower c || (is_digit c || c == b'-')

abbrev starts_alnum : Text → Bool
starts_alnum [] = false
starts_alnum (c ∷ s) = is_lower c || is_digit c

abbrev starts_letter : Text → Bool
starts_letter [] = false
starts_letter (c ∷ s) = is_lower c

-- `[a-z0-9](?:[a-z0-9-]{0,61}[a-z0-9])?`.
unfoldable pub is_part : Text → Bool
is_part l =
    (leb 1 (length l) && leb (length l) 63)
    && (all is_part_char l && (starts_alnum l && starts_alnum (reverse l)))

-- The parts after the first one: the last of them begins with a letter.
unfoldable pub later_parts : List Text → Bool
unfolding is_part
later_parts [] = false
later_parts (l ∷ []) = is_part l && starts_letter l
later_parts (l ∷ m ∷ ls) = is_part l && later_parts (m ∷ ls)

unfoldable pub domain_parts : List Text → Bool
unfolding later_parts
domain_parts [] = false
domain_parts (l ∷ ls) = is_part l && later_parts ls

-- `DOMAIN_RE`.
unfoldable pub domain_re : Text → Bool
unfolding domain_parts
domain_re host = (leb 1 (length host) && leb (length host) 253) && domain_parts (split b'.' host)

abbrev pub is_bad_char : ℕ → Bool
is_bad_char c =
    (c == b'/') || ((c == b'?') || ((c == b'#') || ((c == b':') || ((c == b'@') || is_space c))))

-- `if (host.startsWith("*.")) host = host.slice(2)`.
abbrev pub drop_wildcard : Text → Text
drop_wildcard host = if starts_with host (codes "*.") then drop 2 host else host

unfoldable pub check_host : Text → Option Text
unfolding domain_re
check_host host =
    if not (truthy host) || (has_text host (codes "://") || any is_bad_char host)
    then none
    else if domain_re host
    then some host
    else none

-- `normalizeOne`.
unfoldable pub normalize_one : Value → Option Text
unfolding check_host
normalize_one (str s) = check_host (drop_last_dot (drop_wildcard (lower (trim s))))
normalize_one _ = none

-- An entry of `invalidHosts`: a value that is shown as `String(value)`, or one of two sentences.
pub data InvalidHost : Type 0 where
  not_an_array too_many : InvalidHost
  entry : Value → InvalidHost

-- The answer of `validateUnlockHosts`.
pub record Validated : Type 0 where
  pub hosts : List Text
  pub invalid_hosts : List InvalidHost

abbrev pub add_host : Option Text → List Text → List Text
add_host none hosts = hosts
add_host (some h) hosts = if includes hosts h then hosts else hosts ++ (h ∷ [])

abbrev add_invalid : Option Text → Value → List InvalidHost → List InvalidHost
add_invalid none value invalid = invalid ++ (entry value ∷ [])
add_invalid (some h) value invalid = invalid

-- The loop over the input.
unfoldable pub collect_hosts : List Value → Validated → Validated
unfolding normalize_one
collect_hosts [] v = v
collect_hosts (value ∷ rest) v = collect_hosts rest (record {
  hosts = add_host (normalize_one value) v.hosts;
  invalid_hosts = add_invalid (normalize_one value) value v.invalid_hosts;
})

unfoldable pub limit_hosts : Validated → Validated
limit_hosts v = record {
  hosts = take max_unlock_hosts v.hosts;
  invalid_hosts =
      if ltb max_unlock_hosts (length v.hosts)
      then v.invalid_hosts ++ (too_many ∷ [])
      else v.invalid_hosts;
}

-- `validateUnlockHosts`.
unfoldable pub validate_unlock_hosts : Value → Validated
unfolding collect_hosts limit_hosts
validate_unlock_hosts (arr vs) =
    limit_hosts (collect_hosts (values vs) (record { hosts = []; invalid_hosts = [] }))
validate_unlock_hosts _ = record { hosts = []; invalid_hosts = not_an_array ∷ [] }

-- A list of strings as a value.
abbrev pub texts : List Text → Values
texts [] = nil
texts (t ∷ ts) = cons (str t) (texts ts)

-- `StoredUnlockHosts` as it is read from JSON.
pub record StoredUnlockHosts : Type 0 where
  pub hosts : Value
  pub updated_at : Value

-- JSON, and `Number(v) || 0`. `parse` is none where JSON.parse throws or gives null.
pub record StoredCodec : Type 0 where
  pub stringify : List Text → ℕ → Text
  pub parse : Text → Option StoredUnlockHosts
  pub number_or_zero : Value → Number

-- The entry of the key-value store: a read may throw.
pub data KvEntry : Type 0 where
  failing missing : KvEntry
  present : Text → KvEntry

pub data HostsSource : Type 0 where
  default custom : HostsSource

-- `UnlockHostsConfig`.
pub record UnlockHostsConfig : Type 0 where
  pub hosts : List Text
  pub updated_at : Number
  pub source : HostsSource

-- `defaultHosts`, of DEFAULT_UNLOCK_HOSTS.
unfoldable pub default_hosts : Option Text → List Text
unfolding validate_unlock_hosts
default_hosts configured =
    (validate_unlock_hosts (arr (texts (keep truthy (split b',' (or_else configured [])))))).hosts

abbrev pub is_empty : {A : Type 0} → List A → Bool
is_empty [] = true
is_empty (x ∷ xs) = false

-- The stored hosts, or none where the default takes their place.
unfoldable pub custom_hosts : StoredCodec → Option StoredUnlockHosts → Option UnlockHostsConfig
unfolding validate_unlock_hosts
custom_hosts codec none = none
custom_hosts codec (some stored) =
    let validated = validate_unlock_hosts stored.hosts in
    if is_empty validated.invalid_hosts
    then some (record {
      hosts = validated.hosts;
      updated_at = codec.number_or_zero stored.updated_at;
      source = custom;
    })
    else none

unfoldable pub stored_hosts : StoredCodec → KvEntry → Option UnlockHostsConfig
unfolding custom_hosts
stored_hosts codec failing = none
stored_hosts codec missing = none
stored_hosts codec (present raw) = if truthy raw then custom_hosts codec (codec.parse raw) else none

-- `getUnlockHosts`.
unfoldable pub get_unlock_hosts : StoredCodec → Option Text → KvEntry → UnlockHostsConfig
unfolding stored_hosts default_hosts
get_unlock_hosts codec configured kv =
    or_else (stored_hosts codec kv)
      (record { hosts = default_hosts configured; updated_at = whole 0; source = default })

-- `putUnlockHosts`: the entry that it leaves and its answer.
unfoldable pub put_unlock_hosts : StoredCodec → List Text → ℕ → KvEntry × UnlockHostsConfig
put_unlock_hosts codec hosts now = (
  present (codec.stringify hosts now),
  record { hosts = hosts; updated_at = whole now; source = custom },
)

-- `resetUnlockHosts`.
unfoldable pub reset_unlock_hosts : StoredCodec → Option Text → KvEntry × UnlockHostsConfig
unfolding get_unlock_hosts
reset_unlock_hosts codec configured = (missing, get_unlock_hosts codec configured missing)
