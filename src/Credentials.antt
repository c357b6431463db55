-- ===== src/Credentials.antt =====
-- packages/control-plane/src/device-credentials.ts and packages/control-plane/src/node-assignment.ts:
-- the UUIDs under which a device connects, and the nodes to which a user is assigned.
use opus8_cf.Base.{
  ℕ, zero, suc, ◌+◌, ◌-◌, ◌*◌, ◌/◌, ◌%◌, Bool, true, false, ◌&&◌, ◌||◌, List, [], ◌∷◌, ◌++◌, Option,
  none, some, leb, ltb, ◌==◌, if◌then◌else◌, length, all, any, take, drop, Text, codes, text_eq,
  trim, lower, truthy, is_digit, whole, minus, Value, num, str, arr, values,
}
use opus8_cf.Enrollment.Fields.{Runtime}
use opus8_cf.Users.Tables.{CredentialMode, static, rotating}

abbrev pub device_uuid_window_ms : ℕ
device_uuid_window_ms = 86400000

-- The value of a digit of `hmacSign`, whose digests are lower case hexadecimal.
unfoldable pub hex_value : ℕ → ℕ
hex_value c = if is_digit c then c - b'0' else c - 87

unfoldable pub hex_digit : ℕ → ℕ
hex_digit n = if ltb n 10 then b'0' + n else 87 + n

-- The loop over the pairs of digits, with the number of rounds left.
unfoldable pub bytes_of : ℕ → Text → List ℕ
unfolding hex_value
bytes_of zero hex = []
bytes_of (suc n) (a ∷ b ∷ hex) = (hex_value a * 16 + hex_value b) ∷ bytes_of n hex
bytes_of (suc n) _ = 0 ∷ bytes_of n []

-- `(b & 0x0f) | 0x40` and `(b & 0x3f) | 0x80`, on the sixth and the eighth byte.
abbrev stamp_byte : ℕ → ℕ → ℕ
stamp_byte i b = if i == 6 then b % 16 + 64 else if i == 8 then b % 64 + 128 else b

unfoldable pub stamp : ℕ → List ℕ → List ℕ
stamp i [] = []
stamp i (b ∷ bs) = stamp_byte i b ∷ stamp (i + 1) bs

-- `value.toString(16).padStart(2, "0")` of a byte.
unfoldable pub hex_bytes : List ℕ → Text
unfolding hex_digit
hex_bytes [] = []
hex_bytes (b ∷ bs) = hex_digit (b / 16) ∷ hex_digit (b % 16) ∷ hex_bytes bs

-- `s.slice(from, to)` by the number of units.
unfoldable pub slice : ℕ → ℕ → Text → Text
slice from n s = take n (drop from s)

-- The five groups joined by "-".
unfoldable pub uuid_groups : Text → Text
unfolding slice
uuid_groups s =
    slice 0 8 s
    ++ (b'-'
        ∷ (slice 8 4 s
            ++ (b'-' ∷ (slice 12 4 s ++ (b'-' ∷ (slice 16 4 s ++ (b'-' ∷ slice 20 12 s)))))))

-- `uuidFromHex`.
unfoldable pub uuid_from_hex : Text → Text
unfolding bytes_of stamp hex_bytes uuid_groups
uuid_from_hex hex = uuid_groups (hex_bytes (stamp 0 (bytes_of 16 hex)))

-- `${window}` for the window of `now` and for the one before it.
abbrev window_text : Runtime → ℕ → Text
window_text rt n = rt.string_of (num (whole n))

abbrev window_before : Runtime → ℕ → Text
window_before rt zero = rt.string_of (num (minus 0))
window_before rt (suc n) = rt.string_of (num (whole n))

unfoldable pub derive_in_window : Runtime → Text → Text → Text → Text
derive_in_window rt secret base_uuid window =
    uuid_from_hex
      (rt.hmac_sign secret (codes "device-uuid:v1:" ++ (lower base_uuid ++ (b':' ∷ window))))

-- `deriveDeviceUuid`, for the window of `now` and for the window before.
unfoldable pub derive_device_uuid : Runtime → Text → Text → ℕ → Text
unfolding derive_in_window
derive_device_uuid rt secret base_uuid now =
    derive_in_window rt secret base_uuid (window_text rt (now / device_uuid_window_ms))

unfoldable pub derive_previous_uuid : Runtime → Text → Text → ℕ → Text
unfolding derive_in_window
derive_previous_uuid rt secret base_uuid now =
    derive_in_window rt secret base_uuid (window_before rt (now / device_uuid_window_ms))

-- `deviceCredentialUuids`.
unfoldable pub device_credential_uuids : Runtime → Text → Text → CredentialMode → ℕ → List Text
device_credential_uuids rt secret base_uuid static now = lower base_uuid ∷ []
device_credential_uuids rt secret base_uuid rotating now =
    derive_device_uuid rt secret base_uuid now ∷ derive_previous_uuid rt secret base_uuid now ∷ []

abbrev pub is_printable : ℕ → Bool
is_printable c = leb 0x21 c && leb c 0x7e

-- `normalizeHwid`.
unfoldable pub normalize_hwid : Option Text → Option Text
normalize_hwid none = none
normalize_hwid (some raw) =
    let value = trim raw in
    if leb 8 (length value) && (leb (length value) 256 && all is_printable value)
    then some value
    else none

-- `hashDeviceHwid`.
unfoldable pub hash_device_hwid : Runtime → Text → Text → Text → Text
hash_device_hwid rt secret device_id hwid =
    rt.hmac_sign secret (codes "device-hwid:v1:" ++ (device_id ++ (b':' ∷ hwid)))

-- A value that names the node or its account.
abbrev pub names_node : Text → Text → Value → Bool
names_node node_id alias (str s) = text_eq s node_id || text_eq s alias
names_node node_id alias _ = false

abbrev is_empty_list : List Value → Bool
is_empty_list [] = true
is_empty_list (v ∷ vs) = false

unfoldable pub group_names : Option Value → Text → Text → Bool
group_names (some (arr vs)) node_id alias =
    is_empty_list (values vs) || any (names_node node_id alias) (values vs)
group_names _ node_id alias = false

-- `userAssignedToNode`.
unfoldable pub user_assigned_to_node : Runtime → Option Text → Text → Text → Bool
unfolding group_names
user_assigned_to_node rt none node_id alias = true
user_assigned_to_node rt (some group) node_id alias =
    if truthy (trim group) then group_names (rt.json_parse group) node_id alias else true
