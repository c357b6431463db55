-- ===== src/Users/Devices.antt =====
-- The operations of packages/control-plane/src/db.ts on a user's devices.
pub mod Kept
use opus8_cf.Base.{
  ℕ, Bool, true, false, not, ◌&&◌, ◌||◌, List, [], ◌∷◌, Option, none, some, ltb, ◌==◌,
  if◌then◌else◌, or_else, is_some, any, keep, Text, codes, text_eq, starts_with, lower, first_where,
  update_where, delete_where, count_where, Result,
}
use opus8_cf.Users.Tables.{User, Device, CredentialMode, static, HwidMode, off, user_is, device_of}
use opus8_cf.Users.Accounts.{device_clashes, device_row, flag_or}

-- `listUserDevices` without its order.
unfoldable pub list_user_devices : List Device → Text → List Device
list_user_devices devices id = keep (device_of id) devices

-- `createUserDevice`: none where a unique key is taken; nothing is written for a user who does not
-- exist or has 20 devices.
unfoldable pub create_user_device : List User → List Device → Device → Option (List Device)
create_user_device users devices d =
    if any (user_is d.user_id) users && ltb (count_where (device_of d.user_id) devices) 20
    then (if any (device_clashes d) devices then none else some (device_row d ∷ devices))
    else some devices

pub record DeviceChanges : Type 0 where
  pub name : Option Text
  pub enabled : Option Bool
  pub hwid_mode : Option HwidMode

abbrev pub is_device : Text → Text → Device → Bool
is_device user_id id d = text_eq d.id id && text_eq d.user_id user_id

abbrev turns_off : Option HwidMode → Bool
turns_off (some off) = true
turns_off _ = false

abbrev pub change_device : DeviceChanges → ℕ → Device → Device
change_device c now d = record d {
  name = or_else c.name d.name;
  enabled = flag_or c.enabled d.enabled;
  hwid_mode = or_else c.hwid_mode d.hwid_mode;
  hwid_hash = if turns_off c.hwid_mode then none else d.hwid_hash;
  hwid_bound_at = if turns_off c.hwid_mode then none else d.hwid_bound_at;
  updated_at = now;
}

-- `updateUserDevice`.
unfoldable pub update_user_device : List Device → Text → Text → DeviceChanges → ℕ → List Device
update_user_device devices user_id id c now =
    update_where (is_device user_id id) (change_device c now) devices

-- `resetUserDeviceHwid`.
unfoldable pub reset_user_device_hwid : List Device → Text → Text → ℕ → List Device
reset_user_device_hwid devices user_id id now =
    update_where (is_device user_id id)
      (λ d. record d { hwid_hash = none; hwid_bound_at = none; updated_at = now }) devices

-- The rows of other devices that hold one of the two unique values already.
abbrev pub taken_by_other : Text → Text → Text → Device → Bool
taken_by_other id base_uuid sub_token d =
    not (text_eq d.id id) && (text_eq d.base_uuid base_uuid || text_eq d.sub_token sub_token)

abbrev rotate_all : Text → Text → ℕ → Device → Device
rotate_all base_uuid sub_token now d = record d {
  base_uuid = base_uuid;
  sub_token = sub_token;
  credential_mode = static;
  hwid_hash = none;
  hwid_bound_at = none;
  updated_at = now;
}

-- `rotateUserDeviceCredential`: none where a unique key is taken.
unfoldable pub rotate_user_device_credential :
    List Device → Text → Text → Text → Text → ℕ → Option (List Device)
rotate_user_device_credential devices user_id id base_uuid sub_token now =
    if any (is_device user_id id) devices && any (taken_by_other id base_uuid sub_token) devices
    then none
    else some (update_where (is_device user_id id) (rotate_all base_uuid sub_token now) devices)

abbrev uuid_taken : Text → Text → Device → Bool
uuid_taken id base_uuid d = not (text_eq d.id id) && text_eq d.base_uuid base_uuid

abbrev rotate_uuid : Text → ℕ → Device → Device
rotate_uuid base_uuid now d = record d {
  base_uuid = base_uuid;
  credential_mode = static;
  updated_at = now;
}

-- `rotateUserDeviceConnectionCredential`, with whether a row has changed.
unfoldable pub rotate_user_device_connection_credential :
    List Device → Text → Text → Text → ℕ → Option (List Device × Bool)
rotate_user_device_connection_credential devices user_id id base_uuid now =
    if any (is_device user_id id) devices && any (uuid_taken id base_uuid) devices
    then none
    else some (
      update_where (is_device user_id id) (rotate_uuid base_uuid now) devices,
      ltb 0 (count_where (is_device user_id id) devices),
    )

-- `id NOT LIKE 'legacy-%'`: LIKE does not tell the cases of ASCII letters apart.
abbrev pub is_legacy : Device → Bool
is_legacy d = starts_with (lower d.id) (codes "legacy-")

-- The condition of the DELETE; the subquery counts the user's devices before it.
abbrev pub deletable : List Device → Text → Text → Device → Bool
deletable devices user_id id d =
    is_device user_id id d && (not (is_legacy d) && ltb 1 (count_where (device_of user_id) devices))

-- `deleteUserDevice`, with whether a row was deleted.
unfoldable pub delete_user_device : List Device → Text → Text → List Device × Bool
delete_user_device devices user_id id = (
  delete_where (deletable devices user_id id) devices,
  ltb 0 (count_where (deletable devices user_id id) devices),
)

abbrev pub unbound : Text → Device → Bool
unbound id d = text_eq d.id id && (d.enabled == 1 && not (is_some d.hwid_hash))

abbrev pub has_device_id : Text → Device → Bool
has_device_id id d = text_eq d.id id

-- `bindUserDeviceHwid`: the devices after it, and the row that it reads then.
unfoldable pub bind_user_device_hwid : List Device → Text → Text → ℕ → List Device × Option Device
bind_user_device_hwid devices id hwid_hash now =
    let bound =
      update_where (unbound id)
        (λ d. record d { hwid_hash = some hwid_hash; hwid_bound_at = some now; updated_at = now })
        devices in
    (bound, first_where (has_device_id id) bound)
