-- ===== src/Users/Accounts.antt =====
-- The operations of packages/control-plane/src/db.ts on users, their limits and their use.
pub mod Revoked
use opus8_cf.Base.{
  ℕ, ◌+◌, Bool, true, false, ◌&&◌, ◌||◌, List, [], ◌∷◌, Option, none, some, if◌then◌else◌, or_else,
  is_some, any, Text, text_eq, text_is, first_where, update_where, delete_where, upsert, ◌==◌,
}
use opus8_cf.Users.Tables.{
  User, Device, UserLimits, UsageTotal, CredentialMode, static, HwidMode, user_is, device_of,
  limits_of, usage_of, device_limit_of, ip_limit_of, traffic_limit_of,
}
use opus8_cf.Admission.{Lease, SeenIp}
use opus8_cf.Metering.{StoredEvent}

-- The tables in which a user has rows. The rows of `user_limits`, `user_devices`, `active_leases`,
-- `ip_history` and `usage_events` refer to the user and go with it.
pub record UserDb : Type 0 where
  pub users : List User
  pub devices : List Device
  pub limits : List UserLimits
  pub usage : List UsageTotal
  pub events : List StoredEvent
  pub leases : List Lease
  pub history : List SeenIp

-- `Required<UserLimitInput>`.
pub record LimitInput : Type 0 where
  pub device_limit : ℕ
  pub ip_limit_24h : ℕ
  pub traffic_limit_bytes : ℕ

-- The changes that `updateUserPolicy` takes, of which any may be undefined.
pub record PolicyChanges : Type 0 where
  pub unlock : Option Bool
  pub enabled : Option Bool
  pub device_limit : Option ℕ
  pub ip_limit_24h : Option ℕ
  pub traffic_limit_bytes : Option ℕ

-- What `getUserLimits` answers.
pub record ShownLimits : Type 0 where
  pub device_limit : ℕ
  pub ip_limit_24h : ℕ
  pub traffic_limit_bytes : ℕ
  pub enabled : ℕ
  pub unlock : ℕ

unfoldable pub get_user_limits : UserDb → Text → Option ShownLimits
get_user_limits db id = elim (first_where (user_is id) db.users) [
  | none ↦ none
  | some u ↦
      let found = first_where (limits_of id) db.limits in
      some (record {
        device_limit = device_limit_of found;
        ip_limit_24h = ip_limit_of found;
        traffic_limit_bytes = traffic_limit_of found;
        enabled = u.enabled;
        unlock = u.unlock;
      })
]

-- The unique keys of `users` and `user_devices`.
abbrev pub user_clashes : User → User → Bool
user_clashes u v =
    text_eq v.id u.id
    || (text_eq v.uuid u.uuid
        || (text_eq v.sub_token u.sub_token
            || (is_some v.username && text_is u.username (or_else v.username []))))

abbrev pub device_clashes : Device → Device → Bool
device_clashes d e =
    text_eq e.id d.id || (text_eq e.base_uuid d.base_uuid || text_eq e.sub_token d.sub_token)

-- The row that `insertUser` writes: the statement writes `enabled` as 1.
abbrev pub user_row : User → User
user_row u = record u { enabled = 1 }

abbrev pub device_row : Device → Device
device_row d = record d {
  hwid_hash = none;
  hwid_bound_at = none;
  enabled = 1;
  updated_at = d.created_at;
}

abbrev pub limits_row : Text → LimitInput → UserLimits
limits_row id l = record {
  user_id = id;
  device_limit = l.device_limit;
  ip_limit_24h = l.ip_limit_24h;
  traffic_limit_bytes = l.traffic_limit_bytes;
}

-- `insertUser`: the batch fails as a whole where a unique key is taken, or where the device refers to
-- a user that does not exist.
unfoldable pub insert_user : UserDb → User → LimitInput → Device → Option UserDb
insert_user db u limits d =
    if any (user_clashes u) db.users
      || (any (device_clashes d) db.devices || any (limits_of u.id) db.limits)
    then none
    else if any (user_is d.user_id) (u ∷ db.users)
    then some (record db {
      users = user_row u ∷ db.users;
      devices = device_row d ∷ db.devices;
      limits = limits_row u.id limits ∷ db.limits;
    })
    else none

abbrev flag : Bool → ℕ
flag true = 1
flag false = 0

abbrev pub flag_or : Option Bool → ℕ → ℕ
flag_or none n = n
flag_or (some b) n = flag b

abbrev pub change_user : PolicyChanges → User → User
change_user c u = record u {
  unlock = flag_or c.unlock u.unlock;
  enabled = flag_or c.enabled u.enabled;
}

abbrev pub change_limits : PolicyChanges → UserLimits → UserLimits
change_limits c l = record l {
  device_limit = or_else c.device_limit l.device_limit;
  ip_limit_24h = or_else c.ip_limit_24h l.ip_limit_24h;
  traffic_limit_bytes = or_else c.traffic_limit_bytes l.traffic_limit_bytes;
}

abbrev pub first_limits : Text → PolicyChanges → UserLimits
first_limits id c = record {
  user_id = id;
  device_limit = or_else c.device_limit 2;
  ip_limit_24h = or_else c.ip_limit_24h 5;
  traffic_limit_bytes = or_else c.traffic_limit_bytes 0;
}

abbrev changes_limits : PolicyChanges → Bool
changes_limits c =
    is_some c.device_limit || (is_some c.ip_limit_24h || is_some c.traffic_limit_bytes)

-- `updateUserPolicy`: none where the limits of a user who does not exist are written.
unfoldable pub update_user_policy : UserDb → Text → PolicyChanges → Option UserDb
update_user_policy db id c =
    let changed = record db { users = update_where (user_is id) (change_user c) db.users } in
    if changes_limits c
    then (if any (user_is id) db.users
        then some (record changed {
          limits = upsert (limits_of id) (change_limits c) (first_limits id c) db.limits;
        })
        else none)
    else some changed

-- `deleteUser`.
unfoldable pub delete_user : UserDb → Text → UserDb
delete_user db id = record {
  users = delete_where (user_is id) db.users;
  devices = delete_where (device_of id) db.devices;
  limits = delete_where (limits_of id) db.limits;
  usage = delete_where (usage_of id) db.usage;
  events = delete_where (λ e. text_eq e.user_id id) db.events;
  leases = delete_where (λ l. text_eq l.user_id id) db.leases;
  history = delete_where (λ h. text_eq h.user_id id) db.history;
}

-- `resetUserUsage` and `clearUserLeases`.
unfoldable pub reset_user_usage : UserDb → Text → UserDb
reset_user_usage db id = record db {
  events = delete_where (λ e. text_eq e.user_id id) db.events;
  usage = delete_where (usage_of id) db.usage;
}

unfoldable pub clear_user_leases : UserDb → Text → UserDb
clear_user_leases db id = record db {
  leases = delete_where (λ l. text_eq l.user_id id) db.leases;
  history = delete_where (λ h. text_eq h.user_id id) db.history;
}
