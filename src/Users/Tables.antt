-- ===== src/Users/Tables.antt =====
-- The tables `users`, `user_devices`, `user_limits` and `usage` of
-- packages/control-plane/schema.sql, and the joins that packages/control-plane/src/db.ts and
-- packages/control-plane/src/usage.ts make of them.
use opus8_cf.Base.{
  ℕ, ◌+◌, Bool, true, ◌&&◌, List, [], ◌∷◌, Option, none, some, ltb, ◌==◌, if◌then◌else◌, Text,
  text_eq, first_where,
}

-- `UserRecord`.
pub record User : Type 0 where
  pub id : Text
  pub username : Option Text
  pub uuid : Text
  pub plan_id : Option Text
  pub node_group : Option Text
  pub unlock : ℕ
  pub sub_token : Text
  pub expire_at : Option ℕ
  pub enabled : ℕ
  pub created_at : ℕ

-- `DeviceCredentialMode` and `HwidMode`.
pub data CredentialMode : Type 0 where
  static rotating : CredentialMode

pub data HwidMode : Type 0 where
  off optional required : HwidMode

-- `UserDeviceRecord`.
pub record Device : Type 0 where
  pub id : Text
  pub user_id : Text
  pub name : Text
  pub base_uuid : Text
  pub sub_token : Text
  pub credential_mode : CredentialMode
  pub hwid_mode : HwidMode
  pub hwid_hash : Option Text
  pub hwid_bound_at : Option ℕ
  pub enabled : ℕ
  pub created_at : ℕ
  pub updated_at : ℕ

-- A row of `user_limits`.
pub record UserLimits : Type 0 where
  pub user_id : Text
  pub device_limit : ℕ
  pub ip_limit_24h : ℕ
  pub traffic_limit_bytes : ℕ

-- A row of `usage`.
pub record UsageTotal : Type 0 where
  pub user_id : Text
  pub node_id : Text
  pub ts_bucket : ℕ
  pub connections : ℕ
  pub bytes_up : ℕ
  pub bytes_down : ℕ

abbrev pub user_is : Text → User → Bool
user_is id u = text_eq u.id id

abbrev pub device_of : Text → Device → Bool
device_of id d = text_eq d.user_id id

abbrev pub limits_of : Text → UserLimits → Bool
limits_of id l = text_eq l.user_id id

abbrev pub usage_of : Text → UsageTotal → Bool
usage_of id u = text_eq u.user_id id

-- `expire_at IS NULL OR expire_at>now`.
abbrev pub unexpired : ℕ → Option ℕ → Bool
unexpired now none = true
unexpired now (some t) = ltb now t

-- `COALESCE` of the limits of a user who may have no row.
abbrev pub device_limit_of : Option UserLimits → ℕ
device_limit_of none = 2
device_limit_of (some l) = l.device_limit

abbrev pub ip_limit_of : Option UserLimits → ℕ
ip_limit_of none = 5
ip_limit_of (some l) = l.ip_limit_24h

abbrev pub traffic_limit_of : Option UserLimits → ℕ
traffic_limit_of none = 0
traffic_limit_of (some l) = l.traffic_limit_bytes

-- `SUM(bytes_up+bytes_down)` of a user.
unfoldable pub sum_usage : Text → List UsageTotal → ℕ
sum_usage id [] = 0
sum_usage id (u ∷ us) =
    let rest = sum_usage id us in
    if text_eq u.user_id id then u.bytes_up + u.bytes_down + rest else rest

-- A device with the user that it belongs to.
pub record Owned : Type 0 where
  pub user : User
  pub device : Device

abbrev pub is_active : ℕ → User → Bool
is_active now u = (u.enabled == 1) && unexpired now u.expire_at

-- The row of the join for a device that is enabled and whose user is active. `users.id` is a
-- primary key to which the device refers, so there is one such row at most.
unfoldable pub owned_row : List User → ℕ → Device → List Owned
owned_row users now d = elim (first_where (user_is d.user_id) users) [
  | none ↦ []
  | some u ↦
      if (d.enabled == 1) && is_active now u then record { user = u; device = d } ∷ [] else []
]
