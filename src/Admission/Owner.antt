-- ===== src/Admission/Owner.antt =====
-- `resolveAuthorizedCredentialOwner`, `validToken` and the whole of `admitConnection` of
-- packages/control-plane/src/usage.ts.
use opus8_cf.Base.{
  ℕ, Bool, true, false, ◌&&◌, ◌||◌, List, [], ◌∷◌, ◌++◌, Option, none, some, leb, ◌==◌,
  if◌then◌else◌, length, all, includes, keep, Text, lower, truthy, text_eq, is_alnum, first_where,
  count_where, guard, or_throw, ◌>>=◌, ◌>>◌, Result, ok, err, Value, undefined, str, is_some,
}
use opus8_cf.Enrollment.Fields.{Runtime}
use opus8_cf.Enrollment.Create.{max_safe_integer}
use opus8_cf.Nodes.{Node, get_node}
use opus8_cf.Users.Tables.{
  User, Device, Owned, CredentialMode, static, rotating, owned_row, limits_of, user_is,
  device_limit_of, ip_limit_of, traffic_limit_of, sum_usage,
}
use opus8_cf.Credentials.{device_credential_uuids, user_assigned_to_node}
use opus8_cf.Admission.{AdmissionDb, Admission, Verdict, admit, live, recent}

-- The tables that say whose a credential is.
pub record Directory : Type 0 where
  pub nodes : List Node
  pub users : List User
  pub devices : List Device

-- The join of the devices that are enabled with their active users.
unfoldable pub owned_rows : List User → ℕ → List Device → List Owned
owned_rows users now [] = []
owned_rows users now (d ∷ ds) = owned_row users now d ++ owned_rows users now ds

abbrev pub is_static : CredentialMode → Bool
is_static static = true
is_static rotating = false

abbrev pub has_static_uuid : Text → Owned → Bool
has_static_uuid uuid o = text_eq o.device.base_uuid uuid && is_static o.device.credential_mode

abbrev pub belongs_to : Text → Owned → Bool
belongs_to id o = text_eq o.user.id id

abbrev pub uuids_of : Runtime → Text → ℕ → Owned → List Text
uuids_of rt secret now o =
    device_credential_uuids rt secret o.device.base_uuid o.device.credential_mode now

abbrev pub connects_as : Runtime → Text → Text → ℕ → Owned → Bool
connects_as rt secret uuid now o = includes (uuids_of rt secret now o) (lower uuid)

abbrev pub assigned : Runtime → Node → Owned → Bool
assigned rt n o = user_assigned_to_node rt o.user.node_group n.id n.account_alias

-- The assignment of a user who may be missing.
abbrev pub user_assigned : Runtime → Node → Option User → Bool
user_assigned rt n none = false
user_assigned rt n (some u) = user_assigned_to_node rt u.node_group n.id n.account_alias

abbrev pub id_of : Option Owned → Option Text
id_of none = none
id_of (some o) = some o.user.id

-- A request that names no user: the owner of the static credential.
unfoldable pub static_owner : Runtime → Node → List Owned → Text → Option Text
static_owner rt n rows uuid = elim (first_where (has_static_uuid uuid) rows) [
  | none ↦ none
  | some o ↦ if assigned rt n o then some o.user.id else none
]

-- A request that names a user, with the rows of the user's devices.
unfoldable pub named_owner : Runtime → Text → Node → List Owned → Text → ℕ → Option Text
named_owner rt secret n [] uuid now = none
named_owner rt secret n (o ∷ os) uuid now =
    if assigned rt n o then id_of (first_where (connects_as rt secret uuid now) (o ∷ os)) else none

unfoldable pub owner_on : Runtime → Text → Node → List Owned → Option Text → Text → ℕ → Option Text
unfolding static_owner named_owner
owner_on rt secret n rows none uuid now = static_owner rt n rows uuid
owner_on rt secret n rows (some []) uuid now = static_owner rt n rows uuid
owner_on rt secret n rows (some (c ∷ id)) uuid now =
    named_owner rt secret n (keep (belongs_to (c ∷ id)) rows) uuid now

-- `resolveAuthorizedCredentialOwner`.
unfoldable pub resolve_owner :
    Runtime → Text → Directory → Text → Option Text → Text → ℕ → Option Text
unfolding owner_on owned_rows
resolve_owner rt secret dir node_id requested uuid now = elim (get_node dir.nodes node_id) [
  | none ↦ none
  | some n ↦
      if n.enabled == 1
      then owner_on rt secret n (owned_rows dir.users now dir.devices) requested uuid now
      else none
]

abbrev pub is_token_char : ℕ → Bool
is_token_char c = is_alnum c || (c == b':' || (c == b'.' || (c == b'_' || c == b'-')))

unfoldable pub token_pattern : ℕ → Text → Bool
token_pattern max s = truthy s && (leb (length s) max && all is_token_char s)

-- `validToken`, with the string that it narrows to.
unfoldable pub valid_token : ℕ → Value → Option Text
valid_token max (str s) = if token_pattern max s then some s else none
valid_token max _ = none

-- `userId !== undefined && !validToken(userId)`.
unfoldable pub valid_user_id : Value → Option (Option Text)
valid_user_id undefined = some none
valid_user_id (str s) = if token_pattern 80 s then some (some s) else none
valid_user_id _ = none

-- The errors that the module throws.
pub data UsageError : Type 0 where
  invalid_admission invalid_timestamp credential_unauthorized : UsageError
  invalid_payload invalid_event usage_unauthorized : UsageError

-- `AdmissionInput`, as the body of a request gives it.
pub record AdmissionInput : Type 0 where
  pub node_id : Text
  pub user_id : Value
  pub uuid : Value
  pub lease_id : Value
  pub ip_hash : Value

-- `if (!userId) throw`.
unfoldable pub known_owner : Option Text → UsageError → Result UsageError Text
known_owner none e = err e
known_owner (some id) e = if truthy id then ok id else err e

-- What `admitConnection` answers.
pub record AdmissionAnswer : Type 0 where
  pub reason : Verdict
  pub active_ips : ℕ
  pub recent_ips : ℕ
  pub device_limit : ℕ
  pub ip_limit_24h : ℕ
  pub traffic_limit_bytes : ℕ
  pub used_bytes : ℕ

-- The last SELECT of the batch, whose row is missing for a user who does not exist.
unfoldable pub answer : AdmissionDb → Text → ℕ → Verdict → AdmissionAnswer
answer db id now reason =
    let found = is_some (first_where (user_is id) db.users) in
    let limits = first_where (limits_of id) db.limits in
    record {
      reason = reason;
      active_ips = if found then count_where (live id now) db.leases else 0;
      recent_ips = if found then count_where (recent id now) db.history else 0;
      device_limit = if found then device_limit_of limits else 0;
      ip_limit_24h = if found then ip_limit_of limits else 0;
      traffic_limit_bytes = if found then traffic_limit_of limits else 0;
      used_bytes = if found then sum_usage id db.usage else 0;
    }

unfoldable pub admit_owned : AdmissionDb → Admission → ℕ → AdmissionDb × AdmissionAnswer
unfolding answer
admit_owned db a now = let (db', reason) = admit db a now in (db', answer db' a.user_id now reason)

-- `admitConnection`: `users` of the database is the table that the directory reads.
unfoldable pub admit_connection :
    Runtime
    → Text
    → List Node
    → List Device
    → AdmissionDb
    → AdmissionInput
    → ℕ
    → ℕ
    → Result UsageError (AdmissionDb × AdmissionAnswer)
unfolding resolve_owner known_owner valid_token valid_user_id admit_owned
admit_connection rt secret nodes devices db i signed_at now = do
  guard (token_pattern 80 i.node_id) invalid_admission
  requested ← or_throw (valid_user_id i.user_id) invalid_admission
  uuid ← or_throw (valid_token 64 i.uuid) invalid_admission
  lease_id ← or_throw (valid_token 128 i.lease_id) invalid_admission
  ip_hash ← or_throw (valid_token 128 i.ip_hash) invalid_admission
  guard (leb signed_at max_safe_integer) invalid_timestamp
  id ←
      known_owner
        (resolve_owner rt secret (record { nodes = nodes; users = db.users; devices = devices })
          i.node_id requested (lower uuid) now)
        credential_unauthorized
  ok (
      admit_owned db
        (record {
          user_id = id;
          node_id = i.node_id;
          uuid = uuid;
          lease_id = lease_id;
          ip_hash = ip_hash;
        })
        now)
