-- ===== src/Policy.antt =====
-- `activeUserPolicy` of packages/control-plane/src/db.ts: the credentials that a node may serve.
pub mod Agreement
use opus8_cf.Base.{
  ℕ, Bool, true, false, List, [], ◌∷◌, ◌++◌, Option, none, some, ltb, ◌==◌, if◌then◌else◌, keep,
  map, Text, codes, first_where,
}
use opus8_cf.Enrollment.Fields.{Runtime}
use opus8_cf.Nodes.{Node, get_node}
use opus8_cf.Users.Tables.{
  UserLimits, UsageTotal, Owned, limits_of, device_limit_of, ip_limit_of, traffic_limit_of,
  sum_usage,
}
use opus8_cf.Admission.Owner.{Directory, owned_rows, assigned, uuids_of}

-- `UserAccessPolicy`.
pub record AccessPolicy : Type 0 where
  pub user_id : Text
  pub uuid : Text
  pub ip_hash_key : Text
  pub device_limit : ℕ
  pub ip_limit_24h : ℕ
  pub traffic_limit_bytes : ℕ
  pub used_bytes : ℕ
  pub metering_enabled : Bool

pub record Policy : Type 0 where
  pub uuids : List Text
  pub unlock_uuids : List Text
  pub access_policies : List AccessPolicy

-- A row with one of its credentials.
pub record RowCredential : Type 0 where
  pub row : Owned
  pub uuid : Text

unfoldable pub with_uuids : Owned → List Text → List RowCredential
with_uuids o [] = []
with_uuids o (x ∷ xs) = record { row = o; uuid = x } ∷ with_uuids o xs

-- The `flatMap` over the rows.
unfoldable pub credentials_of : Runtime → Text → ℕ → List Owned → List RowCredential
unfolding with_uuids
credentials_of rt secret now [] = []
credentials_of rt secret now (o ∷ os) =
    with_uuids o (uuids_of rt secret now o) ++ credentials_of rt secret now os

unfoldable pub ip_hash_key : Runtime → Text → Text → Text
ip_hash_key rt secret user_id = rt.hmac_sign secret (codes "opus8-user-ip-key-v1\n" ++ user_id)

abbrev pub access_policy :
    Runtime → Text → List UserLimits → List UsageTotal → RowCredential → AccessPolicy
access_policy rt secret limits usage c =
    let found = first_where (limits_of c.row.user.id) limits in
    record {
      user_id = c.row.user.id;
      uuid = c.uuid;
      ip_hash_key = ip_hash_key rt secret c.row.user.id;
      device_limit = device_limit_of found;
      ip_limit_24h = ip_limit_of found;
      traffic_limit_bytes = traffic_limit_of found;
      used_bytes = sum_usage c.row.user.id usage;
      metering_enabled = ltb 0 (traffic_limit_of found);
    }

unfoldable pub node_credentials : Runtime → Text → Directory → Node → ℕ → List RowCredential
unfolding credentials_of owned_rows
node_credentials rt secret dir n now =
    credentials_of rt secret now (keep (assigned rt n) (owned_rows dir.users now dir.devices))

abbrev pub unlocked : RowCredential → Bool
unlocked c = c.row.user.unlock == 1

-- `activeUserPolicy`.
unfoldable pub active_user_policy :
    Runtime → Text → Directory → List UserLimits → List UsageTotal → Text → ℕ → Policy
unfolding node_credentials
active_user_policy rt secret dir limits usage node_id now = elim (get_node dir.nodes node_id) [
  | none ↦ record { uuids = []; unlock_uuids = []; access_policies = [] }
  | some n ↦
      if n.enabled == 1
      then record {
        uuids = map (λ c. c.uuid) (node_credentials rt secret dir n now);
        unlock_uuids = map (λ c. c.uuid) (keep unlocked (node_credentials rt secret dir n now));
        access_policies =
            map (access_policy rt secret limits usage) (node_credentials rt secret dir n now);
      }
      else record { uuids = []; unlock_uuids = []; access_policies = [] }
]
