-- ===== src/Enrollment/Tables.antt =====
-- The tables `node_credentials` and `node_enrollments`, and the views that
-- packages/control-plane/src/node-enrollment.ts gives of a row.
use opus8_cf.Base.{
  ℕ, Bool, true, false, ◌&&◌, List, [], ◌∷◌, ◌++◌, Option, none, some, leb, if◌then◌else◌, Text,
  codes, text_eq, truthy,
}
use opus8_cf.Nodes.{Node}
use opus8_cf.Enrollment.Fields.{Runtime, parse_capabilities}

pub data AuthMode : Type 0 where
  legacy isolated revoked : AuthMode

pub data Kind : Type 0 where
  provision migrate rotate : Kind

pub data Status : Type 0 where
  pending issued activated revoked : Status

pub record Credential : Type 0 where
  pub node_id : Text
  pub auth_mode : AuthMode
  pub current_salt : Option Text
  pub previous_salt : Option Text
  pub legacy_fallback : ℕ
  pub activated_at : Option ℕ
  pub updated_at : ℕ

pub record Enrollment : Type 0 where
  pub id : Text
  pub node_id : Text
  pub kind : Kind
  pub status : Status
  pub account_alias : Text
  pub account_id : Text
  pub hostname : Text
  pub region : Option Text
  pub capabilities : Text
  pub preferred_ip : Option Text
  pub transport_path : Text
  pub token_hash : Text
  pub secret_salt : Text
  pub expires_at : ℕ
  pub issued_at : Option ℕ
  pub activated_at : Option ℕ
  pub created_at : ℕ
  pub updated_at : ℕ

pub record NodeDb : Type 0 where
  pub nodes : List Node
  pub credentials : List Credential
  pub enrollments : List Enrollment

-- The status that clients are shown.
pub data PublicStatus : Type 0 where
  stored : Status → PublicStatus
  expired : PublicStatus

pub record PublicEnrollment : Type 0 where
  pub id : Text
  pub node_id : Text
  pub kind : Kind
  pub status : PublicStatus
  pub account_alias : Text
  pub account_id : Text
  pub hostname : Text
  pub region : Option Text
  pub capabilities : List Text
  pub preferred_ip : Option Text
  pub transport_path : Text
  pub expires_at : ℕ
  pub issued_at : Option ℕ
  pub activated_at : Option ℕ
  pub created_at : ℕ

-- `status IN ('pending','issued')`.
abbrev pub is_open : Status → Bool
is_open pending = true
is_open issued = true
is_open activated = false
is_open Status.revoked = false

abbrev pub is_pending : Status → Bool
is_pending pending = true
is_pending _ = false

abbrev pub is_issued : Status → Bool
is_issued issued = true
is_issued _ = false

abbrev pub is_isolated : AuthMode → Bool
is_isolated isolated = true
is_isolated _ = false

abbrev pub is_legacy : AuthMode → Bool
is_legacy legacy = true
is_legacy _ = false

abbrev pub is_revoked : AuthMode → Bool
is_revoked AuthMode.revoked = true
is_revoked _ = false

unfoldable pub enrollment_status : Enrollment → ℕ → PublicStatus
enrollment_status row now =
    if is_open row.status && leb row.expires_at now then expired else stored row.status

unfoldable pub public_enrollment : Runtime → Enrollment → ℕ → PublicEnrollment
unfolding enrollment_status
public_enrollment rt row now = record {
  id = row.id;
  node_id = row.node_id;
  kind = row.kind;
  status = enrollment_status row now;
  account_alias = row.account_alias;
  account_id = row.account_id;
  hostname = row.hostname;
  region = row.region;
  capabilities = parse_capabilities rt (some row.capabilities);
  preferred_ip = row.preferred_ip;
  transport_path = row.transport_path;
  expires_at = row.expires_at;
  issued_at = row.issued_at;
  activated_at = row.activated_at;
  created_at = row.created_at;
}

abbrev pub of_node : Text → Credential → Bool
of_node id c = text_eq c.node_id id

abbrev pub for_node : Text → Enrollment → Bool
for_node id e = text_eq e.node_id id

-- `NODE_HMAC_SECRET` and `NODE_HMAC_SECRET_PREVIOUS`.
pub record Roots : Type 0 where
  pub current : Text
  pub previous : Option Text

pub data Slot : Type 0 where
  current previous : Slot

abbrev second_root : Text → Text → List (Text × Slot)
second_root current_secret p =
    if truthy p && (if text_eq p current_secret then false else true)
    then (p, previous) ∷ []
    else []

unfoldable pub root_candidates : Roots → List (Text × Slot)
root_candidates roots =
    (roots.current, current)
    ∷ elim roots.previous [ none ↦ [] | some p ↦ second_root roots.current p ]

unfoldable pub derive_node_secret : Runtime → Text → Text → Text → Text
derive_node_secret rt root node_id salt =
    rt.hmac_sign root (codes "opus8-node-key-v1" ++ (10 ∷ (node_id ++ (10 ∷ salt))))

unfoldable pub enrollment_token_hash : Runtime → Text → Text → Text
enrollment_token_hash rt root token =
    rt.hmac_sign root (codes "opus8-enrollment-token-v1" ++ (10 ∷ token))
