-- ===== src/Enrollment/Create.antt =====
-- `createNodeEnrollment`, `revokeNodeEnrollment` and `exchangeNodeEnrollment` of
-- packages/control-plane/src/node-enrollment.ts.
use opus8_cf.Base.{
  ℕ, ◌+◌, ◌*◌, Bool, true, not, ◌&&◌, ◌||◌, List, [], ◌∷◌, ◌++◌, Option, none, some, leb, ltb, ◌==◌,
  if◌then◌else◌, length, any, all, Text, codes, text_eq, text_is, Number, whole, Value, undefined,
  null, str, ok, err, ◌>>=◌, ◌>>◌, guard, or_throw, first_where, update_where, count_where, is_some,
}
use opus8_cf.Nodes.{Node, get_node}
use opus8_cf.Transport.{normalize_text}
use opus8_cf.Enrollment.Fields.{
  Runtime, Outcome, invalid_node_id, invalid_account, provisioning_denied, identity_changed,
  already_pending, invalid_path, invalid_ttl, invalid_credential, invalid_token, token_used,
  constraint_failed, valid_node_id, normalize_account_alias, normalize_account_id,
  normalize_hostname, normalize_region, normalize_capabilities, parse_capabilities,
  normalize_preferred_ip, to_number, to_string, is_hex,
}
use opus8_cf.Enrollment.Tables.{
  Kind, provision, migrate, rotate, Status, pending, issued, Credential, Enrollment, NodeDb,
  PublicEnrollment, is_open, is_pending, is_isolated, public_enrollment, of_node, for_node, Roots,
  Slot, root_candidates, derive_node_secret, enrollment_token_hash,
}

abbrev pub enrollment_ttl_seconds : ℕ
enrollment_ttl_seconds = 900

abbrev pub max_enrollment_ttl_ms : ℕ
max_enrollment_ttl_ms = 3600000

-- `Number.MAX_SAFE_INTEGER`.
abbrev pub max_safe_integer : ℕ
max_safe_integer = 9007199254740991

pub record CreateInput : Type 0 where
  pub node_id : Value
  pub account_alias : Value
  pub account_id : Value
  pub hostname : Value
  pub region : Value
  pub capabilities : Value
  pub preferred_ip : Value
  pub transport_path : Value
  pub ttl_seconds : Value

-- What the random generator gives to one call: `randomHex(12)`, `randomHex(32)`, `randomUuid()`
-- and `randomHex(24)`.
pub record Draws : Type 0 where
  pub path_hex : Text
  pub token : Text
  pub id : Text
  pub salt : Text

-- `a ?? b`.
abbrev pub or_value : Value → Value → Value
or_value undefined b = b
or_value null b = b
or_value a b = a

-- A nullable field of a row that may be missing, `existing?.region`.
abbrev pub field_value : Option Text → Value
field_value none = null
field_value (some s) = str s

unfoldable pub requested_path : Runtime → Value → Option Node → Text → Text
requested_path rt undefined none hex = codes "/ws/" ++ hex
requested_path rt undefined (some n) hex = elim n.transport_path [
  | [] ↦ codes "/ws/" ++ hex
  | c ∷ s ↦ c ∷ s
]
requested_path rt v existing hex = to_string rt v

unfoldable pub ttl_in_range : Number → Option ℕ
ttl_in_range (whole n) =
    if leb n max_safe_integer && (leb 60 n && leb (n * 1000) max_enrollment_ttl_ms)
    then some n
    else none
ttl_in_range _ = none

unfoldable pub ttl_of : Runtime → Value → Option ℕ
unfolding ttl_in_range
ttl_of rt undefined = some enrollment_ttl_seconds
ttl_of rt v = ttl_in_range (to_number rt v)

unfoldable pub kind_of : Option Node → Option Credential → Kind
kind_of none c = provision
kind_of (some n) none = migrate
kind_of (some n) (some c) = if is_isolated c.auth_mode then rotate else migrate

-- The node may keep its account and its hostname only.
unfoldable pub same_identity : Option Node → Text → Text → Bool
same_identity none account_alias hostname = true
same_identity (some n) account_alias hostname =
    text_eq n.account_alias account_alias && text_is (normalize_hostname (str n.hostname)) hostname

-- An open enrollment of the node that has not expired.
abbrev pub is_live : Text → ℕ → Enrollment → Bool
is_live node_id now e = for_node node_id e && (is_open e.status && ltb now e.expires_at)

abbrev pub node_region : Option Node → Value
node_region none = undefined
node_region (some n) = field_value n.region

abbrev pub node_preferred_ip : Option Node → Value
node_preferred_ip none = undefined
node_preferred_ip (some n) = field_value n.preferred_ip

abbrev pub node_capabilities : Option Node → Option Text
node_capabilities none = none
node_capabilities (some n) = n.capabilities

-- The unique keys of `node_enrollments`.
abbrev pub clashes : Enrollment → Enrollment → Bool
clashes new e = text_eq e.id new.id || text_eq e.token_hash new.token_hash

-- `INSERT INTO node_enrollments`. The order of the rows is no part of a table; a new row stands
-- first.
unfoldable pub insert_enrollment : NodeDb → Enrollment → Outcome NodeDb
insert_enrollment db row =
    if any (clashes row) db.enrollments
    then err constraint_failed
    else ok (record db { enrollments = row ∷ db.enrollments })

-- The row of a new enrollment.
unfoldable pub prepare_enrollment :
    Runtime → Text → NodeDb → CreateInput → Bool → ℕ → Draws → Outcome Enrollment
prepare_enrollment rt root db input allow_provision now draws = do
  node_id ← or_throw (valid_node_id input.node_id) invalid_node_id
  account_alias ← or_throw (normalize_account_alias input.account_alias) invalid_account
  account_id ← or_throw (normalize_account_id input.account_id) invalid_account
  hostname ← or_throw (normalize_hostname input.hostname) invalid_account
  let existing = get_node db.nodes node_id
  let credential = first_where (of_node node_id) db.credentials
  guard (is_some existing || allow_provision) provisioning_denied
  guard (same_identity existing account_alias hostname) identity_changed
  guard (not (is_some (first_where (is_live node_id now) db.enrollments))) already_pending
  capabilities ←
      normalize_capabilities input.capabilities (parse_capabilities rt (node_capabilities existing))
  transport_path ←
      or_throw (normalize_text (requested_path rt input.transport_path existing draws.path_hex))
        invalid_path
  ttl ← or_throw (ttl_of rt input.ttl_seconds) invalid_ttl
  region ← normalize_region (or_value input.region (node_region existing))
  preferred_ip ← normalize_preferred_ip (or_value input.preferred_ip (node_preferred_ip existing))
  ok (record {
    id = draws.id;
    node_id = node_id;
    kind = kind_of existing credential;
    status = pending;
    account_alias = account_alias;
    account_id = account_id;
    hostname = hostname;
    region = region;
    capabilities = rt.json_strings capabilities;
    preferred_ip = preferred_ip;
    transport_path = transport_path;
    token_hash = enrollment_token_hash rt root draws.token;
    secret_salt = draws.salt;
    expires_at = now + ttl * 1000;
    issued_at = none;
    activated_at = none;
    created_at = now;
    updated_at = now;
  })

-- `createNodeEnrollment`: the database after it, the enrollment that is shown and the token.
unfoldable pub create_node_enrollment :
    Runtime
    → Roots
    → NodeDb
    → CreateInput
    → Bool
    → ℕ
    → Draws
    → Outcome (NodeDb × PublicEnrollment × Text)
create_node_enrollment rt roots db input allow_provision now draws = do
  row ← prepare_enrollment rt roots.current db input allow_provision now draws
  db' ← insert_enrollment db row
  ok (db', public_enrollment rt row now, draws.token)

abbrev pub open_with_id : Text → Enrollment → Bool
open_with_id id e = text_eq e.id id && is_open e.status

unfoldable pub close_enrollment : ℕ → Enrollment → Enrollment
close_enrollment now e = record e { status = Status.revoked; updated_at = now }

-- `revokeNodeEnrollment`.
unfoldable pub revoke_node_enrollment : NodeDb → Text → ℕ → NodeDb × Bool
unfolding close_enrollment
revoke_node_enrollment db id now = (
  record db { enrollments = update_where (open_with_id id) (close_enrollment now) db.enrollments },
  ltb 0 (count_where (open_with_id id) db.enrollments),
)

pub record ExchangeInput : Type 0 where
  pub token : Value
  pub node_id : Value
  pub account_id : Value

-- `/^[a-fA-F0-9]{64}$/` on a value that has to be a string.
unfoldable pub valid_token : Value → Option Text
valid_token (str s) = if (length s == 64) && all is_hex s then some s else none
valid_token _ = none

-- `WHERE token_hash=?1 OR token_hash=?2`, with the hashes under the root secrets.
abbrev pub has_hash : Runtime → List (Text × Slot) → Text → Enrollment → Bool
has_hash rt roots token e =
    any (λ r. text_eq e.token_hash (enrollment_token_hash rt r.0 token)) roots

abbrev pub claimable : Text → ℕ → Enrollment → Bool
claimable id now e = text_eq e.id id && (is_pending e.status && ltb now e.expires_at)

unfoldable pub issue_enrollment : ℕ → Enrollment → Enrollment
issue_enrollment now e = record e { status = issued; issued_at = some now; updated_at = now }

-- `exchangeNodeEnrollment`: the database after it, the enrollment and the node's secret.
unfoldable pub exchange_node_enrollment :
    Runtime → Roots → NodeDb → ExchangeInput → ℕ → Outcome (NodeDb × PublicEnrollment × Text)
exchange_node_enrollment rt roots db input now = do
  token ← or_throw (valid_token input.token) invalid_credential
  node_id ← or_throw (valid_node_id input.node_id) invalid_credential
  account_id ← or_throw (normalize_account_id input.account_id) invalid_credential
  row ←
      or_throw (first_where (has_hash rt (root_candidates roots) token) db.enrollments)
        invalid_token
  guard
      (is_pending row.status
        && (ltb now row.expires_at
            && (text_eq row.node_id node_id && text_eq row.account_id account_id)))
      invalid_token
  guard (count_where (claimable row.id now) db.enrollments == 1) token_used
  ok (
    record db {
      enrollments = update_where (claimable row.id now) (issue_enrollment now) db.enrollments;
    },
    public_enrollment rt (issue_enrollment now row) now,
    derive_node_secret rt roots.current row.node_id row.secret_salt,
  )
