-- ===== src/PolicyCache.antt =====
-- packages/control-plane/src/policy-cache.ts: the version of the policy that the nodes cache.
pub mod Versions
use opus8_cf.Base.{
  ℕ, ◌+◌, Bool, true, false, not, ◌&&◌, ◌||◌, List, [], ◌∷◌, ◌++◌, Option, none, some, leb, ◌==◌,
  if◌then◌else◌, max, length, all, any, keep, map, Text, codes, text_eq, trim, lower, truthy,
  first_where, upsert, is_lower, is_digit,
}
use opus8_cf.Enrollment.Fields.{Runtime}
use opus8_cf.Nodes.{Node}
use opus8_cf.Maintenance.{RuntimeRow}
use opus8_cf.Signing.{node_signature_message_v2}

abbrev pub policy_version_key : Text
policy_version_key = codes "edge_policy_version"

abbrev pub invalidation_path : Text
invalidation_path = codes "/__opus8/policy/invalidate"

abbrev pub version_row : RuntimeRow → Bool
version_row r = text_eq r.key policy_version_key

-- `Number(value) || 1`, of a row that may be missing.
abbrev pub version_or_one : Option RuntimeRow → ℕ
version_or_one none = 1
version_or_one (some r) = if r.value == 0 then 1 else r.value

-- `getEdgePolicyVersion`.
unfoldable pub get_edge_policy_version : List RuntimeRow → ℕ
get_edge_policy_version rows = max 1 (version_or_one (first_where version_row rows))

-- `advanceEdgePolicyVersion`: the rows after the statement.
unfoldable pub advance_edge_policy_version : List RuntimeRow → ℕ → List RuntimeRow
advance_edge_policy_version rows now =
    upsert version_row (λ r. record r { value = max (r.value + 1) now; updated_at = now })
      (record { key = policy_version_key; value = now; updated_at = now }) rows

abbrev pub is_hostname_char : ℕ → Bool
is_hostname_char c = is_lower c || (is_digit c || (c == b'.' || c == b'-'))

-- `validNodeHostname`.
unfoldable pub valid_node_hostname : Text → Option Text
valid_node_hostname value =
    let hostname = lower (trim value) in
    if truthy hostname
      && (not (text_eq hostname (codes "localhost"))
          && (any (λ c. c == b'.') hostname && all is_hostname_char hostname))
    then some hostname
    else none

-- What a node answers to an invalidation: none where the request failed, ended with an error, or
-- had a body that is no JSON; otherwise whether `ok` is true, and the version.
pub record InvalidationReply : Type 0 where
  pub ok : Bool
  pub version : ℕ

-- A request that the control plane sends: its headers and its body.
pub record Invalidation : Type 0 where
  pub hostname : Text
  pub timestamp : Text
  pub node_id : Text
  pub sign_v2 : Text
  pub body : Text

unfoldable pub invalidation : Runtime → Text → Text → Text → Text → Text → Invalidation
invalidation rt node_id hostname timestamp body secret = record {
  hostname = hostname;
  timestamp = timestamp;
  node_id = node_id;
  sign_v2 =
      rt.hmac_sign secret
        (node_signature_message_v2 timestamp node_id (codes "POST") invalidation_path body);
  body = body;
}

abbrev pub acknowledges : ℕ → Option InvalidationReply → Bool
acknowledges version none = false
acknowledges version (some r) = r.ok && leb version r.version

-- `invalidateNode`: the secrets are tried in turn, each with the time, in decimal digits, at which
-- the loop comes to it. `fetch` is the network.
unfoldable pub invalidate_node :
    Runtime
    → (Invalidation → Option InvalidationReply)
    → Text
    → Text
    → Text
    → ℕ
    → List (Text × Text)
    → Bool
unfolding invalidation
invalidate_node rt fetch node_id hostname body version [] = false
invalidate_node rt fetch node_id hostname body version ((secret, timestamp) ∷ attempts) =
    let rest = invalidate_node rt fetch node_id hostname body version attempts in
    if acknowledges version (fetch (invalidation rt node_id hostname timestamp body secret))
    then true
    else rest

-- A node to which the change is pushed.
pub record Target : Type 0 where
  pub id : Text
  pub hostname : Text

unfoldable pub target_of : Node → Option Text → List Target
target_of n none = []
target_of n (some hostname) = record { id = n.id; hostname = hostname } ∷ []

unfoldable pub targets : List Node → List Target
unfolding target_of valid_node_hostname
targets [] = []
targets (n ∷ ns) =
    if n.enabled == 1
    then target_of n (valid_node_hostname n.hostname) ++ targets ns
    else targets ns

pub record InvalidationSummary : Type 0 where
  pub attempted : ℕ
  pub acknowledged : ℕ
  pub acknowledged_nodes : List Text
  pub failed_nodes : List Text

-- `invalidateEdgePolicyCaches`; `reached` says whether `invalidateNode` of a target ended well.
unfoldable pub invalidate_edge_policy_caches : (Target → Bool) → List Node → InvalidationSummary
unfolding targets
invalidate_edge_policy_caches reached nodes = record {
  attempted = length (targets nodes);
  acknowledged = length (keep reached (targets nodes));
  acknowledged_nodes = map (λ t. t.id) (keep reached (targets nodes));
  failed_nodes = map (λ t. t.id) (keep (λ t. not (reached t)) (targets nodes));
}

-- `publishEdgePolicyChange`: the nodes are told the version that the rows then hold.
unfoldable pub publish_edge_policy_change :
    (ℕ → Target → Bool)
    → List Node
    → List RuntimeRow
    → ℕ
    → List RuntimeRow × ℕ × InvalidationSummary
unfolding invalidate_edge_policy_caches advance_edge_policy_version get_edge_policy_version
publish_edge_policy_change reached nodes rows now =
    let left = advance_edge_policy_version rows now in
    let version = get_edge_policy_version left in
    (left, version, invalidate_edge_policy_caches (reached version) nodes)
