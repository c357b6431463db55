-- ===== src/Compliance.antt =====
-- packages/control-plane/src/compliance.ts: the gate in front of changes that widen what the nodes
-- serve.
pub mod Scope
use opus8_cf.Base.{
  ℕ, Bool, true, false, not, ◌&&◌, ◌||◌, List, [], ◌∷◌, Option, none, some, ltb, ◌==◌,
  if◌then◌else◌, or_else, any, keep, map, Text, codes, text_eq, text_is, includes, trim, truthy,
  split, ends_with,
}

-- `ComplianceEnv`.
pub record ComplianceEnv : Type 0 where
  pub proxy_allowed : Option Text
  pub enforcement_mode : Option Text
  pub policy_id : Option Text
  pub maintenance_node_ids : Option Text

pub data Enforcement : Type 0 where
  fail_closed observe_only : Enforcement

pub data ComplianceReason : Type 0 where
  operator_override documented_authorization_verified : ComplianceReason
  documented_authorization_required : ComplianceReason

-- `ComplianceStatus`.
pub record ComplianceStatus : Type 0 where
  pub proxy_provisioning_allowed : Bool
  pub enforcement : Enforcement
  pub policy_id : Text
  pub reason : ComplianceReason

abbrev policy_or_default : Option Text → Text
policy_or_default none = codes "cloudflare-data-plane-v1"
policy_or_default (some []) = codes "cloudflare-data-plane-v1"
policy_or_default (some (c ∷ s)) = c ∷ s

unfoldable pub compliance_status : ComplianceEnv → ComplianceStatus
compliance_status env =
    let allowed = text_is env.proxy_allowed (codes "1") in
    let observe = text_is env.enforcement_mode (codes "observe-only") in
    record {
      proxy_provisioning_allowed = allowed;
      enforcement = if observe then observe_only else fail_closed;
      policy_id = policy_or_default env.policy_id;
      reason =
          if observe
          then operator_override
          else if allowed
          then documented_authorization_verified
          else documented_authorization_required;
    }

unfoldable pub proxy_provisioning_allowed : ComplianceEnv → Bool
unfolding compliance_status
proxy_provisioning_allowed env = (compliance_status env).proxy_provisioning_allowed

unfoldable pub maintenance_node_allowed : ComplianceEnv → Text → Bool
maintenance_node_allowed env node_id =
    includes (keep truthy (map trim (split b',' (or_else env.maintenance_node_ids [])))) node_id

-- `trafficLimitIncreases`: a limit of 0 is none at all.
unfoldable pub traffic_limit_increases : ℕ → Option ℕ → Bool
traffic_limit_increases current none = false
traffic_limit_increases current (some requested) =
    not (current == 0) && (requested == 0 || ltb current requested)

abbrev pub covers : Text → Text → Bool
covers host parent = text_eq host parent || ends_with host (b'.' ∷ parent)

-- `hostCovered`.
unfoldable pub host_covered : Text → List Text → Bool
host_covered host allowed = any (covers host) allowed

abbrev is_empty : List Text → Bool
is_empty [] = true
is_empty (x ∷ xs) = false

-- `domainScopeIncreases`.
unfoldable pub domain_scope_increases : List Text → List Text → Bool → Bool
unfolding host_covered
domain_scope_increases current requested empty_means_all =
    let widened = any (λ host. not (host_covered host current)) requested in
    if empty_means_all && is_empty current
    then false
    else if empty_means_all && is_empty requested
    then true
    else widened
