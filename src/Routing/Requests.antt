-- ===== src/Routing/Requests.antt =====
-- The requests of packages/control-plane/src/index.ts that change the unlocked hosts.
use opus8_cf.Base.{
  ℕ, Bool, false, not, ◌&&◌, List, [], ◌∷◌, Option, Text, Value, Result, ok, err, guard, ◌>>◌,
}
use opus8_cf.Nodes.{Node}
use opus8_cf.Maintenance.{RuntimeRow}
use opus8_cf.PolicyCache.{Target, InvalidationSummary, publish_edge_policy_change}
use opus8_cf.Compliance.{ComplianceEnv, proxy_provisioning_allowed, domain_scope_increases}
use opus8_cf.Routing.{
  is_empty, InvalidHost, KvEntry, StoredCodec, UnlockHostsConfig, validate_unlock_hosts,
  default_hosts, get_unlock_hosts, put_unlock_hosts, reset_unlock_hosts,
}

-- What a request reads: the variables of the worker, the network and the table of nodes.
pub record HostsEnv : Type 0 where
  pub compliance : ComplianceEnv
  pub default_unlock_hosts : Option Text
  pub codec : StoredCodec
  pub reached : ℕ → Target → Bool
  pub nodes : List Node

-- What it changes: the entry of the store, and the rows of `runtime_state`.
pub record HostsState : Type 0 where
  pub kv : KvEntry
  pub rows : List RuntimeRow

pub data HostsError : Type 0 where
  unauthorized expansion_locked : HostsError
  invalid_domains : List InvalidHost → HostsError

-- PUT with the entry `hosts` of its body, or DELETE.
pub data HostsRequest : Type 0 where
  put_hosts : Value → HostsRequest
  reset_hosts : HostsRequest

abbrev pub Answer : Type 0
Answer = HostsState × UnlockHostsConfig × InvalidationSummary

-- The end that both requests share: the change is published to the nodes.
unfoldable pub publish_hosts : HostsEnv → List RuntimeRow → ℕ → KvEntry × UnlockHostsConfig → Answer
publish_hosts env rows now (kv, routing) =
    let published = publish_edge_policy_change env.reached env.nodes rows now in
    (record { kv = kv; rows = published.0 }, routing, published.2)

abbrev pub current_hosts : HostsEnv → HostsState → List Text
current_hosts env s = (get_unlock_hosts env.codec env.default_unlock_hosts s.kv).hosts

unfoldable pub handle_put : HostsEnv → HostsState → Bool → Value → ℕ → Result HostsError Answer
unfolding publish_hosts
handle_put env s admin hosts now = do
  guard admin unauthorized
  guard (is_empty (validate_unlock_hosts hosts).invalid_hosts)
      (invalid_domains (validate_unlock_hosts hosts).invalid_hosts)
  guard
      (not (
        not (proxy_provisioning_allowed env.compliance)
        && domain_scope_increases (current_hosts env s) (validate_unlock_hosts hosts).hosts false))
      expansion_locked
  ok (
      publish_hosts env s.rows now
        (put_unlock_hosts env.codec (validate_unlock_hosts hosts).hosts now))

unfoldable pub handle_reset : HostsEnv → HostsState → Bool → ℕ → Result HostsError Answer
unfolding publish_hosts
handle_reset env s admin now = do
  guard admin unauthorized
  guard
      (not (
        not (proxy_provisioning_allowed env.compliance)
        && domain_scope_increases (current_hosts env s) (default_hosts env.default_unlock_hosts)
            false))
      expansion_locked
  ok (publish_hosts env s.rows now (reset_unlock_hosts env.codec env.default_unlock_hosts))

unfoldable pub handle_hosts :
    HostsEnv → HostsState → Bool → HostsRequest → ℕ → Result HostsError Answer
unfolding handle_put handle_reset
handle_hosts env s admin (put_hosts hosts) now = handle_put env s admin hosts now
handle_hosts env s admin reset_hosts now = handle_reset env s admin now

abbrev pub state_after : HostsState → Result HostsError Answer → HostsState
state_after s (ok answer) = answer.0
state_after s (err e) = s

-- A sequence of requests, each with whether it comes from an administrator, and its time.
unfoldable pub run_requests : HostsEnv → HostsState → List (Bool × HostsRequest × ℕ) → HostsState
unfolding handle_hosts
run_requests env s [] = s
run_requests env s ((admin, request, now) ∷ rest) =
    run_requests env (state_after s (handle_hosts env s admin request now)) rest
