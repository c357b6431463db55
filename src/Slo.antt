-- ===== src/Slo.antt =====
-- packages/control-plane/src/operations-slo.ts: the service levels of the control plane.
pub mod Levels
use opus8_cf.Base.{
  ℕ, ◌+◌, ◌*◌, Bool, true, false, ◌&&◌, List, [], ◌∷◌, Option, none, some, leb, ltb, ◌==◌,
  if◌then◌else◌, or_else, length, keep, Text, codes, text_eq, first_where,
}
use opus8_cf.Nodes.{Node, Health, healthy, has_id}
use opus8_cf.Enrollment.Tables.{AuthMode, isolated}
use opus8_cf.Maintenance.{RuntimeRow, success_key, hour_ms}

abbrev pub heartbeat_max_age_ms : ℕ
heartbeat_max_age_ms = 20 * 60000

abbrev pub maintenance_max_age_ms : ℕ
maintenance_max_age_ms = 12 * hour_ms

-- A row of `listNodes`: the node with what the credential's row says.
pub record ListedNode : Type 0 where
  pub node : Node
  pub auth_mode : Option AuthMode
  pub fallback_pending : Bool

abbrev is_healthy : Health → Bool
is_healthy healthy = true
is_healthy _ = false

abbrev is_isolated_mode : Option AuthMode → Bool
is_isolated_mode (some isolated) = true
is_isolated_mode _ = false

abbrev pub is_enabled : ListedNode → Bool
is_enabled n = n.node.enabled == 1

abbrev pub seen_healthy : ℕ → ListedNode → Bool
seen_healthy now n =
    is_healthy n.node.health
    && (leb now (or_else n.node.last_seen 0 + heartbeat_max_age_ms)
        && leb (or_else n.node.last_seen 0) (now + 300000))

abbrev pub credential_isolated : ListedNode → Bool
credential_isolated n = is_isolated_mode n.auth_mode && (if n.fallback_pending then false else true)

pub record SloChecks : Type 0 where
  pub nodes_registered : Bool
  pub nodes_healthy : Bool
  pub credentials_isolated : Bool
  pub retention_current : Bool

pub record SloReport : Type 0 where
  pub ok : Bool
  pub checks : SloChecks
  pub enabled : ℕ
  pub healthy : ℕ
  pub isolated : ℕ

abbrev maintenance_at : Option RuntimeRow → ℕ
maintenance_at none = 0
maintenance_at (some r) = r.updated_at

unfoldable pub slo_checks : List ListedNode → ℕ → ℕ → SloChecks
slo_checks enabled at now = record {
  nodes_registered = ltb 0 (length enabled);
  nodes_healthy =
      ltb 0 (length enabled) && length (keep (seen_healthy now) enabled) == length enabled;
  credentials_isolated =
      ltb 0 (length enabled) && length (keep credential_isolated enabled) == length enabled;
  retention_current = ltb 0 at && (leb at (now + 300000) && leb now (at + maintenance_max_age_ms));
}

abbrev all_checks : SloChecks → Bool
all_checks c =
    c.nodes_registered && (c.nodes_healthy && (c.credentials_isolated && c.retention_current))

-- `operationsSlo`.
unfoldable pub operations_slo : List ListedNode → List RuntimeRow → ℕ → SloReport
unfolding slo_checks
operations_slo nodes rows now =
    let enabled = keep is_enabled nodes in
    let at = maintenance_at (first_where (λ r. text_eq r.key success_key) rows) in
    record {
      ok = all_checks (slo_checks enabled at now);
      checks = slo_checks enabled at now;
      enabled = length enabled;
      healthy = length (keep (seen_healthy now) enabled);
      isolated = length (keep credential_isolated enabled);
    }
