-- ===== src/Nodes.antt =====
-- The node registry: the `nodes` table of packages/control-plane/schema.sql, and the operations
-- of packages/control-plane/src/db.ts on it.
pub mod Laws
use opus8_cf.Base.{
  ℕ, ◌+◌, Bool, true, false, List, [], ◌∷◌, Option, none, some, leb, if◌then◌else◌, max, or_else,
  Text, codes, text_eq, first_where, update_where, upsert, is_some, ◌&&◌,
}

pub data Health : Type 0 where
  healthy degraded banned unknown : Health

-- A row of `nodes`.
pub record Node : Type 0 where
  pub id : Text
  pub account_alias : Text
  pub hostname : Text
  pub region : Option Text
  pub capabilities : Option Text
  pub preferred_ip : Option Text
  pub transport_path : Text
  pub health : Health
  pub enabled : ℕ
  pub last_seen : Option ℕ
  pub created_at : ℕ

-- The record that a caller of `upsertNode` hands over. Both callers give a time, and a null path
-- asks for the path to stay as it is. (The statement writes `enabled` as 1 for a new row.)
pub record NodeReport : Type 0 where
  pub id : Text
  pub account_alias : Text
  pub hostname : Text
  pub region : Option Text
  pub capabilities : Option Text
  pub preferred_ip : Option Text
  pub transport_path : Option Text
  pub health : Health
  pub last_seen : ℕ
  pub created_at : ℕ

abbrev pub has_id : Text → Node → Bool
has_id id n = text_eq n.id id

-- `COALESCE(last_seen,0)`.
abbrev pub seen : Node → ℕ
seen n = or_else n.last_seen 0

unfoldable pub get_node : List Node → Text → Option Node
get_node nodes id = first_where (has_id id) nodes

unfoldable pub new_node : NodeReport → Node
new_node n = record {
  id = n.id;
  account_alias = n.account_alias;
  hostname = n.hostname;
  region = n.region;
  capabilities = n.capabilities;
  preferred_ip = n.preferred_ip;
  transport_path = or_else n.transport_path (codes "/");
  health = n.health;
  enabled = 1;
  last_seen = some n.last_seen;
  created_at = n.created_at;
}

abbrev pub health_if_unknown : Health → Health → Health
health_if_unknown unknown h = h
health_if_unknown healthy h = healthy
health_if_unknown degraded h = degraded
health_if_unknown banned h = banned

-- The `ON CONFLICT(id) DO UPDATE` of `upsertNode`.
unfoldable pub merge_node : NodeReport → Node → Node
merge_node n r =
    let fresh = leb (seen r) n.last_seen in
    record r {
      account_alias = if fresh then n.account_alias else r.account_alias;
      hostname = if fresh then n.hostname else r.hostname;
      region = if fresh then n.region else r.region;
      capabilities = if fresh then n.capabilities else r.capabilities;
      preferred_ip = if fresh then n.preferred_ip else r.preferred_ip;
      transport_path =
          if is_some n.transport_path && fresh
          then or_else n.transport_path (codes "/")
          else r.transport_path;
      health = if fresh then health_if_unknown r.health n.health else r.health;
      last_seen = some (max (seen r) n.last_seen);
    }

unfoldable pub upsert_node : List Node → NodeReport → List Node
unfolding new_node merge_node
upsert_node nodes n = upsert (has_id n.id) (merge_node n) (new_node n) nodes

touched : Option Text → ℕ → Node → Node
touched preferred_ip ts r = record r {
  preferred_ip =
      if leb (seen r) ts
      then (if is_some preferred_ip then preferred_ip else r.preferred_ip)
      else r.preferred_ip;
  last_seen = some (max (seen r) ts);
}

-- `touchNode`: the health that a heartbeat claims is not used.
unfoldable pub touch_node : List Node → Text → Health → Option Text → ℕ → List Node
unfolding touched
touch_node nodes id _ preferred_ip ts = update_where (has_id id) (touched preferred_ip ts) nodes
