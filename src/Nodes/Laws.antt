-- ===== src/Nodes/Laws.antt =====
-- Late and repeated reports to `upsertNode` and `touchNode` (packages/control-plane/src/db.ts).
use opus8_cf.Base.{
  ℕ, ◌≤◌, ◌<◌, ◌≡◌, refl, true, false, List, Option, none, some, arith, if◌then◌else◌, Text,
  text_eq_iff, text_eq_refl, first-update, first-upsert, first-upsert_other, upsert_same, merged,
  ◌≢◌, first_where-holds,
}
use opus8_cf.Nodes.{
  Node, NodeReport, Health, has_id, seen, get_node, new_node, merge_node, upsert_node, touched,
  touch_node,
}

merge_stale : (n : NodeReport) (r : Node) → n.last_seen < seen r → merge_node n r ≡ r
unfolding merge_node
merge_stale n r h = ground arith

new_node-id : (n : NodeReport) → has_id n.id (new_node n) ≡ true
unfolding new_node
new_node-id n = text_eq_refl n.id

merge_node-id : (n : NodeReport) (r : Node) → has_id n.id (merge_node n r) ≡ has_id n.id r
unfolding merge_node
merge_node-id n r = refl

merge_node-enabled : (n : NodeReport) (r : Node) → (merge_node n r).enabled ≡ r.enabled
unfolding merge_node
merge_node-enabled n r = refl

merge_node-created : (n : NodeReport) (r : Node) → (merge_node n r).created_at ≡ r.created_at
unfolding merge_node
merge_node-created n r = refl

other_id :
    (n : NodeReport) (r : Node) (id : Text) → id ≢ n.id → has_id n.id r ≡ true → has_id id r ≡ false
other_id n r id h e = ground (arith, text_eq_iff r.id n.id, text_eq_iff r.id id)

-- A registration that is older than the row's last contact leaves the whole table as it is.
pub upsert_node_stale :
    (nodes : List Node) (n : NodeReport) (r : Node)
    → get_node nodes n.id ≡ some r
    → n.last_seen < seen r
    → upsert_node nodes n ≡ nodes
unfolding upsert_node get_node
upsert_node_stale nodes n r e h =
    upsert_same (has_id n.id) (merge_node n) (new_node n) nodes r e (merge_stale n r h)

merge_idem : (n : NodeReport) (r : Node) → merge_node n (merge_node n r) ≡ merge_node n r
unfolding merge_node
merge_idem n r = ground arith

merge-new : (n : NodeReport) → merge_node n (new_node n) ≡ new_node n
unfolding merge_node new_node
merge-new n = ground arith

pub get_node-upsert :
    (nodes : List Node) (n : NodeReport)
    → get_node (upsert_node nodes n) n.id
      ≡ some (merged (new_node n) (merge_node n) (get_node nodes n.id))
unfolding upsert_node get_node
get_node-upsert nodes n =
    first-upsert (has_id n.id) (merge_node n) (new_node n) nodes (new_node-id n) (merge_node-id n)

pub get_node-upsert_other :
    (nodes : List Node) (n : NodeReport) (id : Text)
    → id ≢ n.id
    → get_node (upsert_node nodes n) id ≡ get_node nodes id
unfolding upsert_node get_node
get_node-upsert_other nodes n id h =
    first-upsert_other (has_id n.id) (has_id id) (merge_node n) (new_node n) nodes
      (other_id n (new_node n) id h (new_node-id n))
      (λ r e. (other_id n (merge_node n r) id h (rw (merge_node-id n r) e), other_id n r id h e))

-- Registering the same report twice is the same as registering it once.
pub upsert_node_idem :
    (nodes : List Node) (n : NodeReport) → upsert_node (upsert_node nodes n) n ≡ upsert_node nodes n
unfolding upsert_node get_node
upsert_node_idem nodes n =
    upsert_same (has_id n.id) (merge_node n) (new_node n) _ _ (get_node-upsert nodes n)
      (settled (get_node nodes n.id))
  where
    settled :
        (o : Option Node)
        → merge_node n (merged (new_node n) (merge_node n) o) ≡ merged (new_node n) (merge_node n) o
    settled none = merge-new n
    settled (some r) = merge_idem n r

-- A report changes neither whether a known node is enabled nor when it was created.
pub upsert_node-enabled :
    (nodes : List Node) (n : NodeReport) (r : Node)
    → get_node nodes n.id ≡ some r
    → (r' : Node) × (get_node (upsert_node nodes n) n.id ≡ some r')
      × (r'.enabled ≡ r.enabled)
      × (r'.created_at ≡ r.created_at)
upsert_node-enabled nodes n r e = (
  merge_node n r,
  rw (get_node-upsert nodes n, e) refl,
  merge_node-enabled n r,
  merge_node-created n r,
)

touched-id :
    (ip : Option Text) (ts : ℕ) (id : Text) (r : Node)
    → has_id id (if has_id id r then touched ip ts r else r) ≡ has_id id r
unfolding touched
touched-id ip ts id r = ground arith

touched_keeps :
    (ip : Option Text) (ts : ℕ) (r : Node)
    → ((touched ip ts r).health ≡ r.health)
      × ((touched ip ts r).enabled ≡ r.enabled)
      × (seen r ≤ seen (touched ip ts r))
      × (ts ≤ seen (touched ip ts r))
unfolding touched
touched_keeps ip ts r = ground arith

-- A heartbeat changes neither the health of a known node nor whether it is enabled, whatever
-- health it claims, and its last contact becomes no earlier than it was or than the heartbeat.
pub touch_node-get_node :
    (nodes : List Node) (id : Text) (claimed : Health) (ip : Option Text) (ts : ℕ) (r : Node)
    → get_node nodes id ≡ some r
    → (r' : Node) × (get_node (touch_node nodes id claimed ip ts) id ≡ some r')
      × (r'.health ≡ r.health)
      × (r'.enabled ≡ r.enabled)
      × (seen r ≤ seen r')
      × (ts ≤ seen r')
unfolding touch_node get_node
touch_node-get_node nodes id claimed ip ts r e =
    let (health, enabled, later, at_least) = touched_keeps ip ts r in
    (
      touched ip ts r,
      rw (first_where-holds (has_id id) nodes r e) at
          (first-update (has_id id) (has_id id) (touched ip ts) nodes r (touched-id ip ts id) e),
      health,
      enabled,
      later,
      at_least,
    )
