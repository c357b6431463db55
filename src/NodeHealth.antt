-- ===== src/NodeHealth.antt =====
-- packages/control-plane/src/node-health.ts: the probes of the nodes and what they do to a node's
-- health.
pub mod Report
pub mod State
pub mod Batch
pub mod Normal
pub mod Machine
pub mod Applied
pub mod Probed
pub mod Effect
