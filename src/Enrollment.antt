-- ===== src/Enrollment.antt =====
-- packages/control-plane/src/node-enrollment.ts: one-time enrollment of nodes and their credentials.
pub mod Fields
pub mod Tables
pub mod Create
pub mod Candidates
pub mod Activate
pub mod SingleUse
pub mod Revocation
pub mod Distinct
pub mod Rotation
pub mod Reenroll
pub mod Prepared
pub mod Created
pub mod History
pub mod Lifecycle
pub mod Overlap
pub mod RoundTrip
