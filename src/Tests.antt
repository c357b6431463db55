-- ===== src/Tests.antt =====
-- Concrete runs of the modelled code, and the theorems applied to them.
mod Sample
mod Members
mod Nodes
mod Paths
mod Enroll
mod Auth
mod Probes
mod Incidents
mod Leases
mod Meter
mod Owners
mod Keys
mod Requests
mod Devices
mod Claims
mod Unlock
