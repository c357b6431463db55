-- ===== src/Users.antt =====
-- The users of the control plane: their tables in packages/control-plane/schema.sql.
pub mod Tables
pub mod Accounts
pub mod Devices
pub mod Joins
