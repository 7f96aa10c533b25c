-- ===== src/Identity.antt =====
-- Devices and their permissions, names, users and pairing (internal/identity/identity.go, internal/identity/users.go).
pub mod Device
pub mod Names
pub mod Users
pub mod Pairing
pub mod Completion
pub mod Devices
pub mod LockedOut
