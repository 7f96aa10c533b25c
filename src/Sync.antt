-- ===== src/Sync.antt =====
-- The sync engine, internal/syncengine: who may see and write a collection, the quota, the push of a
-- batch of changes into the journal, and what devices read back.
pub mod Types
pub mod Access
pub mod Quota
pub mod Push
pub mod Changes
pub mod Ack
pub mod Share
pub mod Collections
pub mod Tree
pub mod Prefs
pub mod Reconcile
