-- ===== src/Sync/Push.antt =====
-- The push of a batch: Push, applyOne and their helpers, internal/syncengine/engine.go. The checks
-- before the switch of applyOne are in Sync/Push/Checks, the cases of the switch in
-- Sync/Push/Cases.
mod Steps
mod Checks
mod Cases
unfoldable pub use Steps.*
unfoldable pub use Checks.*
unfoldable pub use Cases.*
pub mod Batch
pub mod Frame
pub mod Writes
pub mod Outcome
pub mod Safety
pub mod Journal
pub mod Revision
pub mod Others
pub mod Budget
