-- ===== src/Integrity.antt =====
-- Maintenance of the tables: internal/integrity.
pub mod Compaction
