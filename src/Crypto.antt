-- ===== src/Crypto.antt =====
-- Secrets that people read and type: internal/crypto/crypto.go.
pub mod Codes
