-- ===== src/Auth.antt =====
-- Signed requests: internal/auth. How a request is parsed, and the admin token, are not modelled.
pub mod Nonces
pub mod Request
pub mod Held
pub mod Replay
pub mod Accepted
