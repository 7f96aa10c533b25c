-- ===== src/Tests.antt =====
-- Witnesses: every theorem with hypotheses at a concrete input that meets them, and runs of the code.
mod World
mod Authz
mod Access
mod Push
mod Changes
mod Sharing
mod Auth
mod Users
mod Pairing
mod Integrity
mod Budget
mod Tree
mod Codes
