-- ===== src/Manager.antt =====
-- cmd/main.go: the operator's process.
pub mod Options
pub mod Main
pub mod Laws
pub mod Reach
