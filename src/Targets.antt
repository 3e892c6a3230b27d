-- ===== src/Targets.antt =====
-- The choice of a page target: browser/runtime_policy.go.
pub mod Select
pub mod Choice
mod Tests
