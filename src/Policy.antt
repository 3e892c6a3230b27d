-- ===== src/Policy.antt =====
-- The safety policy of a session and its scenarios: browser/policy.go and browser/scenario.go.
pub mod Defs
pub mod Scenario
pub mod Laws
mod Tests
