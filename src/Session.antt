-- ===== src/Session.antt =====
-- The contract of a browser session: its kind with the defaults of the kind, its ids, and the
-- observation and the authority that it keeps. browser/session_contract.go,
-- browser/session_observation.go, browser/profile_manager.go and browser/pool.go.
pub mod Kinds
pub mod Ids
pub mod Profiles
pub mod Trimmed
pub mod Slugs
pub mod Safe
pub mod Info
pub mod Observation
pub mod Authority
mod Tests
