-- ===== src/Live.antt =====
-- The live view's fan-out: browser/frame_broadcast_hub.go and browser/browser_session.go.
pub mod Hub
pub mod Entries
pub mod Wired
pub mod Publish
pub mod Run
pub mod Authority
pub mod Updates
pub mod Session
pub mod Drift
mod Tests
