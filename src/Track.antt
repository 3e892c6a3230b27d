-- ===== src/Track.antt =====
-- The tracker of page targets: browser/target_tracker.go.
pub mod State
pub mod Attribution
pub mod Events
pub mod Commands
pub mod Order
pub mod Queues
pub mod Invariant
pub mod Claims
pub mod Kept
pub mod Obeyed
pub mod Run
pub mod Listing
pub mod Attention
pub mod Close
pub mod Pending
pub mod Waiting
pub mod Stale
mod Tests
