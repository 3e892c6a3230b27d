-- ===== src/Pool.antt =====
-- The pool that hands out the tabs of one Chrome per identity: browser/pool.go, with the registry
-- of browser/identity_registry.go.
pub mod State
pub mod Close
pub mod Acquire
pub mod Invariant
pub mod Evict
pub mod Remove
pub mod Reads
pub mod Kept
pub mod Opened
pub mod Run
pub mod Outcome
pub mod Reap
pub mod Shut
pub mod Returned
pub mod Views
mod Tests
