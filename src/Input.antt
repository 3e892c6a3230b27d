-- ===== src/Input.antt =====
-- The input gateway: browser/input_gateway.go, with the event type of browser/core.go.
pub mod Event
pub mod Timers
pub mod Gateway
pub mod Handle
pub mod Step
pub mod Invariant
pub mod Ownership
pub mod Admission
pub mod Pressed
pub mod Release
pub mod Races
pub mod Dispatch
mod Tests
