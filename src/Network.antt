-- ===== src/Network.antt =====
-- The guard of what a fetched page may reach: browser/public_network.go.
pub mod Address
pub mod Dial
pub mod Budget
pub mod Limits
pub mod Failures
mod Tests
pub mod Spellings
pub mod Reach
pub mod Answers
