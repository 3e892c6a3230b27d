-- ===== src/Compare.antt =====
-- The comparison of two observations of a page: browser/testing/diff.go.
pub mod Diff
pub mod Laws
pub mod Lines
mod Tests
