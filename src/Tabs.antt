-- ===== src/Tabs.antt =====
-- The index of tabs: browser/tab_index.go.
pub mod Index
pub mod Order
pub mod Laws
mod Tests
