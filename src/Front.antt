-- ===== src/Front.antt =====
-- The ledger of front switches: browser/browser_input_lock.go.
pub mod Ledger
pub mod Warning
mod Tests
