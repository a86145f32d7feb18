-- ===== src/Store.antt =====
-- src/store/: the submissions that wait, and the work items by their id.
pub mod Outbox
pub mod Ledger
