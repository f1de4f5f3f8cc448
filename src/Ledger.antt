-- ===== src/Ledger.antt =====
-- The double-entry ledger of apps/server/src/ledger.rs.
pub mod Schema
pub mod Accounts
pub mod Postings
pub mod Transfers
pub mod Wallets
pub mod Calls
mod Sample
mod Tests
