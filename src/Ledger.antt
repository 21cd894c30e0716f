-- ===== src/Ledger.antt =====
-- packages/core/ledger.py: the double-entry ledger, as a database of four tables. Amounts are whole
-- cents. A call that raises is rolled back by its transaction, so an error carries no new state.
-- Every call runs as one step: Postgres orders the calls by the rows and keys that they lock.
mod Base
pub mod Balances
pub mod Deltas
pub mod Post
pub mod Wallets
pub mod Transfers
unfoldable pub use Base.*
