-- ===== src/Coins.antt =====
-- core/include/coin_database and core/src/coin_database: coins, their records, and the database of
-- unspent outputs with its cache and its memory pool.
pub mod Columns
pub mod Record
pub mod Undo
pub mod Locator
pub mod State
pub mod Validation
pub mod Database
pub mod Undoing
