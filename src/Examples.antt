-- ===== src/Examples.antt =====
-- The theorems applied to concrete values, which shows that their hypotheses can be met.
pub mod Data
pub mod Records
pub mod Starting
pub mod Second
pub mod Running
pub mod Forking
pub mod Switching
pub mod Storage
pub mod Spending
pub mod Walks
pub mod Handling
pub mod Extending
pub mod Hashing
