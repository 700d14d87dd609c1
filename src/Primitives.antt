-- ===== src/Primitives.antt =====
-- core/include/primitives and core/src/primitives: transactions and blocks, one module for each
-- class. A parameter of type `uint8_t` takes its argument modulo 2 ^ 8, as the C++ conversion does;
-- the `uint32_t` fields are numbers below 2 ^ 32 that nothing here computes with.
pub mod Input
pub mod Output
pub mod Transaction
pub mod Header
pub mod Block
pub mod RoundTrip
