-- ===== src/Lib.antt =====
-- RathDB: a blockchain node's storage layer in C++. It keeps the blocks of a chain and its forks in
-- files, a record of each block in a key-value store, and the unspent coins in a cache over another.
--
-- The parts and the files here that model them:
-- * Primitives (core/src/primitives): inputs, outputs, transactions, headers and blocks, their
--   constructors, copies and (de)serialization.
-- * Proto (core/include/proto/rath.proto): the messages, and what is assumed of the generated code.
--   The encoding itself is a parameter, `Wire`; Proto/Sample shows one that meets the assumptions,
--   put together from the formats of Proto/Formats.
-- * Db (core/src/db): the string store with its batches. A method under the mutex is one step.
-- * BlockInfo (core/src/block_info_database): block records, stored under the hash of the block.
-- * Writer (core/src/chain_writer): block and undo files. Writer/FileSystem is the data directory,
--   Writer/Streams the code that write_block and write_undo_block share.
--   Writer/ReadBack and Writer/Stored tell what is read back.
-- * Coins (core/src/coin_database, chain_writer/undo_block.cpp): Coins/State is the coin database,
--   Coins/Validation validates transactions and blocks, Coins/Database stores them, Coins/Undoing
--   takes blocks back, Coins/Locator is the key of a coin. Coins/Database/Validity,
--   Coins/Database/Kept and Coins/Database/Accepting hold the invariant of the coin database.
-- * Chain (core/src/chain): Chain/Handle is handle_block and its branches, Chain/Fork and
--   Chain/Active the walks over the stored blocks, Chain/Undo the making of undo blocks. Chain/Runs
--   has the calls of the chain's interface as steps of a relation, and Chain/Refines the chain as the
--   list of blocks that it stands for, in Chain/Refines/Genesis those above the genesis block,
--   whose own text may have a zero byte and is then cut short in the file.
-- * Crypto (core/src/crypto): the hash. Crypto/Compression is its compression function, and
--   Crypto/Reference the digest of a message that is padded as a whole, to compare with.
--
-- Env holds what the parts take from outside: the message format, the hash function, and what an
-- array on the stack holds before it is written; the hash is a parameter there since what the code
-- returns depends on a variable that it does not set. Text is the printing and reading of numbers that
-- std::to_string and std::stoul do. Examples applies the theorems to concrete values.
--
-- A method takes the object and returns it changed. A run ends in an `Outcome`: `ok`, `undefined`
-- (undefined behaviour: an index out of range, a null pointer followed, control that runs off the
-- end of a function with a result, a loop without effects that never ends), `stopped` (an exception
-- that nothing catches) or `out_of_fuel`. Machine integers are numbers with
-- their wrap-around written out where the code computes or converts them.
--
-- Fuel and bounds: only flush_main_cache runs on fuel, as its loop need not end; the walks of the
-- chain count the rounds that their heights leave.
--
-- Not modelled: the generated protobuf code, the tests, the build files, and the concurrency of
-- several threads beyond the atomicity of the store's methods. Nothing else of the implementation is
-- left out but include guards and declarations without a body.
pub mod BlockInfo
pub mod Chain
pub mod Coins
pub mod Common
pub mod Crypto
pub mod Db
pub mod Env
pub mod Examples
pub mod Primitives
pub mod Proto
pub mod Text
pub mod Writer
