-- ===== src/Coins/State.antt =====
-- The state of `CoinDatabase`, and the reading of a coin record.
use rath_db.Common.{ℕ, [], Bytes, nat_eq, bytes_eq, Outcome, ok, ◌>>=◌}
use rath_db.Common.Map.{Map}
use rath_db.Env.{Env}
use rath_db.Text.{to_string}
use rath_db.Db.{Database, new_database, get_safely}
use rath_db.Primitives.Input.{TransactionInput}
use rath_db.Primitives.Transaction.{Transaction}
use rath_db.Primitives.Transaction
use rath_db.Coins.Record.{Coin, make_coin, CoinRecord, make_coin_record}
use rath_db.Coins.Record
use rath_db.Coins.Locator.{CoinLocator, make_locator, serialize_from_construct}
use rath_db.Coins.Locator

-- The two capacities are constants of the class; the two sizes are of type `uint16_t`.
pub record CoinDatabase : Type 0 where
  pub database : Database
  pub main_cache : Map Bytes Coin
  pub main_cache_size : ℕ
  pub mempool_cache : Map ℕ Transaction
  pub mempool_size : ℕ

abbrev pub main_cache_capacity : ℕ
main_cache_capacity = 1000

abbrev pub mempool_capacity : ℕ
mempool_capacity = 1000

unfoldable pub new_coin_database : CoinDatabase
new_coin_database = record {
  database = new_database;
  main_cache = [];
  main_cache_size = 0;
  mempool_cache = [];
  mempool_size = 0;
}

-- The hash of a transaction's serialization.
abbrev pub transaction_hash : Env → Transaction → ℕ
transaction_hash e t = e.hash (Transaction.serialize e.wire t)

-- `CoinRecord::deserialize(_database->get_safely(std::to_string(hash)))`.
unfoldable pub read_record : Env → ℕ → Database → Outcome (CoinRecord × Database)
read_record e hash db =
    let (serial, db') = get_safely (to_string hash) db in
    do r ← Record.deserialize e.wire serial; ok (r, db')

abbrev pub input_locator : TransactionInput → Bytes
input_locator t = Locator.serialize (make_locator t.reference_transaction_hash t.utxo_index)
