-- ===== src/Coins/Database.antt =====
-- `CoinDatabase` of coin_database.h and coin_database.cpp: the operations that store transactions and
-- blocks. Its state stands in Coins/State, its validation in Coins/Validation.
pub mod Flush
pub mod Sound
pub mod Spend
pub mod Respend
pub mod Pool
pub mod Validity
pub mod Kept
pub mod Accepting
use rath_db.Common.{
  ℕ, zero, suc, ◌+◌, ◌-◌, ◌%◌, ◌^◌, Bool, true, false, List, [], ◌∷◌, Bytes, Option, none, some,
  length, ltb, ◌==◌, ◌||◌, if◌then◌else◌, nat_eq, bytes_eq, Outcome, ok, undefined, no_return,
  out_of_fuel, ◌>>=◌,
}
use rath_db.Common.Map.{Map, lookup, insert, erase, contains}
use rath_db.Env.{Env}
use rath_db.Text.{to_string}
use rath_db.Db.{Database, new_database, get_safely, put_safely, delete_safely}
use rath_db.Primitives.Input.{TransactionInput}
use rath_db.Primitives.Output.{TransactionOutput}
use rath_db.Primitives.Transaction.{Transaction}
use rath_db.Primitives.Transaction
use rath_db.Coins.Columns.{Columns, push_front}
use rath_db.Coins.Record.{Coin, make_coin, CoinRecord, make_coin_record}
use rath_db.Coins.Record
use rath_db.Coins.Locator.{CoinLocator, make_locator, serialize_from_construct}
use rath_db.Coins.Locator
use rath_db.Coins.State.{
  CoinDatabase, main_cache_capacity, mempool_capacity, new_coin_database, transaction_hash,
  read_record, input_locator,
}
use rath_db.Coins.Validation.{
  mem_index, validate_record, validate_found, validate_transaction_input, branch, validate_inputs,
  validate_transaction, validate_all, validate_block, match_utxo, match_found, return_matching_utxo,
}

-- The outputs of a transaction from a position on, as the three vectors of a record.
output_columns : ℕ → List TransactionOutput → Columns
output_columns i [] = record { utxo = []; amounts = []; public_keys = [] }
output_columns i (o ∷ os) = push_front i o.amount o.public_key (output_columns (suc i) os)

-- The record that `store_transactions_to_main_cache` makes of a transaction.
unfoldable pub output_record : Transaction → CoinRecord
unfolding output_columns
output_record t =
    let c = output_columns 0 t.transaction_outputs in
    make_coin_record t.version c.utxo c.amounts c.public_keys

-- With an output, `amounts.insert` is given an iterator of `utxo`. Nothing calls this method.
unfoldable pub transaction_to_coin_record : Transaction → Outcome CoinRecord
transaction_to_coin_record t = elim t.transaction_outputs [
  | [] ↦ ok (make_coin_record t.version [] [] [])
  | o ∷ os ↦ undefined
]

-- One unspent coin for each output, from a position on.
cache_outputs : ℕ → ℕ → List TransactionOutput → Map Bytes Coin → Map Bytes Coin
cache_outputs hash i [] cache = cache
cache_outputs hash i (o ∷ os) cache =
    cache_outputs hash (suc i) os
      (insert (serialize_from_construct hash i) (make_coin o false) cache)

unfoldable pub store_to_cache_help : Env → Transaction → CoinDatabase → CoinDatabase
unfolding cache_outputs
store_to_cache_help e t cd = record cd {
  main_cache_size = (cd.main_cache_size + length t.transaction_outputs) % 2 ^ 16;
  main_cache = cache_outputs (transaction_hash e t) 0 t.transaction_outputs cd.main_cache;
}

-- The body of the loop over the transactions.
store_one : Env → Transaction → CoinDatabase → Outcome CoinDatabase
store_one e t cd = do
  serial ← Record.serialize e.wire (output_record t)
  let stored = record cd {
    database = put_safely (to_string (transaction_hash e t)) serial cd.database;
  }
  ok (store_to_cache_help e t stored)

unfoldable pub store_transactions_to_main_cache :
    Env → List Transaction → CoinDatabase → Outcome CoinDatabase
unfolding store_one
store_transactions_to_main_cache e [] cd = ok cd
store_transactions_to_main_cache e (t ∷ ts) cd = do
  cd' ← store_one e t cd
  store_transactions_to_main_cache e ts cd'

-- The body of the loop over the transactions.
unfoldable pub remove_from_mempool : Env → Transaction → CoinDatabase → CoinDatabase
remove_from_mempool e t cd =
    if contains (transaction_hash e t) cd.mempool_cache
    then record cd {
      mempool_cache = erase (transaction_hash e t) cd.mempool_cache;
      mempool_size = (cd.mempool_size + 2 ^ 16 - 1) % 2 ^ 16;
    }
    else cd

unfoldable pub remove_transactions_from_mempool :
    Env → List Transaction → CoinDatabase → CoinDatabase
unfolding remove_from_mempool
remove_transactions_from_mempool e [] cd = cd
remove_transactions_from_mempool e (t ∷ ts) cd =
    remove_transactions_from_mempool e ts (remove_from_mempool e t cd)

-- `std::find` and the three `erase` calls: the entry of the index is taken out.
erase_index : ℕ → List ℕ → List ℕ → List ℕ → Outcome Columns
erase_index i [] ams ks = ok (record { utxo = []; amounts = ams; public_keys = ks })
erase_index i (u ∷ us) (a ∷ ams) (k ∷ ks) =
    let rest = do c ← erase_index i us ams ks; ok (push_front u a k c)
    in if u == i then ok (record { utxo = us; amounts = ams; public_keys = ks }) else rest
erase_index i (u ∷ us) ams ks = undefined

unfoldable pub remove_coin_from_database : Env → CoinLocator → Database → Outcome Database
unfolding erase_index
remove_coin_from_database e l db = do
  found ← read_record e l.transaction_hash db
  let r = found.0
  c ← erase_index l.output_index r.utxo r.amounts r.public_keys
  serial ← Record.serialize e.wire (make_coin_record r.version c.utxo c.amounts c.public_keys)
  let key = to_string l.transaction_hash
  ok (put_safely key serial (delete_safely key found.1))

-- One round of the loop, at the first entry of the cache. When its coin is not spent, neither this
-- round nor any later one does anything, and a loop without effects that never ends is undefined.
flush_round : Env → Bytes → Coin → Database → Outcome Database
flush_round e key coin db =
    if coin.is_spent
    then (do l ← Locator.deserialize key; remove_coin_from_database e l db)
    else undefined

-- `while (it != _main_cache.end())`: the body does not move the iterator, so each round looks at
-- the entry at which the loop began.
flush_loop : Env → ℕ → Map Bytes Coin → Database → Outcome Database
unfolding flush_round
flush_loop e fuel [] db = ok db
flush_loop e zero (p ∷ cache) db = out_of_fuel
flush_loop e (suc fuel) (p ∷ cache) db = do
  db' ← flush_round e p.0 p.1 db
  flush_loop e fuel (p ∷ cache) db'

unfoldable pub flush_main_cache : Env → ℕ → CoinDatabase → Outcome CoinDatabase
unfolding flush_loop
flush_main_cache e fuel cd = do
  db ← flush_loop e fuel cd.main_cache cd.database
  ok (record cd { database = db; main_cache = []; main_cache_size = 0 })

-- The cache is flushed first if the transactions (not their outputs) do not fit.
unfoldable pub store_block : Env → ℕ → List Transaction → CoinDatabase → Outcome CoinDatabase
store_block e fuel ts cd =
    if ltb main_cache_capacity (length ts + cd.main_cache_size)
    then (do
      cd' ← flush_main_cache e fuel cd
      store_transactions_to_main_cache e ts (remove_transactions_from_mempool e ts cd'))
    else store_transactions_to_main_cache e ts (remove_transactions_from_mempool e ts cd)

unfoldable pub store_transaction_in_mempool : Env → Transaction → CoinDatabase → CoinDatabase
store_transaction_in_mempool e t cd = record cd {
  mempool_cache = insert (transaction_hash e t) t cd.mempool_cache;
  mempool_size = (cd.mempool_size + 1) % 2 ^ 16;
}

-- The size is counted once more here, also when the pool was full. No `return` is reached.
unfoldable pub store_transaction : Env → Transaction → CoinDatabase → Outcome (Bool × CoinDatabase)
store_transaction e t cd =
    let cd' =
      if ltb (length cd.mempool_cache) mempool_capacity
      then store_transaction_in_mempool e t cd
      else cd in
    no_return (record cd' { mempool_size = (cd'.mempool_size + 1) % 2 ^ 16 })

-- Without a `return` where the block is not valid.
unfoldable pub validate_and_store_block :
    Env → ℕ → List Transaction → CoinDatabase → Outcome (Option Bool × CoinDatabase)
validate_and_store_block e fuel ts cd = do
  result ← validate_block e ts cd
  if result.0
      then (do cd' ← store_block e fuel ts result.1; ok (some true, cd'))
      else ok (none, result.1)

-- Without a `return`, whatever the verdict.
unfoldable pub validate_and_store_transaction :
    Env → Transaction → CoinDatabase → Outcome (Bool × CoinDatabase)
validate_and_store_transaction e t cd = do
  result ← validate_transaction e t cd
  if result.0
      then (do stored ← store_transaction e t result.1; no_return stored.1)
      else no_return result.1

abbrev pub contained_in_mempool : Env → Transaction → CoinDatabase → Bool
contained_in_mempool e t cd = contains (transaction_hash e t) cd.mempool_cache

abbrev pub mempool_size_of : CoinDatabase → ℕ
mempool_size_of cd = cd.mempool_size

abbrev pub cache_size : CoinDatabase → ℕ
cache_size cd = cd.main_cache_size

-- A key that is missing is added with a null pointer, which is then followed.
unfoldable pub quick_cache_remove : Bytes → CoinDatabase → Outcome CoinDatabase
quick_cache_remove key cd = elim (lookup key cd.main_cache) [
  | none ↦ undefined
  | some coin ↦
      ok (record cd { main_cache = insert key (record coin { is_spent = true }) cd.main_cache })
]

unfoldable pub get_from_database : Env → Bytes → CoinDatabase → Outcome (CoinRecord × CoinDatabase)
get_from_database e key cd =
    let (serial, db') = get_safely key cd.database in
    do r ← Record.deserialize e.wire serial; ok (r, record cd { database = db' })
