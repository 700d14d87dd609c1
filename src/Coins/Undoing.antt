-- ===== src/Coins/Undoing.antt =====
-- The part of coin_database.cpp that takes blocks back: `undo_coins`, `add_utxo`, `find_index` and
-- `remove_utxo`.
pub mod Insertion
pub mod TakenBack
pub mod Kept
use rath_db.Common.{
  ℕ, zero, suc, ◌+◌, ◌-◌, ◌%◌, ◌^◌, false, List, [], ◌∷◌, Bytes, Option, none, some, length, ltb,
  bytes_beq, if◌then◌else◌, bytes_eq, Outcome, ok, undefined, ◌>>=◌,
}
use rath_db.Common.Map.{Map, lookup, insert, erase}
use rath_db.Env.{Env}
use rath_db.Text.{to_string}
use rath_db.Db.{get, put_safely, delete_safely}
use rath_db.Primitives.Output.{TransactionOutput}
use rath_db.Primitives.Transaction.{Transaction}
use rath_db.Primitives.Block.{Block}
use rath_db.Coins.Record.{Coin, CoinRecord, make_coin_record}
use rath_db.Coins.Record
use rath_db.Coins.Undo.{UndoCoinRecord, UndoBlock}
use rath_db.Coins.Locator.{serialize_from_construct}
use rath_db.Coins.State.{CoinDatabase, transaction_hash, read_record}

-- `while (record->utxo[index] < utxo)`, without a test for the end of the vector.
unfoldable pub find_index : ℕ → List ℕ → Outcome ℕ
find_index utxo [] = undefined
find_index utxo (u ∷ us) =
    let rest = do index ← find_index utxo us; ok (suc index)
    in if ltb u utxo then rest else ok 0

-- `v.insert(v.begin() + index, value)`.
insert_at : ℕ → ℕ → List ℕ → Outcome (List ℕ)
insert_at zero value v = ok (value ∷ v)
insert_at (suc index) value [] = undefined
insert_at (suc index) value (x ∷ v) = do rest ← insert_at index value v; ok (x ∷ rest)

-- `v[0]` of what is left of a vector.
front : List ℕ → Outcome ℕ
front [] = undefined
front (x ∷ v) = ok x

rest_of : List ℕ → List ℕ
rest_of [] = []
rest_of (x ∷ v) = v

-- The branch for a coin that is not in the cache: the output goes back into the stored record.
unfoldable pub add_to_record : Env → ℕ → ℕ → ℕ → ℕ → CoinDatabase → Outcome CoinDatabase
unfolding insert_at find_index
add_to_record e hash utxo amount key cd = do
  found ← read_record e hash cd.database
  let r = found.0
  index ← find_index utxo r.utxo
  us ← insert_at index utxo r.utxo
  ams ← insert_at index amount r.amounts
  ks ← insert_at index key r.public_keys
  serial ← Record.serialize e.wire (make_coin_record r.version us ams ks)
  ok (record cd {
    database = put_safely (to_string hash) serial (delete_safely (to_string hash) found.1);
  })

mark_unspent : Bytes → Coin → CoinDatabase → CoinDatabase
mark_unspent key coin cd = record cd {
  main_cache = insert key (record coin { is_spent = false }) cd.main_cache;
}

add_one : Env → ℕ → Option Coin → List ℕ → ℕ → List ℕ → CoinDatabase → Outcome CoinDatabase
unfolding mark_unspent front
add_one e hash (some coin) us amount ks cd =
    ok (mark_unspent (serialize_from_construct hash amount) coin cd)
add_one e hash none us amount ks cd = do
  utxo ← front us
  key ← front ks
  add_to_record e hash utxo amount key cd

-- The loop over the amounts. The locator is made from the amount of the output, as in the source.
add_each : Env → ℕ → List ℕ → List ℕ → List ℕ → CoinDatabase → Outcome CoinDatabase
unfolding add_one rest_of
add_each e hash us [] ks cd = ok cd
add_each e hash us (amount ∷ ams) ks cd = do
  cd' ← add_one e hash (lookup (serialize_from_construct hash amount) cd.main_cache) us amount ks cd
  add_each e hash (rest_of us) ams (rest_of ks) cd'

unfoldable pub add_utxo : Env → UndoCoinRecord → ℕ → CoinDatabase → Outcome CoinDatabase
unfolding add_each
add_utxo e r hash cd =
    let (serial, db') = get (to_string hash) cd.database in
    let new_record = make_coin_record r.version r.utxo r.amounts r.public_keys in
    if bytes_beq serial []
    then (do
      text ← Record.serialize e.wire new_record
      ok (record cd { database = put_safely (to_string hash) text db' }))
    else add_each e hash r.utxo r.amounts r.public_keys (record cd { database = db' })

erase_outputs : ℕ → ℕ → List TransactionOutput → Map Bytes Coin → Map Bytes Coin
erase_outputs hash i [] cache = cache
erase_outputs hash i (o ∷ os) cache =
    erase_outputs hash (suc i) os (erase (serialize_from_construct hash i) cache)

unfoldable pub remove_utxo : Env → Transaction → CoinDatabase → CoinDatabase
unfolding erase_outputs
remove_utxo e t cd = record cd {
  main_cache = erase_outputs (transaction_hash e t) 0 t.transaction_outputs cd.main_cache;
  database = delete_safely (to_string (transaction_hash e t)) cd.database;
  main_cache_size = (cd.main_cache_size + 2 ^ 16 - length t.transaction_outputs % 2 ^ 16) % 2 ^ 16;
}

-- The loop over the undo records of one block; hashes and transactions are read at the same
-- position.
unfoldable undo_records :
    Env → List UndoCoinRecord → List ℕ → List Transaction → CoinDatabase → Outcome CoinDatabase
undo_records e [] hs ts cd = ok cd
undo_records e (r ∷ rs) (h ∷ hs) (t ∷ ts) cd = do
  cd' ← add_utxo e r h cd
  undo_records e rs hs ts (remove_utxo e t cd')
undo_records e (r ∷ rs) hs ts cd = undefined

-- The loop over the undo blocks; the blocks are read at the same position.
unfoldable pub undo_coins : Env → List UndoBlock → List Block → CoinDatabase → Outcome CoinDatabase
unfolding undo_records
undo_coins e [] bs cd = ok cd
undo_coins e (u ∷ us) [] cd = undefined
undo_coins e (u ∷ us) (b ∷ bs) cd = do
  cd' ← undo_records e u.undo_coin_records u.transaction_hashes b.transactions cd
  undo_coins e us bs cd'
