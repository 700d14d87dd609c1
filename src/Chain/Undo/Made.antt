-- ===== src/Chain/Undo/Made.antt =====
-- What `Chain::make_undo_block` makes on a sound coin database.
use rath_db.Common.{◌≡◌, refl, List, [], ◌∷◌, Bytes, ok, arith}
use rath_db.Env.{Env}
use rath_db.Db.{Database}
use rath_db.Primitives.Input.{TransactionInput, make_input}
use rath_db.Primitives.Transaction.{Transaction}
use rath_db.Primitives.Block.{Block}
use rath_db.Coins.Columns.{Columns, push_front, Aligned}
use rath_db.Coins.Undo.{UndoBlock, UndoInRange, make_undo_coin_record}
use rath_db.Coins.Undo as CoinsUndo
use rath_db.Coins.State.{CoinDatabase, transaction_hash}
use rath_db.Coins.Database.Sound.{DbIsSound}
use rath_db.Coins.Database.Validity.{
  CoinsAreSound, with_database, with_database-CoinsAreSound, return_matching_utxo-total,
}
use rath_db.Chain.Undo.{input_columns, push_record, make_records, make_undo_block}

input_columns-total :
    (e : Env) (ts : List TransactionInput) (cd : CoinDatabase)
    → CoinsAreSound e cd
    → (c : Columns) × (db : Database) × (input_columns e ts cd ≡ ok (c, with_database cd db))
      × Aligned c.utxo c.amounts c.public_keys
      × DbIsSound e db
unfolding input_columns
input_columns-total e [] cd h =
    (record { utxo = []; amounts = []; public_keys = [] }, cd.database, refl, tt, h.records)
input_columns-total e (t ∷ ts) cd h =
    let (pair, db, r, d) =
      return_matching_utxo-total e
        (make_input t.reference_transaction_hash t.utxo_index t.signature) cd h in
    let (c, db', r', a, d') =
      input_columns-total e ts (with_database cd db) (with_database-CoinsAreSound e cd db h d) in
    (push_front t.utxo_index pair.0 pair.1 c, db', rw (r, r'), a, d')

make_records-total :
    (e : Env) (ts : List Transaction) (cd : CoinDatabase)
    → CoinsAreSound e cd
    → (u : UndoBlock) × (db : Database) × (make_records e ts cd ≡ ok (u, with_database cd db))
      × UndoInRange u
      × DbIsSound e db
unfolding make_records
make_records-total e [] cd h =
    (record { transaction_hashes = []; undo_coin_records = [] }, cd.database, refl, tt, h.records)
make_records-total e (t ∷ ts) cd h =
    let (c, db, r, a, d) = input_columns-total e t.transaction_inputs cd h in
    let (u, db', r', p, d') =
      make_records-total e ts (with_database cd db) (with_database-CoinsAreSound e cd db h d) in
    (
      push_record (transaction_hash e t)
          (make_undo_coin_record t.version c.utxo c.amounts c.public_keys) u,
      db',
      rw (r, r'),
      (record { small = omega arith; aligned = a }, p),
      d',
    )

pub make_undo_block-total :
    (e : Env) (b : Block) (cd : CoinDatabase)
    → CoinsAreSound e cd
    → (u : UndoBlock) × (db : Database) × (make_undo_block e b cd ≡ ok (u, with_database cd db))
      × UndoInRange u
      × DbIsSound e db
unfolding make_undo_block
make_undo_block-total e b cd h = make_records-total e b.transactions cd h

-- On a sound coin database the undo block of any block is made, it can be written and is read back
-- unchanged from its text, and the coin database is sound afterwards.
pub make_undo_block-stored :
    (e : Env) (b : Block) (cd : CoinDatabase)
    → CoinsAreSound e cd
    → (u : UndoBlock) × (cd' : CoinDatabase) × (text : Bytes) × (make_undo_block e b cd
        ≡ ok (u, cd'))
      × (CoinsUndo.serialize e.wire u ≡ ok text)
      × (CoinsUndo.deserialize e.wire text ≡ ok u)
      × CoinsAreSound e cd'
make_undo_block-stored e b cd h =
    let (u, db, r, p, d) = make_undo_block-total e b cd h in
    let (text, s, k) = CoinsUndo.serialize-UndoInRange e.wire u p in
    (u, with_database cd db, text, r, s, k, with_database-CoinsAreSound e cd db h d)
