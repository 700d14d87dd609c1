-- ===== src/Chain/Undo.antt =====
-- `Chain::make_undo_block`: one undo record for each transaction of the block, with the output that
-- each of its inputs refers to.
pub mod Made
use rath_db.Common.{ℕ, List, [], ◌∷◌, Outcome, ok, ◌>>=◌}
use rath_db.Env.{Env}
use rath_db.Primitives.Input.{TransactionInput, make_input}
use rath_db.Primitives.Transaction.{Transaction}
use rath_db.Primitives.Block.{Block}
use rath_db.Coins.Columns.{Columns, push_front}
use rath_db.Coins.Undo.{UndoCoinRecord, UndoBlock, new_undo_block, make_undo_coin_record}
use rath_db.Coins.State.{CoinDatabase, transaction_hash}
use rath_db.Coins.Validation.{return_matching_utxo}

-- The loop over the inputs, each of which is copied first.
unfoldable pub input_columns :
    Env → List TransactionInput → CoinDatabase → Outcome (Columns × CoinDatabase)
input_columns e [] cd = ok (record { utxo = []; amounts = []; public_keys = [] }, cd)
input_columns e (t ∷ ts) cd = do
  found ←
      return_matching_utxo e (make_input t.reference_transaction_hash t.utxo_index t.signature) cd
  rest ← input_columns e ts found.1
  ok (push_front t.utxo_index found.0.0 found.0.1 rest.0, rest.1)

abbrev push_record : ℕ → UndoCoinRecord → UndoBlock → UndoBlock
push_record hash r b = record {
  transaction_hashes = hash ∷ b.transaction_hashes;
  undo_coin_records = r ∷ b.undo_coin_records;
}

unfoldable pub make_records :
    Env → List Transaction → CoinDatabase → Outcome (UndoBlock × CoinDatabase)
unfolding input_columns
make_records e [] cd = ok (new_undo_block [] [], cd)
make_records e (t ∷ ts) cd = do
  columns ← input_columns e t.transaction_inputs cd
  let c = columns.0
  rest ← make_records e ts columns.1
  ok (
    push_record (transaction_hash e t)
        (make_undo_coin_record t.version c.utxo c.amounts c.public_keys) rest.0,
    rest.1,
  )

unfoldable pub make_undo_block : Env → Block → CoinDatabase → Outcome (UndoBlock × CoinDatabase)
unfolding make_records
make_undo_block e b cd = make_records e b.transactions cd
