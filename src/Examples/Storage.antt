-- ===== src/Examples/Storage.antt =====
-- The writer and the store, tried on concrete values.
use rath_db.Common.{ℕ, ◌≡◌, refl, ok, [], ◌∷◌, ◌<◌, arith, false, Bytes, codes}
use rath_db.Proto.Sample.{sample_wire}
use rath_db.Primitives.Block
use rath_db.Primitives.Header
use rath_db.Primitives.Transaction
use rath_db.Primitives.Input
use rath_db.Primitives.Output
use rath_db.Coins.Columns.{copy_columns}
use rath_db.Coins.Undo as CoinsUndo
use rath_db.BlockInfo.Record.{BlockRecord}
use rath_db.Db.{Batch, empty_batch, batch_put, batch_delete, batch_write_safely, new_database}
use rath_db.Db.Laws.{view, effects, view-batch_write_safely}
use rath_db.Writer.{ChainWriter, new_chain_writer, store_block}
use rath_db.Writer.FileSystem.{new_disk}
use rath_db.Writer.Streams.Invariant.{Fits}
use rath_db.Writer.ReadBack.{IsStorable, new_chain_writer-WriterIsSound}
use rath_db.Writer.Stored.{Stored, store_block-Stored}
use rath_db.Examples.Data.{env, small_block, small_undo_block, nonzero-All}

-- What `small_undo_block` is written as.
abbrev pub undo_text : Bytes
undo_text = sample_wire.undo_block.encode (record {
  transaction_hashes = 5 ∷ [];
  undo_coin_records =
      record {
        version = 1;
        is_coin_base = false;
        height = 0;
        utxo = 1 ∷ [];
        amounts = 50 ∷ [];
        public_keys = 8 ∷ [];
      }
      ∷ [];
})

abbrev start : ChainWriter
start = new_chain_writer new_disk

pub text_Fits : (n : ℕ) → n < 400 → Fits n start.block_stream
unfolding new_chain_writer
text_Fits n h = record { short = omega arith; numbered = omega arith }

pub undo_text_Fits : (n : ℕ) → n < 400 → Fits n start.undo_stream
unfolding new_chain_writer
undo_text_Fits n h = record { short = omega arith; numbered = omega arith }

pub block_IsStorable : IsStorable (Block.serialize sample_wire small_block) start.block_stream
unfolding Block.serialize Block.message Header.message Transaction.message Input.message
    Output.message
block_IsStorable = record {
  fits = text_Fits _ (omega arith);
  no_zero = nonzero-All (Block.serialize sample_wire small_block) refl;
}

pub undo_written : CoinsUndo.serialize sample_wire small_undo_block ≡ ok undo_text
unfolding CoinsUndo.serialize CoinsUndo.messages copy_columns
undo_written = refl

pub undo_IsStorable : IsStorable undo_text start.undo_stream
undo_IsStorable = record {
  fits = undo_text_Fits _ (omega arith);
  no_zero = nonzero-All undo_text refl;
}

store_block-Stored_example :
    (r : BlockRecord) × (w' : ChainWriter) × (store_block env small_block small_undo_block 1 start
      ≡ ok (r, w'))
    × Stored env small_block 1 undo_text start w' r
store_block-Stored_example =
    store_block-Stored env small_block small_undo_block 1 start undo_text
      new_chain_writer-WriterIsSound block_IsStorable undo_IsStorable undo_written

abbrev two_writes : Batch
two_writes = batch_delete (codes "a") (batch_put (codes "a") (codes "1") empty_batch)

view-batch_write_safely_example :
    view (batch_write_safely two_writes new_database) (codes "a")
    ≡ effects two_writes.batch (codes "a") (view new_database (codes "a"))
view-batch_write_safely_example = view-batch_write_safely two_writes new_database (codes "a")
