-- ===== src/Writer/Stored.antt =====
-- What `ChainWriter::store_block` stored is read back by the record that it returns.
use rath_db.Common.{ℕ, ◌%◌, ◌^◌, ◌≡◌, refl, Bytes, length, ok, arith}
use rath_db.Env.{Env}
use rath_db.Primitives.Block.{Block, copy_header}
use rath_db.Primitives.Block
use rath_db.Coins.Undo.{UndoBlock}
use rath_db.Coins.Undo
use rath_db.BlockInfo.Record.{BlockRecord, make_block_record, RecordInRange}
use rath_db.Writer.{
  ChainWriter, write_block, write_undo_block, read_block, read_undo_block, store_block, get_header,
}
use rath_db.Writer.Info.{FileInfo}
use rath_db.Writer.Streams.{write_stream}
use rath_db.Writer.ReadBack.{
  WriterIsSound, IsStorable, write_block-WriterIsSound, write_undo_block-WriterIsSound,
  read_block-write_block, read_undo_block-write_undo_block, read_block-write_block_other,
  read_block-write_undo_block,
}

-- The place of a block, as its record tells it.
abbrev pub block_location : BlockRecord → FileInfo
block_location r = record {
  file_name = r.block_file_stored;
  start = r.block_offset_start;
  end = r.block_offset_end;
}

abbrev pub undo_location : BlockRecord → FileInfo
undo_location r = record {
  file_name = r.undo_file_stored;
  start = r.undo_offset_start;
  end = r.undo_offset_end;
}

-- What `store_block` promises: the record tells where to read back both texts, the writer stays
-- sound, and what could be read before is still read.
pub record Stored (e : Env) (b : Block) (height : ℕ) (undo_text : Bytes) (w w' : ChainWriter)
    (r : BlockRecord) : Type 0 where
  pub sound : WriterIsSound w'
  pub block_text : read_block (block_location r) w' ≡ ok (Block.serialize e.wire b)
  pub undo_read : read_undo_block (undo_location r) w' ≡ ok undo_text
  pub kept :
      (location : FileInfo) (t : Bytes)
      → read_block location w ≡ ok t
      → read_block location w' ≡ ok t
  pub height_kept : r.height ≡ height
  pub in_range : RecordInRange r

module _ (e : Env) (b : Block) (u : UndoBlock) (height : ℕ) (w : ChainWriter) (undo_text : Bytes)
    (h : WriterIsSound w) (sb : IsStorable (Block.serialize e.wire b) w.block_stream)
    (su : IsStorable undo_text w.undo_stream) where
  block_written : FileInfo × ChainWriter
  block_written = write_block e.uninit (Block.serialize e.wire b) w

  undo_written : FileInfo × ChainWriter
  undo_written = write_undo_block e.uninit undo_text block_written.1

  middle : WriterIsSound block_written.1
  unfolding block_written
  middle = write_block-WriterIsSound e.uninit (Block.serialize e.wire b) w sb.fits h

  storable : IsStorable undo_text block_written.1.undo_stream
  unfolding block_written write_block
  storable = su

  result : BlockRecord
  result =
      make_block_record (get_header b) (length b.transactions % 2 ^ 32) height block_written.0
        undo_written.0

  result-InRange : RecordInRange result
  unfolding block_written undo_written result write_block write_undo_block write_stream get_header
      copy_header
  result-InRange = record {
    header = omega arith;
    block_start = omega arith;
    block_end = omega arith;
    undo_start = omega arith;
    undo_end = omega arith;
  }

  result-Stored : Stored e b height undo_text w undo_written.1 result
  unfolding block_written undo_written result
  result-Stored = record {
    sound = write_undo_block-WriterIsSound e.uninit undo_text block_written.1 storable.fits middle;
    block_text =
        read_block-write_undo_block e.uninit undo_text block_written.1 block_written.0 _ middle
          (read_block-write_block e.uninit (Block.serialize e.wire b) w sb h);
    undo_read = read_undo_block-write_undo_block e.uninit undo_text block_written.1 storable middle;
    kept = λ location t r.
        read_block-write_undo_block e.uninit undo_text block_written.1 location t middle
          (read_block-write_block_other e.uninit (Block.serialize e.wire b) w location t h r);
    height_kept = refl;
    in_range = result-InRange;
  }

  -- For a sound writer, a block whose text has no zero byte and fits the 16-bit offsets, and an
  -- undo block whose text is given and does so too, `store_block` returns a record with the given
  -- height by which both texts are read back, the writer stays sound, and whatever could be read
  -- before is read the same after it.
  pub store_block-Stored :
      Undo.serialize e.wire u ≡ ok undo_text
      → (r : BlockRecord) × (w' : ChainWriter) × (store_block e b u height w ≡ ok (r, w'))
        × Stored e b height undo_text w w' r
  unfolding store_block block_written undo_written result
  store_block-Stored hu = (result, undo_written.1, rw hu, result-Stored)
