-- ===== src/Examples/Switching.antt =====
-- A fork of two stored blocks that a third one makes longer than the active chain.
use rath_db.Common.{◌≡◌, refl, ◌∙◌, ok, [], ◌∷◌, arith, codes}
use rath_db.Primitives.Header.{make_header}
use rath_db.Primitives.Block.{Block}
use rath_db.Primitives.Block
use rath_db.BlockInfo.{store_block_record}
use rath_db.BlockInfo.Record.{BlockRecord, make_block_record, RecordInRange}
use rath_db.BlockInfo.Laws.{find-store_block_record}
use rath_db.Writer.{ChainWriter, new_chain_writer, write_block}
use rath_db.Writer.Info.{FileInfo, make_file_info}
use rath_db.Writer.FileSystem.{new_disk}
use rath_db.Writer.Streams.{write_stream, roll}
use rath_db.Writer.ReadBack.{read_block-write_block, new_chain_writer-WriterIsSound}
use rath_db.Writer.Stored.{block_location}
use rath_db.Chain.{Chain}
use rath_db.Chain.Lookup.{HasBlock}
use rath_db.Examples.Storage.{block_IsStorable}
use rath_db.Chain.Fork.{mem_hash}
use rath_db.Examples.Data.{env, small_block, block_record}
use rath_db.Examples.Walks.{
  written, new_block, known, fork_record, forked_chain, fork_record-InRange, block_read,
  fork_HasBlock, ancestor_known,
}
use rath_db.Chain.Fork.Walk.{ForkOf, root, above, Branched, get_forked_blocks_stack-ForkOf}
use rath_db.Chain.Fork.{get_forked_blocks_stack}
use rath_db.Writer.ReadBack.{
  WriterIsSound, IsStorable, write_block-WriterIsSound, read_block-write_block_other,
}
use rath_db.Examples.Data.{nonzero-All}
use rath_db.Primitives.Header
use rath_db.Primitives.Input
use rath_db.Primitives.Output
use rath_db.Primitives.Transaction

-- `new_block`, whose predecessor is stored under 9, is written behind it.
abbrev both_written : FileInfo × ChainWriter
both_written = write_block env.uninit (Block.serialize env.wire new_block) written.1

abbrev upper_record : BlockRecord
upper_record =
    make_block_record new_block.block_header 1 3 both_written.0
      (make_file_info (codes "data/undo_blocks_0.data") 0 30)

abbrev two_chain : Chain
two_chain = record forked_chain {
  block_info_database =
      store_block_record env.wire 12 upper_record forked_chain.block_info_database;
  chain_writer = both_written.1;
}

upper_record-InRange : RecordInRange upper_record
unfolding write_block write_stream roll new_chain_writer
upper_record-InRange = record {
  header = omega arith;
  block_start = omega arith;
  block_end = omega arith;
  undo_start = omega arith;
  undo_end = omega arith;
}

upper_IsStorable : IsStorable (Block.serialize env.wire new_block) written.1.block_stream
unfolding write_block write_stream roll new_chain_writer Block.serialize Block.message
    Header.message Transaction.message Input.message Output.message
upper_IsStorable = record {
  fits = record { short = omega arith; numbered = omega arith };
  no_zero = nonzero-All (Block.serialize env.wire new_block) refl;
}

written_sound : WriterIsSound written.1
written_sound =
    write_block-WriterIsSound env.uninit (Block.serialize env.wire small_block)
      (new_chain_writer new_disk) block_IsStorable.fits new_chain_writer-WriterIsSound

upper_HasBlock : HasBlock env two_chain 12 new_block
upper_HasBlock = record {
  at_record = upper_record;
  found =
      find-store_block_record env.wire 12 upper_record forked_chain.block_info_database 12
        upper_record-InRange;
  in_range = upper_record-InRange;
  read =
      read_block-write_block env.uninit (Block.serialize env.wire new_block) written.1
        upper_IsStorable written_sound;
  block_in_range = fork_HasBlock.block_in_range;
}

lower_HasBlock : HasBlock env two_chain 9 small_block
lower_HasBlock = record {
  at_record = fork_record;
  found =
      find-store_block_record env.wire 12 upper_record forked_chain.block_info_database 9
        upper_record-InRange
      ∙ find-store_block_record env.wire 9 fork_record known 9 fork_record-InRange;
  in_range = fork_record-InRange;
  read =
      read_block-write_block_other env.uninit (Block.serialize env.wire new_block) written.1
        (block_location fork_record) _ written_sound block_read;
  block_in_range = fork_HasBlock.block_in_range;
}

two_ForkOf : ForkOf env two_chain block_record 9 (small_block ∷ [])
unfolding mem_hash
two_ForkOf = above refl lower_HasBlock (
    root refl (
      find-store_block_record env.wire 12 upper_record forked_chain.block_info_database 41
        upper_record-InRange
      ∙ ancestor_known))

get_forked_blocks_stack-ForkOf_example :
    (c' : Chain) × (get_forked_blocks_stack env 12 two_chain
      ≡ ok (small_block ∷ new_block ∷ [], c'))
    × Branched block_record two_chain c'
get_forked_blocks_stack-ForkOf_example =
    get_forked_blocks_stack-ForkOf env 12 two_chain block_record new_block (small_block ∷ [])
      upper_HasBlock two_ForkOf (omega arith)
