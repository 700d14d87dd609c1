-- ===== src/Examples/Handling.antt =====
-- The recording of blocks and `handle_block`, tried on concrete values.
use rath_db.Common.{◌≡◌, ◌≢◌, ok, [], arith}
use rath_db.Primitives.Header.{make_header}
use rath_db.Primitives.Block.{Block}
use rath_db.BlockInfo.{new_block_info_database}
use rath_db.BlockInfo.Laws.{find-new}
use rath_db.Writer.{new_chain_writer}
use rath_db.Writer.FileSystem.{new_disk}
use rath_db.Writer.ReadBack.{new_chain_writer-WriterIsSound}
use rath_db.Chain.{Chain, get_last_block_hash}
use rath_db.Chain.Recording.{Recorded, record_block-Recorded}
use rath_db.Chain.Handle.{record_block, handle_block}
use rath_db.Chain.Handle.Unknown.{handle_block-unknown}
use rath_db.Examples.Data.{env, small_block, small_undo_block, funded}
use rath_db.Examples.Storage.{undo_text, block_IsStorable, undo_IsStorable, undo_written}

abbrev pub fresh_chain : Chain
fresh_chain = record {
  branching_height = 0;
  active_chain_length = 1;
  active_chain_last_block = small_block;
  block_info_database = new_block_info_database;
  chain_writer = new_chain_writer new_disk;
  coin_database = funded;
  last_five_hashes = [];
}

record_block-Recorded_example :
    (c' : Chain) × (record_block env small_block small_undo_block 1 fresh_chain ≡ ok c')
    × Recorded env small_block fresh_chain c'
record_block-Recorded_example =
    record_block-Recorded env small_block small_undo_block 1 fresh_chain undo_text
      new_chain_writer-WriterIsSound (omega arith, ((omega arith, (omega arith, tt)), tt))
      block_IsStorable undo_IsStorable undo_written

-- No block has the hash 0 here.
abbrev orphan : Block
orphan = record small_block { block_header = make_header 1 0 42 43 44 45 }

orphan_other : 0 ≢ get_last_block_hash env fresh_chain
unfolding get_last_block_hash rath_db.Primitives.Block.serialize
orphan_other h = omega (arith, h)

handle_block-unknown_example : handle_block env 0 orphan fresh_chain ≢ ok fresh_chain
handle_block-unknown_example =
    handle_block-unknown env 0 orphan fresh_chain fresh_chain orphan_other (find-new env.wire 0)
