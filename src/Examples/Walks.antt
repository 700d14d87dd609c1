-- ===== src/Examples/Walks.antt =====
-- The chain, tried on concrete values: a fork of one block that is stored, with its predecessor
-- among the last hashes.
use rath_db.Common.{==_refl, ◌≡◌, refl, ◌∙◌, some, ok, [], ◌∷◌, arith, codes}
use rath_db.Primitives.Header.{make_header}
use rath_db.Primitives.Block.{Block}
use rath_db.Primitives.Block
use rath_db.BlockInfo.{BlockInfoDatabase, new_block_info_database, store_block_record}
use rath_db.BlockInfo.Record.{BlockRecord, make_block_record, RecordInRange}
use rath_db.BlockInfo.Laws.{find_record, find-store_block_record}
use rath_db.Writer.{ChainWriter, new_chain_writer, write_block, read_block}
use rath_db.Writer.Info.{FileInfo, make_file_info}
use rath_db.Writer.FileSystem.{new_disk}
use rath_db.Coins.State.{new_coin_database}
use rath_db.Writer.Streams.{write_stream, roll}
use rath_db.Writer.ReadBack.{read_block-write_block, new_chain_writer-WriterIsSound}
use rath_db.Writer.Stored.{block_location}
use rath_db.Chain.{Chain, construct_genesis_block, get_last_block_hash, block_hash}
use rath_db.Chain.Active.{get_active_chain}
use rath_db.Chain.Lookup.{HasBlock, get_active_chain-Linked}
use rath_db.Examples.Storage.{block_IsStorable}
use rath_db.Examples.Data.{env, small_block, block_record}

abbrev pub written : FileInfo × ChainWriter
written = write_block env.uninit (Block.serialize env.wire small_block) (new_chain_writer new_disk)

abbrev pub fork_record : BlockRecord
fork_record =
    make_block_record small_block.block_header 1 2 written.0
      (make_file_info (codes "data/undo_blocks_0.data") 0 30)

abbrev pub known : BlockInfoDatabase
known = store_block_record env.wire 41 block_record new_block_info_database

abbrev pub forked_chain : Chain
forked_chain = record {
  branching_height = 0;
  active_chain_length = 3;
  active_chain_last_block = construct_genesis_block;
  block_info_database = store_block_record env.wire 9 fork_record known;
  chain_writer = written.1;
  coin_database = new_coin_database;
  last_five_hashes = 41 ∷ [];
}

abbrev pub new_block : Block
new_block = record small_block { block_header = make_header 1 9 42 43 44 46 }

block_record-InRange : RecordInRange block_record
block_record-InRange = record {
  header = omega arith;
  block_start = omega arith;
  block_end = omega arith;
  undo_start = omega arith;
  undo_end = omega arith;
}

pub fork_record-InRange : RecordInRange fork_record
unfolding write_block write_stream roll new_chain_writer
fork_record-InRange = record {
  header = omega arith;
  block_start = omega arith;
  block_end = omega arith;
  undo_start = omega arith;
  undo_end = omega arith;
}

pub block_read :
    read_block (block_location fork_record) written.1 ≡ ok (Block.serialize env.wire small_block)
block_read =
    read_block-write_block env.uninit (Block.serialize env.wire small_block)
      (new_chain_writer new_disk) block_IsStorable new_chain_writer-WriterIsSound

pub fork_HasBlock : HasBlock env forked_chain 9 small_block
fork_HasBlock = record {
  at_record = fork_record;
  found = find-store_block_record env.wire 9 fork_record known 9 fork_record-InRange;
  in_range = fork_record-InRange;
  read = block_read;
  block_in_range = (omega arith, ((omega arith, (omega arith, tt)), tt));
}

pub ancestor_known : find_record env.wire forked_chain.block_info_database 41 ≡ some block_record
ancestor_known =
    find-store_block_record env.wire 9 fork_record known 41 fork_record-InRange
    ∙ find-store_block_record env.wire 41 block_record new_block_info_database 41
        block_record-InRange

-- A chain of one block, whose last block is that block.
abbrev pub one_block_chain : Chain
one_block_chain = record forked_chain {
  active_chain_length = 1;
  active_chain_last_block = small_block;
  block_info_database = store_block_record env.wire (block_hash env small_block) fork_record known;
}

pub one_HasBlock :
    HasBlock env one_block_chain (get_last_block_hash env one_block_chain) small_block
unfolding get_last_block_hash
one_HasBlock = record {
  at_record = fork_record;
  found =
      find-store_block_record env.wire (block_hash env small_block) fork_record known
        (block_hash env small_block) fork_record-InRange
      ∙ rw (==_refl (block_hash env small_block));
  in_range = fork_record-InRange;
  read = block_read;
  block_in_range = fork_HasBlock.block_in_range;
}

get_active_chain-Linked_example :
    (c' : Chain) × (get_active_chain env 1 1 one_block_chain ≡ ok (small_block ∷ [], c'))
get_active_chain-Linked_example =
    get_active_chain-Linked env one_block_chain (small_block ∷ []) (λ h. cc) refl (one_HasBlock, tt)
