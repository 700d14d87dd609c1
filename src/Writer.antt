-- ===== src/Writer.antt =====
-- core/include/chain_writer and core/src/chain_writer/chain_writer.cpp: blocks and undo blocks in
-- files. The file system is the part of it that the writer uses: whether the data directory is
-- there, and the files in it. It belongs to this process alone, and nothing is written by others.
pub mod Info
pub mod FileSystem
pub mod Streams
pub mod ReadBack
pub mod Stored
use rath_db.Common.{
  ℕ, ◌+◌, ◌%◌, ◌^◌, Bool, true, false, ◌++◌, Bytes, codes, length, if◌then◌else◌, Outcome, ok,
  ◌>>=◌,
}
use rath_db.Env.{Env}
use rath_db.Text.{to_string}
use rath_db.Primitives.Header.{BlockHeader}
use rath_db.Primitives.Block.{Block, copy_header}
use rath_db.Primitives.Block
use rath_db.Coins.Undo.{UndoBlock}
use rath_db.Coins.Undo
use rath_db.BlockInfo.Record.{BlockRecord, make_block_record}
use Info.{FileInfo}
use FileSystem.{Disk, read_file, new_disk}
use Streams.{Stream, write_stream}

pub record ChainWriter : Type 0 where
  pub block_stream : Stream
  pub undo_stream : Stream
  pub disk : Disk

-- `disk` is what the process finds: the writer itself starts at file 0 and offset 0.
unfoldable pub new_chain_writer : Disk → ChainWriter
new_chain_writer disk_ = record {
  block_stream = record { number = 0; offset = 0 };
  undo_stream = record { number = 0; offset = 0 };
  disk = disk_;
}

abbrev pub data_directory : Bytes
data_directory = codes "data"

abbrev pub file_extension : Bytes
file_extension = codes "data"

abbrev pub block_filename : Bytes
block_filename = codes "blocks"

abbrev pub undo_filename : Bytes
undo_filename = codes "undo_blocks"

unfoldable pub block_name : ℕ → Bytes
block_name number =
    data_directory
    ++ codes "/"
    ++ block_filename
    ++ codes "_"
    ++ (to_string number ++ (codes "." ++ file_extension))

unfoldable pub undo_name : ℕ → Bytes
undo_name number =
    data_directory
    ++ codes "/"
    ++ undo_filename
    ++ codes "_"
    ++ (to_string number ++ (codes "." ++ file_extension))

abbrev pub get_filename : Bool → ChainWriter → Bytes
get_filename is_undo w =
    if is_undo then undo_name w.undo_stream.number else block_name w.block_stream.number

-- `uninit` is what the stack holds where the buffer is not written.
unfoldable pub write_block : (ℕ → ℕ) → Bytes → ChainWriter → FileInfo × ChainWriter
write_block uninit block w =
    let (info, stream, disk') = write_stream uninit block_name block w.block_stream w.disk in
    (info, record w { block_stream = stream; disk = disk' })

unfoldable pub write_undo_block : (ℕ → ℕ) → Bytes → ChainWriter → FileInfo × ChainWriter
write_undo_block uninit block w =
    let (info, stream, disk') = write_stream uninit undo_name block w.undo_stream w.disk in
    (info, record w { undo_stream = stream; disk = disk' })

unfoldable pub read_block : FileInfo → ChainWriter → Outcome Bytes
read_block location w = read_file location w.disk

unfoldable pub read_undo_block : FileInfo → ChainWriter → Outcome Bytes
read_undo_block location w = read_file location w.disk

unfoldable pub get_header : Block → BlockHeader
get_header b = copy_header b.block_header

-- The block is written first; an undo block with too few records is met after that.
unfoldable pub store_block :
    Env → Block → UndoBlock → ℕ → ChainWriter → Outcome (BlockRecord × ChainWriter)
unfolding get_header
store_block e block undo_block height w =
    let (block_info, w') = write_block e.uninit (Block.serialize e.wire block) w in
    do
      serial ← Undo.serialize e.wire undo_block
      let (undo_info, w'') = write_undo_block e.uninit serial w'
      ok (
        make_block_record (get_header block) (length block.transactions % 2 ^ 32) height block_info
            undo_info,
        w'',
      )
