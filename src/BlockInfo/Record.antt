-- ===== src/BlockInfo/Record.antt =====
-- core/include/block_info_database/block_record.h and
-- core/src/block_info_database/block_record.cpp.
use rath_db.Common.{ℕ, ◌^◌, ◌<◌, ◌≡◌, [], Bytes, arith}
use rath_db.Proto.{PBlockHeader, PBlockRecord, Wire}
use rath_db.Primitives.Header.{BlockHeader, make_header}
use rath_db.Primitives.Header
use rath_db.Primitives.RoundTrip.{HeaderInRange}
use rath_db.Writer.Info.{FileInfo, make_file_info}

pub record BlockRecord : Type 0 where
  pub block_header : BlockHeader
  pub height : ℕ
  pub num_transactions : ℕ
  pub block_file_stored : Bytes
  pub block_offset_start : ℕ
  pub block_offset_end : ℕ
  pub undo_file_stored : Bytes
  pub undo_offset_start : ℕ
  pub undo_offset_end : ℕ

-- The constructor, with the parameters in its order.
abbrev pub make_block_record : BlockHeader → ℕ → ℕ → FileInfo → FileInfo → BlockRecord
make_block_record header count height_ block_info undo_info = record {
  block_header = header;
  height = height_;
  num_transactions = count;
  block_file_stored = block_info.file_name;
  block_offset_start = block_info.start;
  block_offset_end = block_info.end;
  undo_file_stored = undo_info.file_name;
  undo_offset_start = undo_info.start;
  undo_offset_end = undo_info.end;
}

message : BlockRecord → PBlockRecord
unfolding Header.message
message r = record {
  block_header = Header.message r.block_header;
  height = r.height;
  num_transactions = r.num_transactions;
  block_file_stored = r.block_file_stored;
  block_offset_start = r.block_offset_start;
  block_offset_end = r.block_offset_end;
  undo_file_stored = r.undo_file_stored;
  undo_offset_start = r.undo_offset_start;
  undo_offset_end = r.undo_offset_end;
}

header_of_message : PBlockHeader → BlockHeader
header_of_message m =
    make_header m.version m.previous_block_hash m.merkle_root m.difficulty_target m.nonce
      m.timestamp

of_message : PBlockRecord → BlockRecord
unfolding header_of_message
of_message m =
    make_block_record (header_of_message m.block_header) m.num_transactions m.height
      (make_file_info m.block_file_stored m.block_offset_start m.block_offset_end)
      (make_file_info m.undo_file_stored m.undo_offset_start m.undo_offset_end)

unfoldable pub serialize : Wire → BlockRecord → Bytes
unfolding message
serialize w r = w.block_record.encode (message r)

unfoldable pub deserialize : Wire → Bytes → BlockRecord
unfolding of_message
deserialize w s = of_message (w.block_record.parse s)

-- The offsets are of type `uint16_t`.
pub record RecordInRange (r : BlockRecord) : Type 0 where
  pub header : HeaderInRange r.block_header
  pub block_start : r.block_offset_start < 2 ^ 16
  pub block_end : r.block_offset_end < 2 ^ 16
  pub undo_start : r.undo_offset_start < 2 ^ 16
  pub undo_end : r.undo_offset_end < 2 ^ 16

record_lem : (r : BlockRecord) → RecordInRange r → of_message (message r) ≡ r
unfolding message of_message
record_lem r h = ground arith

-- A block record with its header version and its offsets in range is read back from its
-- serialization unchanged.
pub deserialize-serialize_block_record :
    (w : Wire) (r : BlockRecord) → RecordInRange r → deserialize w (serialize w r) ≡ r
unfolding serialize deserialize
deserialize-serialize_block_record w r h =
    ground (arith, w.block_record.parse-encode (message r), record_lem r h)

-- No record is stored as the empty string, by which a missing record is told.
pub serialize-ne-empty : (w : Wire) (r : BlockRecord) → ¬ (serialize w r ≡ [])
unfolding serialize
serialize-ne-empty w r = w.encode-block_record (message r)
