-- ===== src/Writer/Info.antt =====
-- core/include/chain_writer/file_info.h and core/src/chain_writer/file_info.cpp.
use rath_db.Common.{ℕ, ◌%◌, ◌^◌, Bytes}

pub record FileInfo : Type 0 where
  pub file_name : Bytes
  pub start : ℕ
  pub end : ℕ

-- The constructor: both offsets are `uint16_t`.
abbrev pub make_file_info : Bytes → ℕ → ℕ → FileInfo
make_file_info name start_ end_ = record {
  file_name = name;
  start = start_ % 2 ^ 16;
  end = end_ % 2 ^ 16;
}
