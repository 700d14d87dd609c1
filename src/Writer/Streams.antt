-- ===== src/Writer/Streams.antt =====
-- `write_block` and `write_undo_block` are the same code over two sets of files; this is that code,
-- over the current file number, the current offset and the file names.
pub mod Invariant
use rath_db.Common.{ℕ, ◌+◌, ◌%◌, ◌^◌, Bytes, length, ltb, if◌then◌else◌}
use rath_db.Writer.Info.{FileInfo, make_file_info}
use rath_db.Writer.FileSystem.{Disk, append_file, strcpy_buffer}

-- Both are of type `uint16_t`.
pub record Stream : Type 0 where
  pub number : ℕ
  pub offset : ℕ

-- The largest size of a file, for the blocks and for the undo blocks.
abbrev pub max_file_size : ℕ
max_file_size = 1000

-- A text of `n` bytes that does not fit goes to the next file.
unfoldable pub roll : ℕ → Stream → Stream
roll n s =
    if ltb max_file_size (s.offset + n)
    then record { number = (s.number + 1) % 2 ^ 16; offset = 0 }
    else s

-- The text is written with its terminating zero, which the returned offsets leave out.
unfoldable pub write_stream :
    (ℕ → ℕ) → (ℕ → Bytes) → Bytes → Stream → Disk → FileInfo × Stream × Disk
write_stream uninit name block s d =
    let n = length block in
    let s' = roll n s in
    (
      make_file_info (name s'.number) s'.offset (s'.offset + n),
      record s' { offset = (s'.offset + n + 1) % 2 ^ 16 },
      append_file (name s'.number) (strcpy_buffer uninit block) d,
    )
