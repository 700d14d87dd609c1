-- ===== src/Writer/ReadBack.antt =====
-- What the writer stored is read back: the properties of write_block, write_undo_block, read_block and
-- read_undo_block of chain_writer.cpp.
use mathlib.Core.List.{append_cancel_left, append_cancel_right}
use rath_db.Common.{
  ℕ, ◌≡◌, ◌≢◌, refl, ap, ◌∙◌, sym, ◌++◌, Bytes, codes, length, take, get_or, All, ok, arith,
  take-append,
}
use rath_db.Common.Map.{lookup}
use rath_db.Text.{to_string}
use rath_db.Text.RoundTrip.{to_string-injective}
use rath_db.Writer.{
  ChainWriter, new_chain_writer, block_name, undo_name, file_extension, write_block,
  write_undo_block, read_block, read_undo_block,
}
use rath_db.Writer.Info.{FileInfo}
use rath_db.Writer.FileSystem.{new_disk, strcpy_buffer}
use rath_db.Writer.FileSystem.Appending.{DiskIsSound, strcpy_buffer-text}
use rath_db.Writer.Streams.{Stream}
use rath_db.Writer.Streams.Invariant.{
  StreamIsSound, Fits, write_stream-StreamIsSound, write_stream-StreamIsSound_other,
  write_stream-DiskIsSound, read-write_stream, read_file-write_stream,
}

number_of :
    (a b : ℕ) (p : Bytes)
    → p ++ (to_string a ++ (codes "." ++ file_extension))
      ≡ p ++ (to_string b ++ (codes "." ++ file_extension))
    → a ≡ b
number_of a b p h =
    to_string-injective a b
      (append_cancel_right (to_string a) (to_string b) _ (append_cancel_left p _ _ h))

pub block_name-injective : (i j : ℕ) → block_name i ≡ block_name j → i ≡ j
unfolding block_name
block_name-injective i j h = number_of i j (codes "data/blocks_") h

pub undo_name-injective : (i j : ℕ) → undo_name i ≡ undo_name j → i ≡ j
unfolding undo_name
undo_name-injective i j h = number_of i j (codes "data/undo_blocks_") h

pub block_name-ne-undo_name : (i j : ℕ) → block_name i ≢ undo_name j
unfolding block_name undo_name
block_name-ne-undo_name i j h = omega (arith, ap (λ (s : Bytes). get_or s 5 0) h)

-- Both streams are sound, and the directory is there when files are.
pub record WriterIsSound (w : ChainWriter) : Type 0 where
  pub blocks : StreamIsSound block_name w.block_stream w.disk
  pub undos : StreamIsSound undo_name w.undo_stream w.disk
  pub files : DiskIsSound w.disk

-- A text that `write_block` can keep: no zero byte, and within the offsets.
pub record IsStorable (text : Bytes) (s : Stream) : Type 0 where
  pub fits : Fits (length text) s
  pub no_zero : All (λ c. c ≢ 0) text

-- On an empty disk a new writer is sound.
pub new_chain_writer-WriterIsSound : WriterIsSound (new_chain_writer new_disk)
unfolding new_chain_writer lookup
new_chain_writer-WriterIsSound = record {
  blocks = record { current = refl; fresh = λ m k. refl };
  undos = record { current = refl; fresh = λ m k. refl };
  files = record { no_files = λ e f. refl };
}

module _ (uninit : ℕ → ℕ) (text : Bytes) (w : ChainWriter) where
  -- Writing a block that fits the 16-bit offsets and file numbers keeps the writer sound.
  pub write_block-WriterIsSound :
      Fits (length text) w.block_stream
      → WriterIsSound w
      → WriterIsSound (write_block uninit text w).1
  unfolding write_block
  write_block-WriterIsSound f h = record {
    blocks =
        write_stream-StreamIsSound uninit block_name-injective text w.block_stream w.disk f h.blocks
          h.files;
    undos =
        write_stream-StreamIsSound_other uninit block_name undo_name text _ _ _
          block_name-ne-undo_name h.files h.undos;
    files = write_stream-DiskIsSound uninit block_name text _ _;
  }

  pub write_undo_block-WriterIsSound :
      Fits (length text) w.undo_stream
      → WriterIsSound w
      → WriterIsSound (write_undo_block uninit text w).1
  unfolding write_undo_block
  write_undo_block-WriterIsSound f h = record {
    blocks =
        write_stream-StreamIsSound_other uninit undo_name block_name text _ _ _
          (λ i j e. block_name-ne-undo_name j i (sym e)) h.files h.blocks;
    undos =
        write_stream-StreamIsSound uninit undo_name-injective text w.undo_stream w.disk f h.undos
          h.files;
    files = write_stream-DiskIsSound uninit undo_name text _ _;
  }

  take-text : All (λ c. c ≢ 0) text → take (length text) (strcpy_buffer uninit text) ≡ text
  take-text h = rw (strcpy_buffer-text uninit text h) (take-append text _)

  -- A text without a zero byte that fits the offsets, written by a sound writer, is read back at
  -- the place returned.
  pub read_block-write_block :
      IsStorable text w.block_stream
      → WriterIsSound w
      → read_block (write_block uninit text w).0 (write_block uninit text w).1 ≡ ok text
  unfolding write_block read_block
  read_block-write_block s h =
      read-write_stream uninit block_name-injective text w.block_stream w.disk s.fits h.blocks
        h.files
      ∙ ap ok (take-text s.no_zero)

  pub read_undo_block-write_undo_block :
      IsStorable text w.undo_stream
      → WriterIsSound w
      → read_undo_block (write_undo_block uninit text w).0 (write_undo_block uninit text w).1
        ≡ ok text
  unfolding write_undo_block read_undo_block
  read_undo_block-write_undo_block s h =
      read-write_stream uninit undo_name-injective text w.undo_stream w.disk s.fits h.undos h.files
      ∙ ap ok (take-text s.no_zero)

  -- What could be read before a block or an undo block was written is read after it.
  pub read_block-write_block_other :
      (location : FileInfo) (t : Bytes)
      → WriterIsSound w
      → read_block location w ≡ ok t
      → read_block location (write_block uninit text w).1 ≡ ok t
  unfolding write_block read_block
  read_block-write_block_other location t h r =
      read_file-write_stream uninit block_name text _ _ location t h.files r

  pub read_block-write_undo_block :
      (location : FileInfo) (t : Bytes)
      → WriterIsSound w
      → read_block location w ≡ ok t
      → read_block location (write_undo_block uninit text w).1 ≡ ok t
  unfolding write_undo_block read_block
  read_block-write_undo_block location t h r =
      read_file-write_stream uninit undo_name text _ _ location t h.files r
