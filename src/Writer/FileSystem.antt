-- ===== src/Writer/FileSystem.antt =====
-- The C file functions that chain_writer.cpp calls, on the files of the data directory. Opening a
-- file there fails exactly while the directory is missing.
pub mod Appending
use rath_db.Common.{
  ℕ, zero, suc, ◌+◌, ◌-◌, Bool, true, false, List, [], ◌∷◌, ◌++◌, Bytes, Option, none, some, length,
  take, drop, ltb, ◌==◌, if◌then◌else◌, bytes_eq, Outcome, ok, undefined, stopped,
}
use rath_db.Common.Map.{Map, lookup, insert}
use rath_db.Writer.Info.{FileInfo}

pub record Disk : Type 0 where
  pub directory : Bool
  pub files : Map Bytes Bytes

abbrev pub new_disk : Disk
new_disk = record { directory = false; files = [] }

abbrev pub or_empty : Option Bytes → Bytes
or_empty none = []
or_empty (some c) = c

abbrev pub contents : Bytes → Disk → Bytes
contents name d = or_empty (lookup name d.files)

-- `fopen(name, "at")` adds an empty file where there is none.
abbrev fopen_append : Bytes → Disk → Option Disk
fopen_append name d =
    if d.directory then some (record d { files = insert name (contents name d) d.files }) else none

-- `fopen(name, "wt")` empties the file.
abbrev fopen_write : Bytes → Disk → Option Disk
fopen_write name d =
    if d.directory then some (record d { files = insert name [] d.files }) else none

abbrev fwrite : Bytes → Bytes → Disk → Disk
fwrite name chars d = record d { files = insert name (contents name d ++ chars) d.files }

-- `create_directory`, where there is none yet.
abbrev make_directory : Disk → Disk
make_directory d = if d.directory then d else record d { directory = true }

-- After the directory has been made: a file that could not be opened to append is opened to write.
reopen : Bytes → Option Disk → Disk → Disk
reopen name (some opened) d = make_directory opened
reopen name none d = elim (fopen_write name (make_directory d)) [ none ↦ d | some d' ↦ d' ]

-- Open, make the directory, open again, write.
unfoldable pub append_file : Bytes → Bytes → Disk → Disk
unfolding reopen
append_file name chars d = fwrite name chars (reopen name (fopen_append name d) d)

-- `fread` of `size` bytes from the start offset; fewer bytes end the program, as does a negative
-- size, for which `malloc` fails.
read_slice : ℕ → ℕ → Bytes → Outcome Bytes
read_slice start end content =
    let slice = take (end - start) (drop start content) in
    if ltb end start then stopped else if length slice == end - start then ok slice else stopped

-- A null file pointer is passed on to `fseek`.
read_opened : ℕ → ℕ → Option Bytes → Outcome Bytes
unfolding read_slice
read_opened start end none = undefined
read_opened start end (some content) = read_slice start end content

unfoldable pub read_file : FileInfo → Disk → Outcome Bytes
unfolding read_opened
read_file location d = read_opened location.start location.end (lookup location.file_name d.files)

-- What is still in the buffer, from a position on.
pub stale : (ℕ → ℕ) → ℕ → ℕ → Bytes
stale uninit i zero = []
stale uninit i (suc k) = uninit i ∷ stale uninit (suc i) k

strcpy_from : (ℕ → ℕ) → ℕ → Bytes → Bytes
unfolding stale
strcpy_from uninit i [] = 0 ∷ []
strcpy_from uninit i (c ∷ s) =
    let rest = strcpy_from uninit (suc i) s in
    if c == 0 then 0 ∷ stale uninit (suc i) (suc (length s)) else c ∷ rest

-- `char buffer[n + 1]; strcpy(buffer, s.c_str())`: the copy ends with the first zero byte, and the
-- rest of the buffer keeps what the stack held.
unfoldable pub strcpy_buffer : (ℕ → ℕ) → Bytes → Bytes
unfolding strcpy_from
strcpy_buffer uninit s = strcpy_from uninit 0 s
