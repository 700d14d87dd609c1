-- ===== src/Writer/Streams/Invariant.antt =====
-- The invariant of one stream of files: the current file is as long as the current offset, and the
-- files of higher numbers are not there yet.
use native.Mathlib.Nat.{le_refl}
use rath_db.Common.{
  ℕ, ◌+◌, ◌%◌, ◌^◌, ◌≤◌, ◌<◌, ◌≡◌, ◌≢◌, ap, ◌∙◌, inl, inr, ◌++◌, Bytes, none, some, length, take,
  ltb, bytes_beq, bytes_beq_iff, bytes_eq, Bool-cases, ok, arith, length-append,
}
use rath_db.Common.Map.{lookup, beq_refl}
use rath_db.Writer.Info.{FileInfo}
use rath_db.Writer.FileSystem.{Disk, contents, or_empty, append_file, read_file, strcpy_buffer}
use rath_db.Writer.FileSystem.Appending.{
  DiskIsSound, lookup-append_file, append_file-DiskIsSound, length-strcpy_buffer,
  read_file-appended, read_file-append_file,
}
use rath_db.Writer.Streams.{Stream, max_file_size, roll, write_stream}

pub record StreamIsSound (name : ℕ → Bytes) (s : Stream) (d : Disk) : Type 0 where
  pub current : length (contents (name s.number) d) ≡ s.offset
  pub fresh : (m : ℕ) → s.number < m → lookup (name m) d.files ≡ none

-- A text that the 16-bit offsets can describe, and a file number that does not wrap.
pub record Fits (n : ℕ) (s : Stream) : Type 0 where
  pub short : n + 1 < 2 ^ 16
  pub numbered : s.number + 1 < 2 ^ 16

module _ {name : ℕ → Bytes} (n : ℕ) (s : Stream) (d : Disk) (f : Fits n s)
    (h : StreamIsSound name s d) where
  next_fresh : (m : ℕ) → (s.number + 1) % 2 ^ 16 ≤ m → lookup (name m) d.files ≡ none
  next_fresh m k = h.fresh m (omega (arith, f.numbered))

  roll-StreamIsSound : StreamIsSound name (roll n s) d
  unfolding roll
  roll-StreamIsSound = elim (Bool-cases (ltb max_file_size (s.offset + n))) [
    | inl e ↦ rw e (record {
      current = ap (λ o. length (or_empty o)) (next_fresh _ (le_refl _));
      fresh = λ m k. next_fresh m (omega arith);
    })
    | inr e ↦ rw e h
  ]

  roll-le : (roll n s).offset + n + 1 < 2 ^ 16
  unfolding roll
  roll-le = ground (arith, f.short)

module _ (uninit : ℕ → ℕ) {name : ℕ → Bytes} (distinct : (i j : ℕ) → name i ≡ name j → i ≡ j)
    (block : Bytes) (s : Stream) (d : Disk) (f : Fits (length block) s) (h : StreamIsSound name s d)
    (ds : DiskIsSound d) where
  name_at : ℕ
  name_at = (roll (length block) s).number

  settled : StreamIsSound name (roll (length block) s) d
  settled = roll-StreamIsSound (length block) s d f h

  bounded : (roll (length block) s).offset + length block + 1 < 2 ^ 16
  bounded = roll-le (length block) s d f h

  -- The current file after the write.
  lookup-current :
      lookup (name name_at) (append_file (name name_at) (strcpy_buffer uninit block) d).files
      ≡ some (contents (name name_at) d ++ strcpy_buffer uninit block)
  lookup-current = rw (
    lookup-append_file (name name_at) (strcpy_buffer uninit block) (name name_at) d ds,
    beq_refl (name name_at),
  )

  current-write :
      length (contents (name name_at) (append_file (name name_at) (strcpy_buffer uninit block) d))
      ≡ ((roll (length block) s).offset + length block + 1) % 2 ^ 16
  unfolding name_at
  current-write = rw lookup-current (
      omega (
        arith,
        length-append (contents (name (roll (length block) s).number) d)
            (strcpy_buffer uninit block),
        length-strcpy_buffer uninit block,
        settled.current,
        bounded,
      ))

  fresh-write :
      (m : ℕ)
      → name_at < m
      → lookup (name m) (append_file (name name_at) (strcpy_buffer uninit block) d).files ≡ none
  unfolding name_at
  fresh-write m k =
      rw (lookup-append_file (name name_at) (strcpy_buffer uninit block) (name m) d ds)
        (elim (Bool-cases (bytes_beq (name name_at) (name m))) [
          | inl e ↦
              absurd
                (omega (arith, distinct name_at m ((bytes_beq_iff (name name_at) (name m)).0 e)))
          | inr e ↦ rw e (settled.fresh m k)
        ])

  -- Writing keeps the stream sound.
  pub write_stream-StreamIsSound :
      StreamIsSound name
        (write_stream uninit name block s d).1
        (write_stream uninit name block s d).2
  unfolding write_stream name_at
  write_stream-StreamIsSound = record { current = current-write; fresh = fresh-write }

  -- What is read at the returned place is the buffer that was written, without its last byte.
  pub read-write_stream :
      read_file (write_stream uninit name block s d).0 (write_stream uninit name block s d).2
      ≡ ok (take (length block) (strcpy_buffer uninit block))
  unfolding write_stream name_at
  read-write_stream =
      read_file-appended _ (contents (name (roll (length block) s).number) d)
        (strcpy_buffer uninit block) (length block) _ lookup-current
        (omega (arith, settled.current, bounded)) (omega (arith, settled.current, bounded))
        (omega (arith, length-strcpy_buffer uninit block))

-- Writing to one stream keeps another one sound whose files have other names.
pub write_stream-StreamIsSound_other :
    (uninit : ℕ → ℕ) (name other : ℕ → Bytes) (block : Bytes) (s t : Stream) (d : Disk)
    → ((i j : ℕ) → name i ≢ other j)
    → DiskIsSound d
    → StreamIsSound other t d
    → StreamIsSound other t (write_stream uninit name block s d).2
unfolding write_stream
write_stream-StreamIsSound_other uninit name other block s t d apart ds h = record {
  current = ap (λ o. length (or_empty o)) (untouched t.number) ∙ h.current;
  fresh = λ m k. untouched m ∙ h.fresh m k;
}
  where
    number : ℕ
    number = (roll (length block) s).number

    untouched :
        (m : ℕ)
        → lookup (other m) (append_file (name number) (strcpy_buffer uninit block) d).files
          ≡ lookup (other m) d.files
    untouched m =
        rw (lookup-append_file (name number) (strcpy_buffer uninit block) (other m) d ds)
          (elim (Bool-cases (bytes_beq (name number) (other m))) [
            | inl e ↦ absurd (apart number m ((bytes_beq_iff (name number) (other m)).0 e))
            | inr e ↦ rw e
          ])

pub write_stream-DiskIsSound :
    (uninit : ℕ → ℕ) (name : ℕ → Bytes) (block : Bytes) (s : Stream) (d : Disk)
    → DiskIsSound (write_stream uninit name block s d).2
unfolding write_stream
write_stream-DiskIsSound uninit name block s d = append_file-DiskIsSound _ _ d

-- What could be read before a write is read after it.
pub read_file-write_stream :
    (uninit : ℕ → ℕ) (name : ℕ → Bytes) (block : Bytes) (s : Stream) (d : Disk)
    (location : FileInfo) (t : Bytes)
    → DiskIsSound d
    → read_file location d ≡ ok t
    → read_file location (write_stream uninit name block s d).2 ≡ ok t
unfolding write_stream
read_file-write_stream uninit name block s d location t ds h =
    read_file-append_file location _ _ t d ds h
