-- ===== src/Writer/FileSystem/Appending.antt =====
-- The lemmas on files that the writer's properties rest on: appending, and reading a slice.
use rath_db.Common.{
  ℕ, zero, suc, ◌+◌, ◌-◌, ◌≤◌, ◌≡◌, ◌≢◌, refl, ap, inl, inr, true, false, [], ◌∷◌, ◌++◌, Bytes,
  Option, none, some, length, take, drop, ◌==◌, if◌then◌else◌, bytes_beq, bytes_beq_iff, bytes_eq,
  ok, All, arith, Bool-cases, drop-append,
}
use rath_db.Common.Map.{lookup, lookup-insert, beq_refl}
use rath_db.Writer.Info.{FileInfo}
use rath_db.Writer.FileSystem.{
  Disk, contents, or_empty, append_file, reopen, read_slice, read_opened, read_file, stale,
  strcpy_from, strcpy_buffer,
}

-- No file is there before the directory is.
pub record DiskIsSound (d : Disk) : Type 0 where
  pub no_files : d.directory ≡ false → (f : Bytes) → lookup f d.files ≡ none

pub lookup-append_file :
    (name chars f : Bytes) (d : Disk)
    → DiskIsSound d
    → lookup f (append_file name chars d).files
      ≡ (if bytes_beq name f then some (contents name d ++ chars) else lookup f d.files)
unfolding append_file reopen
lookup-append_file name chars f d h = elim (Bool-cases d.directory) [
  | inl e ↦ rw e (simp lookup-insert (ground (arith, beq_refl name)))
  | inr e ↦ rw e (simp lookup-insert (ground (arith, beq_refl name, h.no_files e name)))
]

pub directory-append_file :
    (name chars : Bytes) (d : Disk) → (append_file name chars d).directory ≡ true
unfolding append_file reopen
directory-append_file name chars d = ground arith

pub append_file-DiskIsSound :
    (name chars : Bytes) (d : Disk) → DiskIsSound (append_file name chars d)
append_file-DiskIsSound name chars d = record {
  no_files = λ e f. cc (directory-append_file name chars d, e);
}

-- A text without a zero byte is copied whole, with its terminator.
strcpy_from-text :
    (u : ℕ → ℕ) (i : ℕ) (s : Bytes) → All (λ c. c ≢ 0) s → strcpy_from u i s ≡ s ++ 0 ∷ []
unfolding strcpy_from
strcpy_from-text u i [] _ = refl
strcpy_from-text u i (c ∷ s) (hc, hs) = ground (arith, strcpy_from-text u (suc i) s hs)

pub strcpy_buffer-text :
    (u : ℕ → ℕ) (s : Bytes) → All (λ c. c ≢ 0) s → strcpy_buffer u s ≡ s ++ 0 ∷ []
unfolding strcpy_buffer
strcpy_buffer-text u s h = strcpy_from-text u 0 s h

length-stale : (u : ℕ → ℕ) (i k : ℕ) → length (stale u i k) ≡ k
unfolding stale
length-stale u i zero = refl
length-stale u i (suc k) = ap suc (length-stale u (suc i) k)

length-strcpy_from : (u : ℕ → ℕ) (i : ℕ) (s : Bytes) → length (strcpy_from u i s) ≡ suc (length s)
unfolding strcpy_from
length-strcpy_from u i [] = refl
length-strcpy_from u i (c ∷ s) = elim (Bool-cases (c == 0)) [
  | inl e ↦ rw e (ap suc (length-stale u (suc i) (suc (length s))))
  | inr e ↦ rw e (ap suc (length-strcpy_from u (suc i) s))
]

pub length-strcpy_buffer : (u : ℕ → ℕ) (s : Bytes) → length (strcpy_buffer u s) ≡ suc (length s)
unfolding strcpy_buffer
length-strcpy_buffer u s = length-strcpy_from u 0 s

-- What follows the first zero byte is what the stack held, and not the text.
strcpy_buffer-zero :
    (u : ℕ → ℕ) (p s : Bytes)
    → All (λ c. c ≢ 0) p
    → strcpy_buffer u (p ++ 0 ∷ s) ≡ p ++ 0 ∷ stale u (suc (length p)) (suc (length s))
unfolding strcpy_buffer
strcpy_buffer-zero u p s h = go 0 (length p) p h (omega arith)
  where
    go :
        (i k : ℕ) (p : Bytes)
        → All (λ c. c ≢ 0) p
        → k ≡ i + length p
        → strcpy_from u i (p ++ 0 ∷ s) ≡ p ++ 0 ∷ stale u (suc k) (suc (length s))
    go i k [] _ e =
        unfold strcpy_from in ap (λ (n : ℕ). 0 ∷ stale u (suc n) (suc (length s))) (omega arith)
    go i k (c ∷ p) (hc, hp) e =
        unfold strcpy_from in ground (arith, go (suc i) k p hp (omega arith))

take-stale : (u : ℕ → ℕ) (i k : ℕ) → take k (stale u i (suc k)) ≡ stale u i k
unfolding stale
take-stale u i zero = refl
take-stale u i (suc k) = ap (◌∷◌ (u i)) (take-stale u (suc i) k)

take-prefix :
    (u : ℕ → ℕ) (p s : Bytes) (i : ℕ)
    → take (length (p ++ 0 ∷ s)) (p ++ 0 ∷ stale u i (suc (length s)))
      ≡ p ++ 0 ∷ stale u i (length s)
take-prefix u [] s i = ap (◌∷◌ 0) (take-stale u i (length s))
take-prefix u (c ∷ p) s i = ap (◌∷◌ c) (take-prefix u p s i)

-- The bytes of the buffer that the text's length covers.
pub take-strcpy_buffer_zero :
    (u : ℕ → ℕ) (p s : Bytes)
    → All (λ c. c ≢ 0) p
    → take (length (p ++ 0 ∷ s)) (strcpy_buffer u (p ++ 0 ∷ s))
      ≡ p ++ 0 ∷ stale u (suc (length p)) (length s)
take-strcpy_buffer_zero u p s h =
    rw (strcpy_buffer-zero u p s h) (take-prefix u p s (suc (length p)))

take-append_full : (n : ℕ) (c r : Bytes) → length (take n c) ≡ n → take n (c ++ r) ≡ take n c
take-append_full zero c r h = refl
take-append_full (suc n) [] r h = absurd (omega arith)
take-append_full (suc n) (x ∷ c) r h = ap (◌∷◌ x) (take-append_full n c r (omega arith))

slice-append :
    (n start : ℕ) (c r : Bytes)
    → length (take n (drop start c)) ≡ n
    → take n (drop start (c ++ r)) ≡ take n (drop start c)
slice-append n zero c r h = take-append_full n c r h
slice-append zero (suc start) [] r h = refl
slice-append (suc n) (suc start) [] r h = absurd (omega arith)
slice-append n (suc start) (x ∷ c) r h = slice-append n start c r h

-- A slice that lies inside the content is not changed by what is appended.
read_slice-append :
    (start end : ℕ) (c r t : Bytes)
    → read_slice start end c ≡ ok t
    → read_slice start end (c ++ r) ≡ ok t
unfolding read_slice
read_slice-append start end c r t h = ground (arith, slice-append (end - start) start c r)

-- The bytes of the slice right behind a content are the first bytes of what was appended to it.
read_slice-appended :
    (c r : Bytes) (n : ℕ)
    → n ≤ length r
    → read_slice (length c) (length c + n) (c ++ r) ≡ ok (take n r)
unfolding read_slice
read_slice-appended c r n h = rw (drop-append c r, width) (ground (arith, length-take_of_le n r h))
  where
    width : length c + n - length c ≡ n
    width = omega arith

    length-take_of_le : (n : ℕ) (r : Bytes) → n ≤ length r → length (take n r) ≡ n
    length-take_of_le zero r h = refl
    length-take_of_le (suc n) [] h = absurd (omega arith)
    length-take_of_le (suc n) (x ∷ r) h = ap suc (length-take_of_le n r (omega arith))

-- What was appended to a file is read at the offset that the file ended at.
pub read_file-appended :
    (location : FileInfo) (c r : Bytes) (n : ℕ) (d : Disk)
    → lookup location.file_name d.files ≡ some (c ++ r)
    → location.start ≡ length c
    → location.end ≡ length c + n
    → n ≤ length r
    → read_file location d ≡ ok (take n r)
unfolding read_file read_opened
read_file-appended location c r n d h hs he hn = rw (h, hs, he) (read_slice-appended c r n hn)

read_opened-append :
    (start end : ℕ) (o : Option Bytes) (r t : Bytes)
    → read_opened start end o ≡ ok t
    → read_opened start end (some (or_empty o ++ r)) ≡ ok t
unfolding read_opened
read_opened-append start end none r t h = cc
read_opened-append start end (some c) r t h = read_slice-append start end c r t h

-- What can be read stays readable, with the same bytes, whatever is appended to any file.
pub read_file-append_file :
    (location : FileInfo) (name chars t : Bytes) (d : Disk)
    → DiskIsSound d
    → read_file location d ≡ ok t
    → read_file location (append_file name chars d) ≡ ok t
unfolding read_file
read_file-append_file location name chars t d s h =
    rw (lookup-append_file name chars location.file_name d s)
      (elim (Bool-cases (bytes_beq name location.file_name)) [
        | inl e ↦
            rw (e, (bytes_beq_iff name location.file_name).0 e)
              (read_opened-append location.start location.end _ chars t h)
        | inr e ↦ rw e h
      ])
