-- ===== src/Crypto/Blocks.antt =====
-- The block array of rathcrypto.cpp: what its loops of writes leave in it.
use rath_db.Common.{
  ℕ, zero, suc, ◌+◌, ◌/◌, ◌^◌, ◌≤◌, ◌≡◌, refl, sym, ap, ◌∙◌, [], ◌∷◌, ◌++◌, Bytes, length, set,
  drop, replicate, set-append, length-append, append_assoc, arith,
}
use rath_db.Crypto.{zero_fill, write_length}
use rath_db.Crypto.Compression.{u8}

-- The length in bits, as eight bytes, the highest first.
abbrev pub length_bytes : ℕ → Bytes
length_bytes bits =
    u8 (bits / 2 ^ 56)
    ∷ u8 (bits / 2 ^ 48)
    ∷ u8 (bits / 2 ^ 40)
    ∷ u8 (bits / 2 ^ 32)
    ∷ u8 (bits / 2 ^ 24)
    ∷ u8 (bits / 2 ^ 16)
    ∷ u8 (bits / 2 ^ 8)
    ∷ u8 bits
    ∷ []

-- `n` zeros are written from the end of `xs` on.
pub zero_fill-append :
    (n i : ℕ) (xs ys : Bytes)
    → i ≡ length xs
    → n ≤ length ys
    → zero_fill n i (xs ++ ys) ≡ xs ++ (replicate n 0 ++ drop n ys)
unfolding zero_fill
zero_fill-append zero i xs ys h le = refl
zero_fill-append (suc n) i xs [] h le = absurd (omega arith)
zero_fill-append (suc n) i xs (y ∷ ys) h le =
    ap (zero_fill n (i + 1))
      (set-append i 0 xs (y ∷ ys) 0 (omega arith) ∙ sym (append_assoc xs (0 ∷ []) ys))
    ∙ zero_fill-append n (i + 1) (xs ++ 0 ∷ []) ys (omega (arith, length-append xs (0 ∷ [])))
        (omega arith)
    ∙ append_assoc xs (0 ∷ []) (replicate n 0 ++ drop n ys)

set_eight :
    (b0 b1 b2 b3 b4 b5 b6 b7 : ℕ) (ys : Bytes)
    → length ys ≡ 8
    → set (set (set (set (set (set (set (set ys 7 b7) 6 b6) 5 b5) 4 b4) 3 b3) 2 b2) 1 b1) 0 b0
      ≡ b0 ∷ b1 ∷ b2 ∷ b3 ∷ b4 ∷ b5 ∷ b6 ∷ b7 ∷ []
set_eight b0 b1 b2 b3 b4 b5 b6 b7 (y0 ∷ y1 ∷ y2 ∷ y3 ∷ y4 ∷ y5 ∷ y6 ∷ y7 ∷ []) h = refl
set_eight b0 b1 b2 b3 b4 b5 b6 b7 _ h = absurd (omega arith)

-- The last eight bytes of a block are overwritten.
pub write_length-append :
    (bits : ℕ) (xs ys : Bytes)
    → length xs ≡ 56
    → length ys ≡ 8
    → write_length bits (xs ++ ys) ≡ xs ++ length_bytes bits
unfolding write_length
write_length-append bits xs ys h k =
    rw
      (
        set-append 63 7 xs ys (u8 bits) (omega arith),
        set-append 62 6 xs _ (u8 (bits / 2 ^ 8)) (omega arith),
        set-append 61 5 xs _ (u8 (bits / 2 ^ 16)) (omega arith),
        set-append 60 4 xs _ (u8 (bits / 2 ^ 24)) (omega arith),
        set-append 59 3 xs _ (u8 (bits / 2 ^ 32)) (omega arith),
        set-append 58 2 xs _ (u8 (bits / 2 ^ 40)) (omega arith),
        set-append 57 1 xs _ (u8 (bits / 2 ^ 48)) (omega arith),
        set-append 56 0 xs _ (u8 (bits / 2 ^ 56)) (omega arith),
      )
      (ap (◌++◌ xs) (set_eight _ _ _ _ _ _ _ _ ys k))
