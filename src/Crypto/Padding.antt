-- ===== src/Crypto/Padding.antt =====
-- The blocks that `pad` makes of the block array are those of the padded message.
use rath_db.Common.{
  ℕ, zero, suc, ◌+◌, ◌-◌, ◌%◌, ◌≤◌, ◌<◌, ◌≡◌, refl, sym, ap, ◌∙◌, [], ◌∷◌, ◌++◌, Bytes, length, set,
  drop, replicate, set-append, length-append, length-replicate, length-drop, append_assoc,
  append-nil, arith, replicate-add,
}
use rath_db.Crypto.{zero_fill, write_length}
use rath_db.Crypto.Blocks.{length_bytes, zero_fill-append, write_length-append}
use rath_db.Crypto.Reference.{padding}

regroup : (a b c : Bytes) → ((a ++ 0x80 ∷ []) ++ b) ++ c ≡ a ++ (0x80 ∷ b ++ c)
regroup a b c = append_assoc (a ++ 0x80 ∷ []) b c ∙ append_assoc a (0x80 ∷ []) (b ++ c)

drop-all : (n : ℕ) (xs : Bytes) → length xs ≡ n → drop n xs ≡ []
drop-all n [] h = ground arith
drop-all zero (x ∷ xs) h = absurd (omega arith)
drop-all (suc n) (x ∷ xs) h = drop-all n xs (omega arith)

-- `rest` is what the block array still holds behind the bytes `buf` of the last block.
module _ (buf : Bytes) (x : ℕ) (rest : Bytes) (n bits : ℕ)
    (full_array : length buf + suc (length rest) ≡ 64) (count : n ≡ length buf) where
  marked : set (buf ++ x ∷ rest) n 0x80 ≡ (buf ++ 0x80 ∷ []) ++ rest
  marked =
      set-append n 0 buf (x ∷ rest) 0x80 (omega arith) ∙ sym (append_assoc buf (0x80 ∷ []) rest)

  filled :
      (k : ℕ)
      → k ≤ length rest
      → zero_fill k (n + 1) (set (buf ++ x ∷ rest) n 0x80)
        ≡ ((buf ++ 0x80 ∷ []) ++ replicate k 0) ++ drop k rest
  filled k le =
      ap (zero_fill k (n + 1)) marked
      ∙ (zero_fill-append k (n + 1) (buf ++ 0x80 ∷ []) rest
            (omega (arith, length-append buf (0x80 ∷ []))) le
          ∙ sym (append_assoc (buf ++ 0x80 ∷ []) (replicate k 0) (drop k rest)))

  pub length_filled : (k : ℕ) → length ((buf ++ 0x80 ∷ []) ++ replicate k 0) ≡ n + 1 + k
  length_filled k = omega (
    arith,
    length-append (buf ++ 0x80 ∷ []) (replicate k 0),
    length-append buf (0x80 ∷ []),
    length-replicate {A = ℕ} k 0,
  )

  -- The block that takes the whole padding.
  pub short_block :
      n < 56
      → write_length bits (zero_fill (56 - (n + 1)) (n + 1) (set (buf ++ x ∷ rest) n 0x80))
        ≡ buf ++ padding n bits
  short_block lt =
      let k = 56 - (n + 1) in
      ap (write_length bits) (filled k (omega arith))
      ∙ (write_length-append bits ((buf ++ 0x80 ∷ []) ++ replicate k 0) (drop k rest)
            (omega (arith, length_filled k)) (omega (arith, length-drop k rest))
          ∙ (regroup buf (replicate k 0) (length_bytes bits)
              ∙ ap (λ (j : ℕ). buf ++ (0x80 ∷ replicate j 0 ++ length_bytes bits)) {x = k}
                  {y = (119 - n) % 64} (omega arith)))

  -- The first of two blocks, which the length does not fit.
  pub long_block :
      zero_fill (64 - (n + 1)) (n + 1) (set (buf ++ x ∷ rest) n 0x80)
      ≡ (buf ++ 0x80 ∷ []) ++ replicate (64 - (n + 1)) 0
  long_block =
      filled (64 - (n + 1)) (omega arith)
      ∙ (ap (◌++◌ ((buf ++ 0x80 ∷ []) ++ replicate (64 - (n + 1)) 0))
            (drop-all (64 - (n + 1)) rest (omega arith))
          ∙ append-nil _)

  pub long_padding :
      56 ≤ n
      → buf ++ padding n bits
        ≡ ((buf ++ 0x80 ∷ []) ++ replicate (64 - (n + 1)) 0)
          ++ (replicate 56 0 ++ length_bytes bits)
  long_padding le =
      ap (λ (j : ℕ). buf ++ (0x80 ∷ replicate j 0 ++ length_bytes bits)) {x = (119 - n) % 64}
        {y = (64 - (n + 1)) + 56} (omega arith)
      ∙ (ap (λ (z : Bytes). buf ++ (0x80 ∷ z ++ length_bytes bits))
            (replicate-add (64 - (n + 1)) 56 0)
          ∙ (ap (λ (z : Bytes). buf ++ (0x80 ∷ z))
                (append_assoc (replicate (64 - (n + 1)) 0) (replicate 56 0) (length_bytes bits))
              ∙ sym
                  (regroup buf (replicate (64 - (n + 1)) 0) (replicate 56 0 ++ length_bytes bits))))

-- The second of two blocks: zeros and the length.
pub second_block :
    (bits : ℕ) (full : Bytes)
    → length full ≡ 64
    → write_length bits (zero_fill 56 0 full) ≡ replicate 56 0 ++ length_bytes bits
second_block bits full h =
    ap (write_length bits) (zero_fill-append 56 0 [] full refl (omega arith))
    ∙ write_length-append bits (replicate 56 0) (drop 56 full) refl
        (omega (arith, length-drop 56 full))

pub length-padding : (n bits : ℕ) → length (padding n bits) ≡ 9 + (119 - n) % 64
length-padding n bits = omega (
  arith,
  length-append (0x80 ∷ replicate ((119 - n) % 64) 0) (length_bytes bits),
  length-replicate {A = ℕ} ((119 - n) % 64) 0,
)

pub padding_eq : {m n p q : ℕ} → m ≡ n → p ≡ q → padding m p ≡ padding n q
padding_eq {n} {p} e k = ap (λ (i : ℕ). padding i p) e ∙ ap (padding n) k
