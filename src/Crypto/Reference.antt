-- ===== src/Crypto/Reference.antt =====
-- SHA-256 as the standard states it: the message is padded as a whole, and its blocks of 64 bytes
-- are compressed one after the other. `RathCrypto::hash` feeds a block array byte by byte.
use rath_db.Common.{
  ℕ, zero, suc, ◌*◌, ◌-◌, ◌/◌, ◌%◌, ◌^◌, ◌≡◌, sym, ap, subst, ◌∙◌, [], ◌∷◌, ◌++◌, Bytes, length,
  take, drop, replicate, length-append, append-nil, arith, take-append, drop-append,
}
use rath_db.Crypto.{initial_state, revert}
use rath_db.Crypto.Compression.{Registers, transform}
use rath_db.Crypto.Blocks.{length_bytes}

unfoldable pub compress_blocks : ℕ → Registers → Bytes → Registers
compress_blocks zero r s = r
compress_blocks (suc n) r s = compress_blocks n (transform r (take 64 s)) (drop 64 s)

-- All whole blocks.
unfoldable pub compress : Registers → Bytes → Registers
unfolding compress_blocks
compress r s = compress_blocks (length s / 64) r s

-- What is added to a message whose last block has `n` bytes: a one bit, zeros, and the length.
abbrev pub padding : ℕ → ℕ → Bytes
padding n bits = 0x80 ∷ replicate ((119 - n) % 64) 0 ++ length_bytes bits

unfoldable pub padded : Bytes → Bytes
padded message = message ++ padding (length message % 64) (8 * length message % 2 ^ 64)

unfoldable pub reference_digest : Bytes → Bytes
reference_digest message = revert (compress initial_state (padded message))

take-block : (block s : Bytes) → length block ≡ 64 → take 64 (block ++ s) ≡ block
take-block block s h = subst (λ (n : ℕ). take n (block ++ s) ≡ block) h (take-append block s)

drop-block : (block s : Bytes) → length block ≡ 64 → drop 64 (block ++ s) ≡ s
drop-block block s h = subst (λ (n : ℕ). drop n (block ++ s) ≡ s) h (drop-append block s)

blocks_suc : (block s : Bytes) → length block ≡ 64 → length (block ++ s) / 64 ≡ suc (length s / 64)
blocks_suc block s h = omega (arith, length-append block s)

pub compress-block :
    (r : Registers) (block s : Bytes)
    → length block ≡ 64
    → compress r (block ++ s) ≡ compress (transform r block) s
unfolding compress compress_blocks
compress-block r block s h = rw (blocks_suc block s h) (
    ap (λ (b : Bytes). compress_blocks (length s / 64) (transform r b) (drop 64 (block ++ s)))
      (take-block block s h)
    ∙ ap (compress_blocks (length s / 64) (transform r block)) (drop-block block s h))

pub compress_one :
    (r : Registers) (block : Bytes) → length block ≡ 64 → compress r block ≡ transform r block
unfolding compress compress_blocks
compress_one r block h = ap (compress r) (sym (append-nil block)) ∙ compress-block r block [] h
