-- ===== src/Crypto.antt =====
-- core/include/crypto/rathcrypto.h and core/src/crypto/rathcrypto.cpp: SHA-256, whose 32 bytes are
-- then added up. The arrays are lists: m_data has 64 entries, and what it holds before it is written
-- is a parameter, as is the sum's variable, which the code does not set.
pub mod Compression
pub mod Bounds
pub mod Blocks
pub mod Reference
pub mod Padding
pub mod Streaming
use rath_db.Common.{
  ℕ, zero, suc, ◌+◌, ◌*◌, ◌-◌, ◌/◌, ◌%◌, ◌^◌, List, [], ◌∷◌, ◌++◌, set, Bytes, ltb, ◌==◌,
  if◌then◌else◌,
}
use Compression.{Registers, transform, u8, u32}

-- The variables of `hash` that its loop changes.
pub record Hasher : Type 0 where
  pub m_state : Registers
  pub m_data : Bytes
  pub m_blocklen : ℕ
  pub m_bitlen : ℕ

abbrev pub initial_state : Registers
initial_state = record {
  s0 = 0x6a09e667;
  s1 = 0xbb67ae85;
  s2 = 0x3c6ef372;
  s3 = 0xa54ff53a;
  s4 = 0x510e527f;
  s5 = 0x9b05688c;
  s6 = 0x1f83d9ab;
  s7 = 0x5be0cd19;
}

-- One round of the loop over the message.
unfoldable pub absorb_byte : ℕ → Hasher → Hasher
absorb_byte b h =
    let block = set h.m_data h.m_blocklen b in
    let count = h.m_blocklen + 1 in
    if count == 64
    then record {
      m_state = transform h.m_state block;
      m_data = block;
      m_blocklen = 0;
      m_bitlen = (h.m_bitlen + 512) % 2 ^ 64;
    }
    else record h { m_data = block; m_blocklen = count }

unfoldable pub absorb : Bytes → Hasher → Hasher
absorb [] h = h
absorb (b ∷ s) h = absorb s (absorb_byte b h)

-- `while (i < end) m_data[i++] = 0x00`, for the rounds that are left.
unfoldable pub zero_fill : ℕ → ℕ → Bytes → Bytes
zero_fill zero i block = block
zero_fill (suc n) i block = zero_fill n (i + 1) (set block i 0)

-- The length in bits, in the last eight bytes, the lowest byte last.
unfoldable pub write_length : ℕ → Bytes → Bytes
write_length bits block =
    let d63 = set block 63 (u8 bits) in
    let d62 = set d63 62 (u8 (bits / 2 ^ 8)) in
    let d61 = set d62 61 (u8 (bits / 2 ^ 16)) in
    let d60 = set d61 60 (u8 (bits / 2 ^ 24)) in
    let d59 = set d60 59 (u8 (bits / 2 ^ 32)) in
    let d58 = set d59 58 (u8 (bits / 2 ^ 40)) in
    let d57 = set d58 57 (u8 (bits / 2 ^ 48)) in set d57 56 (u8 (bits / 2 ^ 56))

-- The last block, or the last two. `m_blocklen * 8` is a product of 32-bit integers.
unfoldable pub pad : Hasher → Registers
pad h =
    let marked = set h.m_data h.m_blocklen 0x80 in
    let bits = (h.m_bitlen + u32 (h.m_blocklen * 8)) % 2 ^ 64 in
    if ltb h.m_blocklen 56
    then transform h.m_state
        (write_length bits (zero_fill (56 - (h.m_blocklen + 1)) (h.m_blocklen + 1) marked))
    else (let full = zero_fill (64 - (h.m_blocklen + 1)) (h.m_blocklen + 1) marked in
        transform (transform h.m_state full) (write_length bits (zero_fill 56 0 full)))

-- The four bytes of a word, the highest first.
abbrev pub word_bytes : ℕ → Bytes
word_bytes w = (w / 2 ^ 24) % 256 ∷ (w / 2 ^ 16) % 256 ∷ (w / 2 ^ 8) % 256 ∷ w % 256 ∷ []

unfoldable pub all_bytes : List ℕ → Bytes
all_bytes [] = []
all_bytes (w ∷ ws) = word_bytes w ++ all_bytes ws

-- The bytes of `hash`: byte i of word j stands at position i + 4 * j.
unfoldable pub revert : Registers → Bytes
unfolding all_bytes
revert r = all_bytes (r.s0 ∷ r.s1 ∷ r.s2 ∷ r.s3 ∷ r.s4 ∷ r.s5 ∷ r.s6 ∷ r.s7 ∷ [])

unfoldable pub digest : Bytes → Bytes → Bytes
digest block message = revert (
    pad (
      absorb message
        (record { m_state = initial_state; m_data = block; m_blocklen = 0; m_bitlen = 0 })))

-- The loop that adds the bytes to `hashd`.
unfoldable pub add_bytes : ℕ → Bytes → ℕ
add_bytes hashd [] = hashd
add_bytes hashd (b ∷ s) = add_bytes ((hashd + b) % 2 ^ 32) s

-- `hashd` is what the variable holds, and `block` what the array holds.
unfoldable pub hash : ℕ → Bytes → Bytes → ℕ
hash hashd block message = add_bytes hashd (digest block message)
