-- ===== src/Crypto/Compression.antt =====
-- The compression function of rathcrypto.cpp: `transform` and the word functions it uses.
use Prim.Native.Nat.{bit_and, bit_or, bit_xor}
use rath_db.Common.{
  ℕ, zero, suc, ◌+◌, ◌*◌, ◌-◌, ◌/◌, ◌%◌, ◌^◌, List, [], ◌∷◌, reverse, get_or, Bytes,
}

abbrev pub u8 : ℕ → ℕ
u8 n = n % 2 ^ 8

abbrev pub u32 : ℕ → ℕ
u32 n = n % 2 ^ 32

abbrev pub k_table : List ℕ
k_table =
    0x428a2f98 ∷ 0x71374491 ∷ 0xb5c0fbcf ∷ 0xe9b5dba5 ∷ 0x3956c25b ∷ 0x59f111f1 ∷ 0x923f82a4
    ∷ 0xab1c5ed5 ∷ 0xd807aa98 ∷ 0x12835b01 ∷ 0x243185be ∷ 0x550c7dc3 ∷ 0x72be5d74 ∷ 0x80deb1fe
    ∷ 0x9bdc06a7 ∷ 0xc19bf174 ∷ 0xe49b69c1 ∷ 0xefbe4786 ∷ 0x0fc19dc6 ∷ 0x240ca1cc ∷ 0x2de92c6f
    ∷ 0x4a7484aa ∷ 0x5cb0a9dc ∷ 0x76f988da ∷ 0x983e5152 ∷ 0xa831c66d ∷ 0xb00327c8 ∷ 0xbf597fc7
    ∷ 0xc6e00bf3 ∷ 0xd5a79147 ∷ 0x06ca6351 ∷ 0x14292967 ∷ 0x27b70a85 ∷ 0x2e1b2138 ∷ 0x4d2c6dfc
    ∷ 0x53380d13 ∷ 0x650a7354 ∷ 0x766a0abb ∷ 0x81c2c92e ∷ 0x92722c85 ∷ 0xa2bfe8a1 ∷ 0xa81a664b
    ∷ 0xc24b8b70 ∷ 0xc76c51a3 ∷ 0xd192e819 ∷ 0xd6990624 ∷ 0xf40e3585 ∷ 0x106aa070 ∷ 0x19a4c116
    ∷ 0x1e376c08 ∷ 0x2748774c ∷ 0x34b0bcb5 ∷ 0x391c0cb3 ∷ 0x4ed8aa4a ∷ 0x5b9cca4f ∷ 0x682e6ff3
    ∷ 0x748f82ee ∷ 0x78a5636f ∷ 0x84c87814 ∷ 0x8cc70208 ∷ 0x90befffa ∷ 0xa4506ceb ∷ 0xbef9a3f7
    ∷ 0xc67178f2 ∷ []

unfoldable pub rotr : ℕ → ℕ → ℕ
rotr x n = bit_or (x / 2 ^ n) (u32 (x * 2 ^ (32 - n)))

unfoldable pub choose : ℕ → ℕ → ℕ → ℕ
choose e f g = bit_xor (bit_and e f) (bit_and (2 ^ 32 - 1 - e) g)

unfoldable pub majority : ℕ → ℕ → ℕ → ℕ
majority a b c = bit_or (bit_and a (bit_or b c)) (bit_and b c)

unfoldable pub sig0 : ℕ → ℕ
unfolding rotr
sig0 x = bit_xor (bit_xor (rotr x 7) (rotr x 18)) (x / 2 ^ 3)

unfoldable pub sig1 : ℕ → ℕ
unfolding rotr
sig1 x = bit_xor (bit_xor (rotr x 17) (rotr x 19)) (x / 2 ^ 10)

-- `m_state` and `state`, arrays of eight words.
pub record Registers : Type 0 where
  pub s0 : ℕ
  pub s1 : ℕ
  pub s2 : ℕ
  pub s3 : ℕ
  pub s4 : ℕ
  pub s5 : ℕ
  pub s6 : ℕ
  pub s7 : ℕ

-- The first 16 words, of four bytes each, the highest first.
unfoldable pub load_words : Bytes → List ℕ
load_words (a ∷ b ∷ c ∷ d ∷ s) =
    bit_or (bit_or (bit_or (u32 (a * 2 ^ 24)) (b * 2 ^ 16)) (c * 2 ^ 8)) d ∷ load_words s
load_words _ = []

-- The next words, from those before, the newest first: m[k - 2] is the second.
unfoldable pub extend_words : ℕ → List ℕ → List ℕ
extend_words zero ws = ws
extend_words (suc n) ws =
    let w = u32 (sig1 (get_or ws 1 0) + get_or ws 6 0 + sig0 (get_or ws 14 0) + get_or ws 15 0) in
    extend_words n (w ∷ ws)

-- One round, on the word m[i] and the constant K[i].
unfoldable pub round : ℕ → ℕ → Registers → Registers
round w k r =
    let maj = majority r.s0 r.s1 r.s2 in
    let xor_a = bit_xor (bit_xor (rotr r.s0 2) (rotr r.s0 13)) (rotr r.s0 22) in
    let ch = choose r.s4 r.s5 r.s6 in
    let xor_e = bit_xor (bit_xor (rotr r.s4 6) (rotr r.s4 11)) (rotr r.s4 25) in
    let sum = u32 (w + k + r.s7 + ch + xor_e) in
    record {
      s0 = u32 (xor_a + maj + sum);
      s1 = r.s0;
      s2 = r.s1;
      s3 = r.s2;
      s4 = u32 (r.s3 + sum);
      s5 = r.s4;
      s6 = r.s5;
      s7 = r.s6;
    }

unfoldable pub rounds : List ℕ → List ℕ → Registers → Registers
rounds (w ∷ ws) (k ∷ ks) r = rounds ws ks (round w k r)
rounds _ _ r = r

abbrev pub add_registers : Registers → Registers → Registers
add_registers a b = record {
  s0 = u32 (a.s0 + b.s0);
  s1 = u32 (a.s1 + b.s1);
  s2 = u32 (a.s2 + b.s2);
  s3 = u32 (a.s3 + b.s3);
  s4 = u32 (a.s4 + b.s4);
  s5 = u32 (a.s5 + b.s5);
  s6 = u32 (a.s6 + b.s6);
  s7 = u32 (a.s7 + b.s7);
}

unfoldable pub transform : Registers → Bytes → Registers
transform m_state m_data =
    let words = reverse (extend_words 48 (reverse (load_words m_data))) in
    add_registers m_state (rounds words k_table m_state)
