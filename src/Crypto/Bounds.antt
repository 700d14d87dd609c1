-- ===== src/Crypto/Bounds.antt =====
-- The bytes of the digest and the sum that `RathCrypto::hash` makes of them.
use rath_db.Common.{
  ℕ, ◌+◌, ◌*◌, ◌%◌, ◌^◌, ◌≤◌, ◌<◌, ◌≡◌, refl, List, [], ◌∷◌, length, All, All-append, Bytes, arith,
}
use rath_db.Crypto.{hash, word_bytes, all_bytes, digest, revert, add_bytes}
use rath_db.Crypto.Compression.{Registers}

add_bytes-le :
    (hashd : ℕ) (s : Bytes) → All (λ b. b < 256) s → add_bytes hashd s ≤ hashd + 255 * length s
unfolding add_bytes
add_bytes-le hashd [] h = omega arith
add_bytes-le hashd (b ∷ s) (lt, h) = omega (arith, add_bytes-le ((hashd + b) % 2 ^ 32) s h)

word_bytes-All : (w : ℕ) → All (λ b. b < 256) (word_bytes w)
word_bytes-All w = (omega arith, (omega arith, (omega arith, (omega arith, tt))))

all_bytes-All : (ws : List ℕ) → All (λ b. b < 256) (all_bytes ws)
unfolding all_bytes
all_bytes-All [] = tt
all_bytes-All (w ∷ ws) =
    All-append (λ b. b < 256) (word_bytes w) (all_bytes ws) (word_bytes-All w) (all_bytes-All ws)

revert-All : (r : Registers) → All (λ b. b < 256) (revert r)
unfolding revert
revert-All r = all_bytes-All (r.s0 ∷ r.s1 ∷ r.s2 ∷ r.s3 ∷ r.s4 ∷ r.s5 ∷ r.s6 ∷ r.s7 ∷ [])

length-revert : (r : Registers) → length (revert r) ≡ 32
unfolding revert all_bytes
length-revert r = refl

-- The hash of a message is at most 8160 above what the variable of the sum holds before, so from 0
-- it has at most 8161 values.
pub hash-le : (hashd : ℕ) (block message : Bytes) → hash hashd block message ≤ hashd + 8160
unfolding hash digest
hash-le hashd block message =
    omega (arith, add_bytes-le hashd (digest block message) (revert-All _), length-revert _)

add_bytes-shift :
    (hashd : ℕ) (s : Bytes) → hashd < 2 ^ 32 → add_bytes hashd s ≡ (hashd + add_bytes 0 s) % 2 ^ 32
unfolding add_bytes
add_bytes-shift hashd [] h = omega arith
add_bytes-shift hashd (b ∷ s) h = omega (
  arith,
  add_bytes-shift ((hashd + b) % 2 ^ 32) s (omega arith),
  add_bytes-shift ((0 + b) % 2 ^ 32) s (omega arith),
)
