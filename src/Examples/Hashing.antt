-- ===== src/Examples/Hashing.antt =====
-- The hash, tried on concrete values.
use rath_db.Common.{◌+◌, ◌≤◌, ◌≡◌, refl, [], ◌∷◌, codes, replicate}
use rath_db.Crypto.{
  hash, digest, absorb, absorb_byte, pad, revert, all_bytes, zero_fill, write_length,
}
use rath_db.Crypto.Compression.{
  transform, rounds, round, extend_words, load_words, rotr, choose, majority, sig0, sig1,
}
use rath_db.Crypto.Reference.{reference_digest}
use rath_db.Crypto.Streaming.{digest-eq-reference_digest}
use rath_db.Crypto.Bounds.{hash-le}

hash-le_example : hash 0 (replicate 64 7) (codes "abc") ≤ 0 + 8160
hash-le_example = hash-le 0 (replicate 64 7) (codes "abc")

-- The digest of "abc" that the standard gives.
digest_abc :
    digest (replicate 64 7) (codes "abc")
    ≡ 0xba ∷ 0x78 ∷ 0x16 ∷ 0xbf ∷ 0x8f ∷ 0x01 ∷ 0xcf ∷ 0xea ∷ 0x41 ∷ 0x41 ∷ 0x40 ∷ 0xde ∷ 0x5d
      ∷ 0xae ∷ 0x22 ∷ 0x23 ∷ 0xb0 ∷ 0x03 ∷ 0x61 ∷ 0xa3 ∷ 0x96 ∷ 0x17 ∷ 0x7a ∷ 0x9c ∷ 0xb4 ∷ 0x10
      ∷ 0xff ∷ 0x61 ∷ 0xf2 ∷ 0x00 ∷ 0x15 ∷ 0xad ∷ []
unfolding digest absorb absorb_byte pad revert all_bytes zero_fill write_length transform rounds
    round extend_words load_words rotr choose majority sig0 sig1
digest_abc = refl

digest-eq-reference_digest_example :
    digest (replicate 64 7) (codes "abc") ≡ reference_digest (codes "abc")
digest-eq-reference_digest_example = digest-eq-reference_digest (replicate 64 7) (codes "abc") refl
