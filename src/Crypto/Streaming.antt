-- ===== src/Crypto/Streaming.antt =====
-- Feeding a message byte by byte, as `RathCrypto::hash` does, compresses the blocks of the padded
-- message.
use rath_db.Common.{
  ℕ, suc, ◌+◌, ◌*◌, ◌-◌, ◌%◌, ◌^◌, ◌≡◌, refl, sym, ap, ◌∙◌, [], ◌∷◌, ◌++◌, Bytes, length, set,
  replicate, set-append, length-append, append_assoc, arith, ◌==◌, Bool-cases, inl, inr, ltb, true,
  false,
}
use rath_db.Crypto.{
  Hasher, initial_state, absorb, absorb_byte, pad, revert, digest, zero_fill, write_length,
}
use rath_db.Crypto.Compression.{Registers, transform, u32}
use rath_db.Crypto.Blocks.{length_bytes}
use rath_db.Crypto.Reference.{
  compress, padding, padded, reference_digest, compress-block, compress_one,
}
use rath_db.Crypto.Padding.{
  short_block, long_block, long_padding, second_block, length_filled, length-padding, padding_eq,
}

-- What the hasher holds: the bytes `buf` of an unfinished block, in an array of 64.
record Fed (h : Hasher) (buf : Bytes) : Type 0 where
  next : ℕ
  rest : Bytes
  array : h.m_data ≡ buf ++ next ∷ rest
  size : length buf + suc (length rest) ≡ 64
  count : h.m_blocklen ≡ length buf

module _ (h : Hasher) (buf : Bytes) (f : Fed h buf) where
  bits_left : ℕ
  bits_left = (h.m_bitlen + u32 (h.m_blocklen * 8)) % 2 ^ 64

  bits_lem : bits_left ≡ (h.m_bitlen + 8 * length buf) % 2 ^ 64
  unfolding bits_left
  bits_lem = omega (arith, f.count, f.size)

  first_block : Bytes
  first_block = (buf ++ 0x80 ∷ []) ++ replicate (64 - (h.m_blocklen + 1)) 0

  length_first : length first_block ≡ 64
  unfolding first_block
  length_first = omega (
    arith,
    f.size,
    f.count,
    length_filled buf f.next f.rest h.m_blocklen bits_left f.size f.count (64 - (h.m_blocklen + 1)),
  )

  pad-compress : pad h ≡ compress h.m_state (buf ++ padding h.m_blocklen bits_left)
  unfolding pad bits_left first_block
  pad-compress = elim (Bool-cases (ltb h.m_blocklen 56)) [
    | inl short ↦
        rw (short, f.array)
          (ap (transform h.m_state)
              (short_block buf f.next f.rest h.m_blocklen bits_left f.size f.count (ground arith))
            ∙ sym (
                compress_one h.m_state (buf ++ padding h.m_blocklen bits_left) (
                  ground (
                    arith,
                    f.count,
                    f.size,
                    length-append buf (padding h.m_blocklen bits_left),
                    length-padding h.m_blocklen bits_left,
                  ))))
    | inr long ↦
        rw (long, f.array)
          (ap
              (λ (b : Bytes).
                transform (transform h.m_state b) (write_length bits_left (zero_fill 56 0 b)))
              (long_block buf f.next f.rest h.m_blocklen bits_left f.size f.count)
            ∙ (ap (transform (transform h.m_state first_block))
                  (second_block bits_left first_block length_first)
                ∙ (sym (
                      compress_one (transform h.m_state first_block)
                        (replicate 56 0 ++ length_bytes bits_left) refl)
                    ∙ (sym (
                          compress-block h.m_state first_block
                            (replicate 56 0 ++ length_bytes bits_left) length_first)
                        ∙ ap (compress h.m_state) (
                            sym (
                              long_padding buf f.next f.rest h.m_blocklen bits_left f.size f.count
                                (ground arith)))))))
  ]

nonempty : (xs : Bytes) → length xs ≡ 64 → (x : ℕ) × (rest : Bytes) × (xs ≡ x ∷ rest)
nonempty [] h = absurd (omega arith)
nonempty (x ∷ rest) h = (x, rest, refl)

-- The block goes on, or it is full and has been compressed.
data Absorbed (h h' : Hasher) (buf : Bytes) (b : ℕ) : Type 0 where
  goes_on :
      Fed h' (buf ++ b ∷ [])
      → h'.m_state ≡ h.m_state
      → h'.m_bitlen ≡ h.m_bitlen
      → Absorbed h h' buf b
  is_full :
      length (buf ++ b ∷ []) ≡ 64
      → Fed h' []
      → h'.m_state ≡ transform h.m_state (buf ++ b ∷ [])
      → h'.m_bitlen ≡ (h.m_bitlen + 512) % 2 ^ 64
      → Absorbed h h' buf b

written :
    (b : ℕ) (h : Hasher) (buf : Bytes) (f : Fed h buf)
    → set h.m_data h.m_blocklen b ≡ buf ++ b ∷ f.rest
written b h buf f =
    rw f.array (set-append h.m_blocklen 0 buf (f.next ∷ f.rest) b (omega (arith, f.count)))

absorb_byte-Absorbed :
    (b : ℕ) (h : Hasher) (buf rest : Bytes) (f : Fed h buf)
    → f.rest ≡ rest
    → Absorbed h (absorb_byte b h) buf b
unfolding absorb_byte
absorb_byte-Absorbed b h buf [] f last =
    let full : (h.m_blocklen + 1 == 64) ≡ true = ground (arith, f.count, f.size, ap length last) in
    let whole : length (buf ++ b ∷ []) ≡ 64 =
      omega (arith, f.size, ap length last, length-append buf (b ∷ [])) in
    let done : set h.m_data h.m_blocklen b ≡ buf ++ b ∷ [] =
      written b h buf f ∙ ap (λ (r : Bytes). buf ++ b ∷ r) last in
    let (x, rest, e) = nonempty (buf ++ b ∷ []) whole in
    is_full whole
      (rw full (record {
        next = x;
        rest = rest;
        array = done ∙ e;
        size = omega (arith, whole, ap length e);
        count = refl;
      }))
      (rw full (ap (transform h.m_state) done)) (rw full)
absorb_byte-Absorbed b h buf (y ∷ rest) f more =
    let not_full : (h.m_blocklen + 1 == 64) ≡ false =
      ground (arith, f.count, f.size, ap length more) in
    goes_on
      (rw not_full (record {
        next = y;
        rest = rest;
        array =
            written b h buf f
            ∙ (ap (λ (r : Bytes). buf ++ b ∷ r) more ∙ sym (append_assoc buf (b ∷ []) (y ∷ rest)));
        size = omega (arith, f.size, ap length more, length-append buf (b ∷ []));
        count = omega (arith, f.count, length-append buf (b ∷ []));
      }))
      (rw not_full) (rw not_full)

-- The padding behind `n` more bytes than the hasher was fed.
abbrev end_of : Hasher → ℕ → Bytes
end_of h n = padding (n % 64) ((h.m_bitlen + 8 * n) % 2 ^ 64)

absorb_step :
    (b : ℕ) (s : Bytes) (h h' : Hasher) (buf : Bytes)
    → Absorbed h h' buf b
    → ((buf' : Bytes)
        → Fed h' buf'
        → pad (absorb s h')
          ≡ compress h'.m_state (buf' ++ (s ++ end_of h' (length buf' + length s))))
    → pad (absorb s h')
      ≡ compress h.m_state (buf ++ (b ∷ s ++ end_of h (length buf + length (b ∷ s))))
absorb_step b s h h' buf (goes_on f same bits) rec =
    let n = length (buf ++ b ∷ []) + length s in
    rec (buf ++ b ∷ []) f
    ∙ (ap (λ (r : Registers). compress r ((buf ++ b ∷ []) ++ (s ++ end_of h' n))) same
        ∙ ap (compress h.m_state) (
            append_assoc buf (b ∷ []) (s ++ end_of h' n)
            ∙ ap (λ (t : Bytes). buf ++ (b ∷ (s ++ t)))
                (padding_eq (omega (arith, length-append buf (b ∷ [])))
                  (omega (arith, bits, length-append buf (b ∷ []))))))
absorb_step b s h h' buf (is_full whole f state bits) rec =
    rec [] f
    ∙ (ap (λ (r : Registers). compress r (s ++ end_of h' (0 + length s))) state
        ∙ (sym (compress-block h.m_state (buf ++ b ∷ []) (s ++ end_of h' (0 + length s)) whole)
            ∙ ap (compress h.m_state) (
                append_assoc buf (b ∷ []) (s ++ end_of h' (0 + length s))
                ∙ ap (λ (t : Bytes). buf ++ (b ∷ (s ++ t)))
                    (padding_eq (omega (arith, whole, length-append buf (b ∷ [])))
                      (omega (arith, bits, whole, length-append buf (b ∷ [])))))))

absorb-compress :
    (s : Bytes) (h : Hasher) (buf : Bytes)
    → Fed h buf
    → pad (absorb s h) ≡ compress h.m_state (buf ++ (s ++ end_of h (length buf + length s)))
unfolding absorb
absorb-compress [] h buf f =
    pad-compress h buf f
    ∙ ap (λ (t : Bytes). compress h.m_state (buf ++ t))
        (padding_eq (omega (arith, f.count, f.size)) (omega (arith, bits_lem h buf f)))
absorb-compress (b ∷ s) h buf f =
    absorb_step b s h (absorb_byte b h) buf (absorb_byte-Absorbed b h buf f.rest f refl)
      (absorb-compress s (absorb_byte b h))

-- For every message, and whatever the 64 bytes of the block array hold at first, feeding the
-- message byte by byte and padding the last block gives the digest that comes from padding the
-- message as a whole, as SHA-256 says, and compressing its blocks of 64 bytes in order.
pub digest-eq-reference_digest :
    (block message : Bytes) → length block ≡ 64 → digest block message ≡ reference_digest message
unfolding digest reference_digest padded
digest-eq-reference_digest block message h =
    let (x, rest, e) = nonempty block h in
    ap revert (
      absorb-compress message
        (record { m_state = initial_state; m_data = block; m_blocklen = 0; m_bitlen = 0 }) []
        (record {
          next = x;
          rest = rest;
          array = e;
          size = omega (arith, h, ap length e);
          count = refl;
        })
      ∙ ap (λ (t : Bytes). compress initial_state (message ++ t))
          (padding_eq (omega arith) (omega arith)))
