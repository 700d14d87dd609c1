-- ===== src/Coins/Locator.antt =====
-- `CoinLocator` of coin_database.h and coin_database.cpp: a transaction hash and an output index,
-- as the text `hash-index` by which the cache finds a coin.
use rath_db.Common.{
  ℕ, ◌%◌, ◌^◌, ◌<◌, ◌≡◌, refl, sym, ap, ◌∙◌, Bool, true, false, ◌||◌, [], ◌∷◌, ◌++◌, Bytes, codes,
  Option, none, some, ◌==◌, if◌then◌else◌, All, arith, Outcome, ok, stopped, ◌>>=◌,
}
use rath_db.Text.{to_string, stoul}
use rath_db.Text.RoundTrip.{IsDigit, to_string-IsDigit, stoul-to_string, to_string-injective}

pub record CoinLocator : Type 0 where
  pub transaction_hash : ℕ
  pub output_index : ℕ

-- The constructor: the index is of type `uint8_t`. (`stoul` gives an `unsigned long`, which is
-- converted to `uint32_t` where `deserialize` passes it on.)
abbrev pub make_locator : ℕ → ℕ → CoinLocator
make_locator hash index = record { transaction_hash = hash; output_index = index % 256 }

unfoldable pub serialize : CoinLocator → Bytes
serialize l = to_string l.transaction_hash ++ codes "-" ++ to_string l.output_index

unfoldable pub serialize_from_construct : ℕ → ℕ → Bytes
serialize_from_construct hash index = to_string hash ++ codes "-" ++ to_string (index % 256)

-- `substr(0, find("-"))`; without a dash the whole text.
before_dash : Bytes → Bytes
before_dash [] = []
before_dash (c ∷ s) = if c == b'-' then [] else c ∷ before_dash s

has_dash : Bytes → Bool
has_dash [] = false
has_dash (c ∷ s) = c == b'-' || has_dash s

after_first : Bytes → Bytes
after_first [] = []
after_first (c ∷ s) = if c == b'-' then s else after_first s

-- `substr(find("-") + 1, size())`; without a dash, `npos + 1` is 0 and it is the whole text.
after_dash : Bytes → Bytes
unfolding has_dash after_first
after_dash s = if has_dash s then after_first s else s

-- What `stoul` throws is not caught.
or_throw : Option ℕ → Outcome ℕ
or_throw none = stopped
or_throw (some n) = ok n

unfoldable pub deserialize : Bytes → Outcome CoinLocator
unfolding before_dash after_dash or_throw
deserialize s = do
  hash ← or_throw (stoul (before_dash s))
  index ← or_throw (stoul (after_dash s))
  ok (make_locator (hash % 2 ^ 32) index)

before_dash-append : (p s : Bytes) → All IsDigit p → before_dash ((p ++ codes "-") ++ s) ≡ p
unfolding before_dash
before_dash-append [] s _ = refl
before_dash-append (c ∷ p) s (hc, hp) = ground (arith, before_dash-append p s hp)

has_dash-append : (p s : Bytes) → has_dash ((p ++ codes "-") ++ s) ≡ true
unfolding has_dash
has_dash-append [] s = refl
has_dash-append (c ∷ p) s = ground (arith, has_dash-append p s)

after_first-append : (p s : Bytes) → All IsDigit p → after_first ((p ++ codes "-") ++ s) ≡ s
unfolding after_first
after_first-append [] s _ = refl
after_first-append (c ∷ p) s (hc, hp) = ground (arith, after_first-append p s hp)

after_dash-append : (p s : Bytes) → All IsDigit p → after_dash ((p ++ codes "-") ++ s) ≡ s
unfolding after_dash
after_dash-append p s h = rw (has_dash-append p s) (after_first-append p s h)

-- A locator with a 32-bit hash and an 8-bit index is read back from its text.
pub deserialize-serialize_locator :
    (l : CoinLocator)
    → l.transaction_hash < 2 ^ 32
    → l.output_index < 256
    → deserialize (serialize l) ≡ ok l
unfolding deserialize serialize
deserialize-serialize_locator l hh hi =
    rw
      (
        before_dash-append (to_string l.transaction_hash) (to_string l.output_index)
            (to_string-IsDigit _),
        after_dash-append (to_string l.transaction_hash) (to_string l.output_index)
            (to_string-IsDigit _),
        stoul-to_string l.transaction_hash,
        stoul-to_string l.output_index,
      )
      (ground arith)

-- Two coins have one key only if they have the same transaction hash and the same index modulo 256.
pub serialize_from_construct-injective :
    (h i j k : ℕ)
    → serialize_from_construct h i ≡ serialize_from_construct j k
    → (h ≡ j) × (i % 256 ≡ k % 256)
unfolding serialize_from_construct
serialize_from_construct-injective h i j k e = (
  to_string-injective h j (
      sym (before_dash-append (to_string h) _ (to_string-IsDigit h))
      ∙ (ap before_dash e ∙ before_dash-append (to_string j) _ (to_string-IsDigit j))),
  to_string-injective (i % 256) (k % 256) (
      sym (after_dash-append (to_string h) _ (to_string-IsDigit h))
      ∙ (ap after_dash e ∙ after_dash-append (to_string j) _ (to_string-IsDigit j))),
)
