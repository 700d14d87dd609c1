-- ===== src/Coins/Record.antt =====
-- coin.h, coin_record.h, coin_record.cpp: a coin of the cache, and what the database stores of a
-- transaction's unspent outputs.
use rath_db.Common.{
  ℕ, ◌%◌, ◌<◌, ◌≡◌, List, [], Bool, false, Bytes, arith, Outcome, ok, ◌>>=◌, refl, Ensures,
  Ensures-ok, Ensures-bind,
}
use rath_db.Proto.{PCoinRecord, Wire, parse-empty_coin_record}
use rath_db.Primitives.Output.{TransactionOutput}
use rath_db.Coins.Columns.{
  Columns, copy_columns, Aligned, copy_columns-Aligned, copy_columns-Ensures,
}

pub record Coin : Type 0 where
  pub transaction_output : TransactionOutput
  pub is_spent : Bool

-- The constructor.
abbrev pub make_coin : TransactionOutput → Bool → Coin
make_coin o spent = record { transaction_output = o; is_spent = spent }

pub record CoinRecord : Type 0 where
  pub version : ℕ
  pub utxo : List ℕ
  pub amounts : List ℕ
  pub public_keys : List ℕ

-- The constructor.
abbrev pub make_coin_record : ℕ → List ℕ → List ℕ → List ℕ → CoinRecord
make_coin_record version_ us ams ks = record {
  version = version_ % 256;
  utxo = us;
  amounts = ams;
  public_keys = ks;
}

abbrev pub message : ℕ → Columns → PCoinRecord
message version_ c = record {
  version = version_;
  is_coin_base = false;
  height = 0;
  utxo = c.utxo;
  amounts = c.amounts;
  public_keys = c.public_keys;
}

unfoldable pub serialize : Wire → CoinRecord → Outcome Bytes
serialize w r = do
  c ← copy_columns r.utxo r.amounts r.public_keys
  ok (w.coin_record.encode (message r.version c))

of_message : PCoinRecord → Outcome CoinRecord
of_message m = do
  c ← copy_columns m.utxo m.amounts m.public_keys
  ok (make_coin_record m.version c.utxo c.amounts c.public_keys)

unfoldable pub deserialize : Wire → Bytes → Outcome CoinRecord
unfolding of_message
deserialize w s = of_message (w.coin_record.parse s)

pub record IsSound (r : CoinRecord) : Type 0 where
  pub small : r.version < 256
  pub aligned : Aligned r.utxo r.amounts r.public_keys

abbrev pub empty_record : CoinRecord
empty_record = make_coin_record 0 [] [] []

abbrev pub bytes_of : Wire → CoinRecord → Bytes
bytes_of w r = w.coin_record.encode (record {
  version = r.version;
  is_coin_base = false;
  height = 0;
  utxo = r.utxo;
  amounts = r.amounts;
  public_keys = r.public_keys;
})

pub serialize-IsSound : (w : Wire) (r : CoinRecord) → IsSound r → serialize w r ≡ ok (bytes_of w r)
unfolding serialize
serialize-IsSound w r h = rw (copy_columns-Aligned r.utxo r.amounts r.public_keys h.aligned)

pub deserialize-bytes_of :
    (w : Wire) (r : CoinRecord) → IsSound r → deserialize w (bytes_of w r) ≡ ok r
unfolding deserialize
deserialize-bytes_of w r h =
    rw (w.coin_record.parse-encode _, copy_columns-Aligned r.utxo r.amounts r.public_keys h.aligned)
      (ground (arith, h.small))

-- A coin record with its version in range and its three vectors of one length is read back from its
-- serialization unchanged.
pub deserialize-serialize_coin_record :
    (w : Wire) (r : CoinRecord) → IsSound r → (serialize w r >>= deserialize w) ≡ ok r
deserialize-serialize_coin_record w r h = rw (serialize-IsSound w r h) (deserialize-bytes_of w r h)

-- The empty string, which stands for a missing record, is read as a record without outputs.
pub deserialize-empty : (w : Wire) → deserialize w [] ≡ ok empty_record
unfolding deserialize copy_columns
deserialize-empty w = rw (parse-empty_coin_record w)

-- Whatever `serialize` returns is the text of a record with its vectors in step.
pub record IsText (w : Wire) (s : Bytes) : Type 0 where
  pub content : CoinRecord
  pub sound : IsSound content
  pub text_eq : s ≡ bytes_of w content

pub serialize-IsText :
    (w : Wire) (r : CoinRecord) → r.version < 256 → Ensures (IsText w) (serialize w r)
unfolding serialize
serialize-IsText w r small =
    Ensures-bind _ (copy_columns r.utxo r.amounts r.public_keys)
      (copy_columns-Ensures r.utxo r.amounts r.public_keys)
      λ c h. Ensures-ok (IsText w) (w.coin_record.encode (message r.version c)) (record {
        content = record {
          version = r.version;
          utxo = c.utxo;
          amounts = c.amounts;
          public_keys = c.public_keys;
        };
        sound = record { small = small; aligned = h };
        text_eq = refl;
      })
