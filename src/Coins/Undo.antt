-- ===== src/Coins/Undo.antt =====
-- undo_coin_record.h, undo_coin_record.cpp, undo_block.h and undo_block.cpp: what is kept of the
-- outputs that a block spends.
use rath_db.Common.{
  ℕ, ◌%◌, ◌<◌, ◌≡◌, refl, List, [], ◌∷◌, false, Bytes, arith, Outcome, ok, undefined, ◌>>=◌,
}
use rath_db.Proto.{PUndoCoinRecord, PUndoBlock, Wire}
use rath_db.Coins.Columns.{Columns, copy_columns, Aligned, copy_columns-Aligned}

pub record UndoCoinRecord : Type 0 where
  pub version : ℕ
  pub utxo : List ℕ
  pub amounts : List ℕ
  pub public_keys : List ℕ

-- The constructor.
abbrev pub make_undo_coin_record : ℕ → List ℕ → List ℕ → List ℕ → UndoCoinRecord
make_undo_coin_record version_ us ams ks = record {
  version = version_ % 256;
  utxo = us;
  amounts = ams;
  public_keys = ks;
}

pub record UndoBlock : Type 0 where
  pub transaction_hashes : List ℕ
  pub undo_coin_records : List UndoCoinRecord

-- The constructor.
abbrev pub new_undo_block : List ℕ → List UndoCoinRecord → UndoBlock
new_undo_block hashes rs = record { transaction_hashes = hashes; undo_coin_records = rs }

abbrev record_message : ℕ → Columns → PUndoCoinRecord
record_message version_ c = record {
  version = version_;
  is_coin_base = false;
  height = 0;
  utxo = c.utxo;
  amounts = c.amounts;
  public_keys = c.public_keys;
}

abbrev push_message : ℕ → PUndoCoinRecord → PUndoBlock → PUndoBlock
push_message hash r m = record {
  transaction_hashes = hash ∷ m.transaction_hashes;
  undo_coin_records = r ∷ m.undo_coin_records;
}

-- The loop over the transaction hashes, which reads the undo record at the same position.
unfoldable pub messages : List ℕ → List UndoCoinRecord → Outcome PUndoBlock
messages [] rs = ok (record { transaction_hashes = []; undo_coin_records = [] })
messages (h ∷ hs) [] = undefined
messages (h ∷ hs) (r ∷ rs) = do
  c ← copy_columns r.utxo r.amounts r.public_keys
  m ← messages hs rs
  ok (push_message h (record_message r.version c) m)

unfoldable pub serialize : Wire → UndoBlock → Outcome Bytes
unfolding messages
serialize w b = do m ← messages b.transaction_hashes b.undo_coin_records; ok (w.undo_block.encode m)

abbrev push_record : ℕ → UndoCoinRecord → UndoBlock → UndoBlock
push_record hash r b = record {
  transaction_hashes = hash ∷ b.transaction_hashes;
  undo_coin_records = r ∷ b.undo_coin_records;
}

of_messages : List ℕ → List PUndoCoinRecord → Outcome UndoBlock
of_messages [] ms = ok (new_undo_block [] [])
of_messages (h ∷ hs) [] = undefined
of_messages (h ∷ hs) (m ∷ ms) = do
  c ← copy_columns m.utxo m.amounts m.public_keys
  b ← of_messages hs ms
  ok (push_record h (make_undo_coin_record m.version c.utxo c.amounts c.public_keys) b)

abbrev of_message : PUndoBlock → Outcome UndoBlock
of_message m = of_messages m.transaction_hashes m.undo_coin_records

unfoldable pub deserialize : Wire → Bytes → Outcome UndoBlock
unfolding of_messages
deserialize w s = of_message (w.undo_block.parse s)

pub record IsSound (r : UndoCoinRecord) : Type 0 where
  pub small : r.version < 256
  pub aligned : Aligned r.utxo r.amounts r.public_keys

-- One sound undo record for each hash.
abbrev pub Paired : List ℕ → List UndoCoinRecord → Type 0
Paired [] [] = Unit {0}
Paired (h ∷ hs) (r ∷ rs) = IsSound r × Paired hs rs
Paired _ _ = ⊥

abbrev pub UndoInRange : UndoBlock → Type 0
UndoInRange b = Paired b.transaction_hashes b.undo_coin_records

-- The message that `messages` builds, and what reading it gives.
abbrev Reads : List ℕ → List UndoCoinRecord → Type 0
Reads hs rs =
    (m : PUndoBlock) × (messages hs rs ≡ ok m)
    × (of_message m ≡ ok (record { transaction_hashes = hs; undo_coin_records = rs }))

Reads-cons :
    (h : ℕ) (r : UndoCoinRecord) (hs : List ℕ) (rs : List UndoCoinRecord)
    → IsSound r
    → Reads hs rs
    → Reads (h ∷ hs) (r ∷ rs)
unfolding messages of_messages
Reads-cons h r hs rs s (m, e, k) = (
  push_message h (record_message r.version columns) m,
  rw (copy_columns-Aligned r.utxo r.amounts r.public_keys s.aligned, e),
  rw (copy_columns-Aligned r.utxo r.amounts r.public_keys s.aligned, k) (ground (arith, s.small)),
)
  where
    columns : Columns
    columns = record { utxo = r.utxo; amounts = r.amounts; public_keys = r.public_keys }

messages-Reads : (hs : List ℕ) (rs : List UndoCoinRecord) → Paired hs rs → Reads hs rs
messages-Reads [] [] p = (
  record { transaction_hashes = []; undo_coin_records = [] },
  unfold messages in refl,
  unfold of_messages in refl,
)
messages-Reads [] (r ∷ rs) p = elim p [ ]
messages-Reads (h ∷ hs) [] p = elim p [ ]
messages-Reads (h ∷ hs) (r ∷ rs) (s, p) = Reads-cons h r hs rs s (messages-Reads hs rs p)

-- An undo block that has for each hash one undo record, with its version in range and its three
-- vectors of one length, is read back from its serialization unchanged.
pub deserialize-serialize_undo_block :
    (w : Wire) (b : UndoBlock) → UndoInRange b → (serialize w b >>= deserialize w) ≡ ok b
unfolding serialize deserialize
deserialize-serialize_undo_block w b p =
    let (m, e, k) = messages-Reads b.transaction_hashes b.undo_coin_records p in
    rw e (rw (w.undo_block.parse-encode m) k)

-- An undo block in range has a text, from which it is read.
pub serialize-UndoInRange :
    (w : Wire) (b : UndoBlock)
    → UndoInRange b
    → (text : Bytes) × (serialize w b ≡ ok text) × (deserialize w text ≡ ok b)
unfolding serialize deserialize
serialize-UndoInRange w b p =
    let (m, e, k) = messages-Reads b.transaction_hashes b.undo_coin_records p in
    (w.undo_block.encode m, rw e, rw (w.undo_block.parse-encode m) k)
