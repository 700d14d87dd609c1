-- ===== src/Primitives/Header.antt =====
-- core/include/primitives/block_header.h and core/src/primitives/block_header.cpp.
use rath_db.Common.{ℕ, ◌%◌, Bytes}
use rath_db.Proto.{PBlockHeader, Wire}

pub record BlockHeader : Type 0 where
  pub version : ℕ
  pub previous_block_hash : ℕ
  pub merkle_root : ℕ
  pub difficulty_target : ℕ
  pub nonce : ℕ
  pub timestamp : ℕ

-- The constructor, with the parameters in its order.
abbrev pub make_header : ℕ → ℕ → ℕ → ℕ → ℕ → ℕ → BlockHeader
make_header version_ previous root target nonce_ time = record {
  version = version_ % 256;
  previous_block_hash = previous;
  merkle_root = root;
  difficulty_target = target;
  nonce = nonce_;
  timestamp = time;
}

abbrev pub set_version : ℕ → BlockHeader → BlockHeader
set_version version_ h = record h { version = version_ % 256 }

abbrev pub set_previous_block_hash : ℕ → BlockHeader → BlockHeader
set_previous_block_hash previous h = record h { previous_block_hash = previous }

abbrev pub set_merkle_root : ℕ → BlockHeader → BlockHeader
set_merkle_root root h = record h { merkle_root = root }

abbrev pub set_difficulty_target : ℕ → BlockHeader → BlockHeader
set_difficulty_target target h = record h { difficulty_target = target }

abbrev pub set_nonce : ℕ → BlockHeader → BlockHeader
set_nonce nonce_ h = record h { nonce = nonce_ }

abbrev pub set_timestamp : ℕ → BlockHeader → BlockHeader
set_timestamp time h = record h { timestamp = time }

unfoldable pub message : BlockHeader → PBlockHeader
message h = record {
  version = h.version;
  previous_block_hash = h.previous_block_hash;
  merkle_root = h.merkle_root;
  difficulty_target = h.difficulty_target;
  nonce = h.nonce;
  timestamp = h.timestamp;
}

-- `BlockHeader::deserialize` makes a header of zeros and then calls the setters, in this order.
unfoldable pub of_message : PBlockHeader → BlockHeader
of_message m = set_timestamp m.timestamp (
    set_previous_block_hash m.previous_block_hash (
      set_difficulty_target m.difficulty_target (
        set_merkle_root m.merkle_root
          (set_nonce m.nonce (set_version m.version (make_header 0 0 0 0 0 0))))))

unfoldable pub serialize : Wire → BlockHeader → Bytes
unfolding message
serialize w h = w.block_header.encode (message h)

unfoldable pub deserialize : Wire → Bytes → BlockHeader
unfolding of_message
deserialize w s = of_message (w.block_header.parse s)
