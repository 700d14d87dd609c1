-- ===== src/Proto.antt =====
-- core/include/proto/rath.proto: the messages, with the fields that the schema declares. The code
-- that protoc generates from the schema and the protobuf library are not modelled: how a message
-- becomes bytes is the parameter `Wire`.
pub mod Formats
pub mod Sample
use rath_db.Common.{ℕ, ◌≡◌, sym, ap, ◌∙◌, Bool, false, List, [], Bytes}

pub record PBlockHeader : Type 0 where
  pub version : ℕ
  pub previous_block_hash : ℕ
  pub merkle_root : ℕ
  pub difficulty_target : ℕ
  pub nonce : ℕ
  pub timestamp : ℕ

pub record PTransactionInput : Type 0 where
  pub reference_transaction_hash : ℕ
  pub utxo_index : ℕ
  pub signature : ℕ

pub record PTransactionOutput : Type 0 where
  pub amount : ℕ
  pub public_key : ℕ

pub record PTransaction : Type 0 where
  pub version : ℕ
  pub transaction_inputs : List PTransactionInput
  pub transaction_outputs : List PTransactionOutput
  pub lock_time : ℕ

pub record PBlock : Type 0 where
  pub block_header : PBlockHeader
  pub transactions : List PTransaction
  pub hash : ℕ
  pub calculate_fees : ℕ
  pub obtain_merkle_root : ℕ

pub record PBlockRecord : Type 0 where
  pub block_header : PBlockHeader
  pub height : ℕ
  pub num_transactions : ℕ
  pub block_file_stored : Bytes
  pub block_offset_start : ℕ
  pub block_offset_end : ℕ
  pub undo_file_stored : Bytes
  pub undo_offset_start : ℕ
  pub undo_offset_end : ℕ

pub record PCoinRecord : Type 0 where
  pub version : ℕ
  pub is_coin_base : Bool
  pub height : ℕ
  pub utxo : List ℕ
  pub amounts : List ℕ
  pub public_keys : List ℕ

pub record PUndoCoinRecord : Type 0 where
  pub version : ℕ
  pub is_coin_base : Bool
  pub height : ℕ
  pub utxo : List ℕ
  pub amounts : List ℕ
  pub public_keys : List ℕ

pub record PUndoBlock : Type 0 where
  pub transaction_hashes : List ℕ
  pub undo_coin_records : List PUndoCoinRecord

-- A message that was just constructed: every field has its default.
abbrev pub no_coin_record : PCoinRecord
no_coin_record = record {
  version = 0;
  is_coin_base = false;
  height = 0;
  utxo = [];
  amounts = [];
  public_keys = [];
}

-- `SerializeToString` and `ParseFromString` of one message: parsing what was serialized gives an
-- equal message. Of a text that is no message nothing is assumed. The number fields are of type
-- `uint32`; the law is stated for all numbers of the model, which is no more: what an encoding does
-- on such fields extends to larger numbers by texts that are no message.
pub record Codec (M : Type 0) : Type 0 where
  pub encode : M → Bytes
  pub parse : Bytes → M
  pub parse-encode : (m : M) → parse (encode m) ≡ m

-- The messages that the program serializes. A proto3 message whose fields all have their defaults
-- is serialized to the empty string (the sources rely on this for a coin record that is missing),
-- and a block record with a header to a string that is not empty.
pub record Wire : Type 0 where
  pub block_header : Codec PBlockHeader
  pub transaction_input : Codec PTransactionInput
  pub transaction_output : Codec PTransactionOutput
  pub transaction : Codec PTransaction
  pub block : Codec PBlock
  pub block_record : Codec PBlockRecord
  pub coin_record : Codec PCoinRecord
  pub undo_block : Codec PUndoBlock
  pub encode-no_coin_record : coin_record.encode no_coin_record ≡ []
  pub encode-block_record : (m : PBlockRecord) → ¬ (block_record.encode m ≡ [])

-- The empty string stands for the missing record and for nothing else.
pub parse-empty_coin_record : (w : Wire) → w.coin_record.parse [] ≡ no_coin_record
parse-empty_coin_record w =
    ap w.coin_record.parse (sym w.encode-no_coin_record) ∙ w.coin_record.parse-encode no_coin_record

pub encode-eq-empty :
    (w : Wire) (m : PCoinRecord) → w.coin_record.encode m ≡ [] → m ≡ no_coin_record
encode-eq-empty w m h =
    sym (w.coin_record.parse-encode m) ∙ (ap w.coin_record.parse h ∙ parse-empty_coin_record w)
