-- ===== src/Proto/Sample.antt =====
-- A codec for each message, which shows that the assumptions on `Wire` can be met: the fields in
-- order, a list behind its length, each number by its digits. Every code is a byte, and none is
-- zero. It is not the format of protobuf.
use native.Mathlib.Decide.{ℕ_discrete}
use rath_db.Common.{◌≡◌, refl, sym, ap, ◌∙◌, [], ◌∷◌, append-nil, Bytes}
use rath_db.Proto.Formats.{Format, number, both, via, many, flag}
use rath_db.Proto.{
  PBlockHeader, PTransactionInput, PTransactionOutput, PTransaction, PBlock, PBlockRecord,
  PCoinRecord, PUndoCoinRecord, PUndoBlock, Codec, Wire, no_coin_record,
}

abbrev pub header : Format PBlockHeader
header =
    via
      (λ h. (
        (h.version, (h.previous_block_hash, h.merkle_root)),
        (h.difficulty_target, (h.nonce, h.timestamp)),
      ))
      (λ p. record {
        version = p.0.0;
        previous_block_hash = p.0.1.0;
        merkle_root = p.0.1.1;
        difficulty_target = p.1.0;
        nonce = p.1.1.0;
        timestamp = p.1.1.1;
      })
      (λ h. refl) (both (both number (both number number)) (both number (both number number)))

abbrev pub input : Format PTransactionInput
input =
    via (λ t. (t.reference_transaction_hash, (t.utxo_index, t.signature)))
      (λ p. record { reference_transaction_hash = p.0; utxo_index = p.1.0; signature = p.1.1 })
      (λ t. refl) (both number (both number number))

abbrev pub output : Format PTransactionOutput
output =
    via (λ t. (t.amount, t.public_key)) (λ p. record { amount = p.0; public_key = p.1 }) (λ t. refl)
      (both number number)

abbrev pub transaction : Format PTransaction
transaction =
    via (λ t. ((t.version, t.transaction_inputs), (t.transaction_outputs, t.lock_time)))
      (λ p. record {
        version = p.0.0;
        transaction_inputs = p.0.1;
        transaction_outputs = p.1.0;
        lock_time = p.1.1;
      })
      (λ t. refl) (both (both number (many input)) (both (many output) number))

abbrev pub block : Format PBlock
block =
    via
      (λ b. ((b.block_header, b.transactions), (b.hash, (b.calculate_fees, b.obtain_merkle_root))))
      (λ p. record {
        block_header = p.0.0;
        transactions = p.0.1;
        hash = p.1.0;
        calculate_fees = p.1.1.0;
        obtain_merkle_root = p.1.1.1;
      })
      (λ b. refl) (both (both header (many transaction)) (both number (both number number)))

abbrev pub block_record : Format PBlockRecord
block_record =
    via
      (λ r. (
        (r.block_header, (r.height, r.num_transactions)),
        (
          (r.block_file_stored, (r.block_offset_start, r.block_offset_end)),
          (r.undo_file_stored, (r.undo_offset_start, r.undo_offset_end)),
        ),
      ))
      (λ p. record {
        block_header = p.0.0;
        height = p.0.1.0;
        num_transactions = p.0.1.1;
        block_file_stored = p.1.0.0;
        block_offset_start = p.1.0.1.0;
        block_offset_end = p.1.0.1.1;
        undo_file_stored = p.1.1.0;
        undo_offset_start = p.1.1.1.0;
        undo_offset_end = p.1.1.1.1;
      })
      (λ r. refl)
      (both (both header (both number number))
        (both (both (many number) (both number number)) (both (many number) (both number number))))

abbrev pub coin_record : Format PCoinRecord
coin_record =
    via (λ r. ((r.version, (r.is_coin_base, r.height)), (r.utxo, (r.amounts, r.public_keys))))
      (λ p. record {
        version = p.0.0;
        is_coin_base = p.0.1.0;
        height = p.0.1.1;
        utxo = p.1.0;
        amounts = p.1.1.0;
        public_keys = p.1.1.1;
      })
      (λ r. refl)
      (both (both number (both flag number))
        (both (many number) (both (many number) (many number))))

abbrev pub undo_coin_record : Format PUndoCoinRecord
undo_coin_record =
    via (λ r. ((r.version, (r.is_coin_base, r.height)), (r.utxo, (r.amounts, r.public_keys))))
      (λ p. record {
        version = p.0.0;
        is_coin_base = p.0.1.0;
        height = p.0.1.1;
        utxo = p.1.0;
        amounts = p.1.1.0;
        public_keys = p.1.1.1;
      })
      (λ r. refl)
      (both (both number (both flag number))
        (both (many number) (both (many number) (many number))))

abbrev pub undo_block : Format PUndoBlock
undo_block =
    via (λ u. (u.transaction_hashes, u.undo_coin_records))
      (λ p. record { transaction_hashes = p.0; undo_coin_records = p.1 }) (λ u. refl)
      (both (many number) (many undo_coin_record))

module _ {M : Type 0} (f : Format M) where
  pub codec_lem : (m : M) → (f.read (f.print m)).0 ≡ m
  codec_lem m =
      ap (λ s. (f.read s).0) (sym (append-nil (f.print m))) ∙ ap (λ p. p.0) (f.read-print m [])

  abbrev pub codec : Codec M
  codec = record { encode = f.print; parse = λ s. (f.read s).0; parse-encode = codec_lem }

-- The coin record with all defaults is the empty string, any other has a byte in front.
pub PCoinRecord-discrete : Discrete PCoinRecord
PCoinRecord-discrete = hlevel ℕ_discrete

abbrev pub coin_parse : Bytes → PCoinRecord
coin_parse [] = no_coin_record
coin_parse (b ∷ s) = (coin_record.read s).0

abbrev pub coin_choose : (m : PCoinRecord) → Dec (m ≡ no_coin_record) → Bytes
coin_choose m (yes e) = []
coin_choose m (no e) = 1 ∷ coin_record.print m

pub coin_choose_lem :
    (m : PCoinRecord) (d : Dec (m ≡ no_coin_record)) → coin_parse (coin_choose m d) ≡ m
coin_choose_lem m (yes e) = sym e
coin_choose_lem m (no e) = codec_lem coin_record m

pub coin_choose-none :
    (d : Dec (no_coin_record ≡ no_coin_record)) → coin_choose no_coin_record d ≡ []
coin_choose-none (yes e) = refl
coin_choose-none (no e) = absurd (e refl)

abbrev pub behind_byte : Bytes → Bytes
behind_byte [] = []
behind_byte (b ∷ s) = s

-- A block record has a byte in front too.
abbrev pub record_codec : Codec PBlockRecord
record_codec = record {
  encode = λ m. 1 ∷ block_record.print m;
  parse = λ s. (block_record.read (behind_byte s)).0;
  parse-encode = codec_lem block_record;
}

pub not-empty : (m : PBlockRecord) → ¬ (record_codec.encode m ≡ [])
not-empty m h = cc

abbrev pub sample_wire : Wire
sample_wire = record {
  block_header = codec header;
  transaction_input = codec input;
  transaction_output = codec output;
  transaction = codec transaction;
  block = codec block;
  block_record = record_codec;
  coin_record = record {
    encode = λ m. coin_choose m (PCoinRecord-discrete m no_coin_record);
    parse = coin_parse;
    parse-encode = λ m. coin_choose_lem m (PCoinRecord-discrete m no_coin_record);
  };
  undo_block = codec undo_block;
  encode-no_coin_record = coin_choose-none (PCoinRecord-discrete no_coin_record no_coin_record);
  encode-block_record = not-empty;
}
