-- ===== src/Primitives/Block.antt =====
-- core/include/primitives/block.h and core/src/primitives/block.cpp.
use rath_db.Common.{List, [], map, Bytes}
use rath_db.Proto.{PBlock, PBlockHeader, Wire}
use rath_db.Primitives.Input.{TransactionInput, make_input}
use rath_db.Primitives.Output.{TransactionOutput, make_output}
use rath_db.Primitives.Transaction.{Transaction, make_transaction}
use rath_db.Primitives.Transaction
use rath_db.Primitives.Header.{BlockHeader, make_header}
use rath_db.Primitives.Header

pub record Block : Type 0 where
  pub block_header : BlockHeader
  pub transactions : List Transaction

-- The constructor.
abbrev pub make_block : BlockHeader → List Transaction → Block
make_block header ts = record { block_header = header; transactions = ts }

abbrev pub set_block_header : BlockHeader → Block → Block
set_block_header header b = record b { block_header = header }

abbrev pub set_transactions : List Transaction → Block → Block
set_transactions txs b = record b { transactions = txs }

-- `get_transactions` moves the vector out: the block is left without transactions.
abbrev pub get_transactions : Block → List Transaction × Block
get_transactions b = (b.transactions, record b { transactions = [] })

unfoldable pub message : Block → PBlock
unfolding Header.message Transaction.message
message b = record {
  block_header = Header.message b.block_header;
  transactions = map Transaction.message b.transactions;
  hash = 0;
  calculate_fees = 0;
  obtain_merkle_root = 0;
}

header_of_message : PBlockHeader → BlockHeader
header_of_message m =
    make_header m.version m.previous_block_hash m.merkle_root m.difficulty_target m.nonce
      m.timestamp

unfoldable pub of_message : PBlock → Block
unfolding header_of_message Transaction.of_message
of_message m =
    make_block (header_of_message m.block_header) (map Transaction.of_message m.transactions)

unfoldable pub serialize : Wire → Block → Bytes
unfolding message
serialize w b = w.block.encode (message b)

unfoldable pub deserialize : Wire → Bytes → Block
unfolding of_message
deserialize w s = of_message (w.block.parse s)

-- Copies go through the constructors, field by field.
copy_input : TransactionInput → TransactionInput
copy_input t = make_input t.reference_transaction_hash t.utxo_index t.signature

copy_output : TransactionOutput → TransactionOutput
copy_output t = make_output t.amount t.public_key

copy_transaction : Transaction → Transaction
unfolding copy_input copy_output
copy_transaction t =
    make_transaction (map copy_input t.transaction_inputs) (map copy_output t.transaction_outputs)
      t.version t.lock_time

unfoldable pub copy_transactions : Block → List Transaction
unfolding copy_transaction
copy_transactions b = map copy_transaction b.transactions

-- The copy that the chain and its writer make of a header.
unfoldable pub copy_header : BlockHeader → BlockHeader
copy_header h =
    make_header h.version h.previous_block_hash h.merkle_root h.difficulty_target h.nonce
      h.timestamp

-- `Chain::copy_block` and `Chain::get_last_block` copy a whole block.
unfoldable pub copy_block : Block → Block
unfolding copy_header copy_transactions
copy_block b = make_block (copy_header b.block_header) (copy_transactions b)
