-- ===== src/Primitives/Input.antt =====
-- core/include/primitives/transaction_input.h and core/src/primitives/transaction_input.cpp.
use rath_db.Common.{ℕ, ◌%◌, Bytes}
use rath_db.Proto.{PTransactionInput, Wire}

pub record TransactionInput : Type 0 where
  pub reference_transaction_hash : ℕ
  pub utxo_index : ℕ
  pub signature : ℕ

-- The constructor.
abbrev pub make_input : ℕ → ℕ → ℕ → TransactionInput
make_input hash index signature_ = record {
  reference_transaction_hash = hash;
  utxo_index = index % 256;
  signature = signature_;
}

unfoldable pub message : TransactionInput → PTransactionInput
message t = record {
  reference_transaction_hash = t.reference_transaction_hash;
  utxo_index = t.utxo_index;
  signature = t.signature;
}

unfoldable pub of_message : PTransactionInput → TransactionInput
of_message m = make_input m.reference_transaction_hash m.utxo_index m.signature

unfoldable pub serialize : Wire → TransactionInput → Bytes
unfolding message
serialize w t = w.transaction_input.encode (message t)

unfoldable pub deserialize : Wire → Bytes → TransactionInput
unfolding of_message
deserialize w s = of_message (w.transaction_input.parse s)
