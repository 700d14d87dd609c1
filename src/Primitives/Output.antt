-- ===== src/Primitives/Output.antt =====
-- core/include/primitives/transaction_output.h and core/src/primitives/transaction_output.cpp.
use rath_db.Common.{ℕ, Bytes}
use rath_db.Proto.{PTransactionOutput, Wire}

pub record TransactionOutput : Type 0 where
  pub amount : ℕ
  pub public_key : ℕ

-- The constructor.
abbrev pub make_output : ℕ → ℕ → TransactionOutput
make_output amount_ key = record { amount = amount_; public_key = key }

unfoldable pub message : TransactionOutput → PTransactionOutput
message t = record { amount = t.amount; public_key = t.public_key }

unfoldable pub of_message : PTransactionOutput → TransactionOutput
of_message m = make_output m.amount m.public_key

unfoldable pub serialize : Wire → TransactionOutput → Bytes
unfolding message
serialize w t = w.transaction_output.encode (message t)

unfoldable pub deserialize : Wire → Bytes → TransactionOutput
unfolding of_message
deserialize w s = of_message (w.transaction_output.parse s)
