-- ===== src/Primitives/Transaction.antt =====
-- core/include/primitives/transaction.h and core/src/primitives/transaction.cpp.
use rath_db.Common.{ℕ, ◌%◌, List, map, Bytes}
use rath_db.Proto.{PTransaction, Wire}
use rath_db.Primitives.Input
use rath_db.Primitives.Input.{TransactionInput}
use rath_db.Primitives.Output
use rath_db.Primitives.Output.{TransactionOutput}

pub record Transaction : Type 0 where
  pub version : ℕ
  pub transaction_inputs : List TransactionInput
  pub transaction_outputs : List TransactionOutput
  pub lock_time : ℕ

-- The constructor, with the parameters in its order.
abbrev pub make_transaction : List TransactionInput → List TransactionOutput → ℕ → ℕ → Transaction
make_transaction inputs outputs version_ time = record {
  version = version_ % 256;
  transaction_inputs = inputs;
  transaction_outputs = outputs;
  lock_time = time;
}

-- The two loops add one message for each input and each output.
unfoldable pub message : Transaction → PTransaction
unfolding Input.message Output.message
message t = record {
  version = t.version;
  transaction_inputs = map Input.message t.transaction_inputs;
  transaction_outputs = map Output.message t.transaction_outputs;
  lock_time = t.lock_time;
}

unfoldable pub of_message : PTransaction → Transaction
unfolding Input.of_message Output.of_message
of_message m =
    make_transaction (map Input.of_message m.transaction_inputs)
      (map Output.of_message m.transaction_outputs) m.version m.lock_time

unfoldable pub serialize : Wire → Transaction → Bytes
unfolding message
serialize w t = w.transaction.encode (message t)

unfoldable pub deserialize : Wire → Bytes → Transaction
unfolding of_message
deserialize w s = of_message (w.transaction.parse s)
