-- ===== src/Examples/Data.antt =====
-- The values on which the theorems are tried: a small environment, a block, its undo block, and a
-- coin database. The hash adds up the bytes.
use rath_db.Common.{
  ℕ, zero, suc, ◌+◌, ◌∷◌, [], Bytes, Bool, true, false, ◌≡◌, ◌≢◌, All, codes, arith,
}
use rath_db.Env.{Env}
use rath_db.Proto.Sample.{sample_wire}
use rath_db.Primitives.Input.{TransactionInput, make_input}
use rath_db.Primitives.Output.{make_output}
use rath_db.Primitives.Transaction.{Transaction, make_transaction}
use rath_db.Primitives.Header.{make_header}
use rath_db.Primitives.Block.{Block}
use rath_db.Coins.Undo.{UndoBlock, UndoCoinRecord, make_undo_coin_record}
use rath_db.Coins.Record.{CoinRecord, make_coin_record, Coin}
use rath_db.Coins.Locator.{serialize_from_construct}
use rath_db.Coins.State.{CoinDatabase, new_coin_database, transaction_hash}
use rath_db.BlockInfo.Record.{BlockRecord, make_block_record}
use rath_db.Writer.Info.{make_file_info}

abbrev pub byte_sum : Bytes → ℕ
byte_sum [] = 0
byte_sum (b ∷ s) = b + byte_sum s

abbrev pub env : Env
env = record { wire = sample_wire; hash = byte_sum; uninit = λ i. 7 }

abbrev pub one_input : TransactionInput
one_input = make_input 5 1 9

abbrev pub payment : Transaction
payment = make_transaction (one_input ∷ []) (make_output 100 11 ∷ make_output 200 12 ∷ []) 1 3

abbrev pub small_block : Block
small_block = record { block_header = make_header 1 41 42 43 44 45; transactions = payment ∷ [] }

abbrev pub undo_record : UndoCoinRecord
undo_record = make_undo_coin_record 1 (1 ∷ []) (50 ∷ []) (8 ∷ [])

abbrev pub small_undo_block : UndoBlock
small_undo_block = record { transaction_hashes = 5 ∷ []; undo_coin_records = undo_record ∷ [] }

abbrev pub coin_record : CoinRecord
coin_record = make_coin_record 1 (1 ∷ 2 ∷ []) (50 ∷ 60 ∷ []) (8 ∷ 9 ∷ [])

abbrev pub block_record : BlockRecord
block_record =
    make_block_record small_block.block_header 1 2
      (make_file_info (codes "data/blocks_0.data") 0 20)
      (make_file_info (codes "data/undo_blocks_0.data") 0 30)

abbrev pub spare_coin : Coin
spare_coin = record { transaction_output = make_output 50 8; is_spent = false }

-- The coin that `one_input` spends stands in the cache.
abbrev pub funded : CoinDatabase
funded = record new_coin_database {
  main_cache = (serialize_from_construct 5 1, spare_coin) ∷ [];
  main_cache_size = 1;
}

-- The input that spends the first output of `payment`.
abbrev pub next_input : TransactionInput
next_input = record {
  reference_transaction_hash = transaction_hash env payment;
  utxo_index = 0;
  signature = 1;
}

abbrev pub nonzero : Bytes → Bool
nonzero [] = true
nonzero (zero ∷ s) = false
nonzero (suc b ∷ s) = nonzero s

pub nonzero-All : (s : Bytes) → nonzero s ≡ true → All (λ c. c ≢ 0) s
nonzero-All [] h = tt
nonzero-All (zero ∷ s) h = cc
nonzero-All (suc b ∷ s) h = (omega arith, nonzero-All s h)
