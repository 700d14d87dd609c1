-- ===== src/Examples/Extending.antt =====
-- A block that extends the active chain, tried on concrete values.
use rath_db.Common.{◌≡◌, refl, ok, some, true, false, [], ◌∷◌, arith, Bytes}
use rath_db.Common.Map.{lookup, insert, contains}
use rath_db.Text.{to_string}
use rath_db.Primitives.Header.{make_header}
use rath_db.Primitives.Block.{Block, copy_block, copy_transactions}
use rath_db.Primitives.Block
use rath_db.Primitives.Transaction
use rath_db.Primitives.Header
use rath_db.Primitives.Input
use rath_db.Primitives.Output
use rath_db.Coins.Columns.{copy_columns}
use rath_db.Coins.Undo.{UndoBlock, make_undo_coin_record}
use rath_db.Coins.Undo as CoinsUndo
use rath_db.Coins.Locator
use rath_db.Coins.Locator.{serialize_from_construct}
use rath_db.Coins.State.{CoinDatabase, new_coin_database, transaction_hash}
use rath_db.Coins.Validation.{return_matching_utxo, match_found}
use rath_db.Coins.Database.{
  store_to_cache_help, remove_transactions_from_mempool, remove_from_mempool,
  validate_and_store_block,
}
use rath_db.Coins.Database.Sound.{after_all, after_one}
use rath_db.Coins.Database.Respend.{after_block, validate_and_store_block-Available}
use rath_db.Chain.{Chain, block_hash, get_last_block_hash}
use rath_db.Chain.Undo.{make_undo_block, make_records, input_columns}
use rath_db.Chain.Handle.{handle_block}
use rath_db.Chain.Handle.Extend.{Extended, handle_block-Extended}
use rath_db.Examples.Data.{env, small_block, payment, funded, nonzero-All}
use rath_db.Examples.Storage.{text_Fits, undo_text_Fits}
use rath_db.Writer.ReadBack.{IsStorable, new_chain_writer-WriterIsSound}
use rath_db.Examples.Spending.{payment_Available}
use rath_db.Examples.Handling.{fresh_chain}

abbrev coins_after : CoinDatabase
coins_after = after_block env (payment ∷ []) funded

abbrev undo_made : UndoBlock
undo_made = record {
  transaction_hashes = transaction_hash env payment ∷ [];
  undo_coin_records = make_undo_coin_record 1 (1 ∷ []) (50 ∷ []) (8 ∷ []) ∷ [];
}

-- It names the last block of `fresh_chain`, which has the same transactions.
abbrev next_block : Block
next_block = record small_block {
  block_header = make_header 1 (block_hash env small_block) 42 43 44 46;
}

made : make_undo_block env (copy_block next_block) coins_after ≡ ok (undo_made, coins_after)
unfolding make_undo_block make_records input_columns return_matching_utxo match_found copy_block
    copy_transactions after_block after_all after_one store_to_cache_help
    remove_transactions_from_mempool remove_from_mempool lookup insert contains new_coin_database
    serialize_from_construct to_string Transaction.serialize Locator.serialize
made = refl

abbrev undo_made_text : Bytes
undo_made_text = env.wire.undo_block.encode (record {
  transaction_hashes = transaction_hash env payment ∷ [];
  undo_coin_records =
      record {
        version = 1;
        is_coin_base = false;
        height = 0;
        utxo = 1 ∷ [];
        amounts = 50 ∷ [];
        public_keys = 8 ∷ [];
      }
      ∷ [];
})

undo_made_written : CoinsUndo.serialize env.wire undo_made ≡ ok undo_made_text
unfolding CoinsUndo.serialize CoinsUndo.messages copy_columns
undo_made_written = refl

next_IsStorable :
    IsStorable (Block.serialize env.wire next_block) fresh_chain.chain_writer.block_stream
unfolding Block.serialize Block.message Header.message Transaction.message Input.message
    Output.message
next_IsStorable = record {
  fits = text_Fits _ (omega arith);
  no_zero = nonzero-All (Block.serialize env.wire next_block) refl;
}

undo_made_IsStorable : IsStorable undo_made_text fresh_chain.chain_writer.undo_stream
unfolding Transaction.serialize
undo_made_IsStorable = record {
  fits = undo_text_Fits _ (omega arith);
  no_zero = nonzero-All undo_made_text refl;
}

on_top : next_block.block_header.previous_block_hash ≡ get_last_block_hash env fresh_chain
unfolding get_last_block_hash
on_top = refl

copied : copy_transactions next_block ≡ payment ∷ []
unfolding copy_transactions
copied = refl

next_valid :
    validate_and_store_block env 0 (copy_transactions next_block) fresh_chain.coin_database
    ≡ ok (some true, coins_after)
next_valid = rw copied (
    validate_and_store_block-Available env 0 (payment ∷ []) funded (λ h. cc) (payment_Available, tt)
      (omega arith))

handle_block-Extended_example :
    (c' : Chain) × (handle_block env 0 next_block fresh_chain ≡ ok c')
    × Extended env next_block fresh_chain c'
handle_block-Extended_example =
    handle_block-Extended env 0 next_block fresh_chain coins_after coins_after undo_made
      undo_made_text new_chain_writer-WriterIsSound
      (omega arith, ((omega arith, (omega arith, tt)), tt)) next_IsStorable undo_made_IsStorable
      made undo_made_written on_top next_valid
