-- ===== src/Examples/Second.antt =====
-- A block that is accepted on top of the genesis block.
use rath_db.Common.{
  ◌≡◌, ◌+◌, ◌≤◌, refl, subst, ap, ◌∙◌, true, false, some, Bool, Option, ok, Outcome, [], ◌∷◌, Bytes,
  length, arith,
}
use rath_db.Common.Map.{lookup, insert, contains}
use rath_db.Text.{to_string}
use rath_db.Primitives.Block
use rath_db.Primitives.Block.{copy_block, copy_transactions}
use rath_db.Primitives.Header
use rath_db.Primitives.Input
use rath_db.Primitives.Output
use rath_db.Primitives.Transaction
use rath_db.Writer.{new_chain_writer, write_block, write_undo_block}
use rath_db.Writer.Streams.{write_stream, roll}
use rath_db.Writer.ReadBack.{IsStorable}
use rath_db.Coins.Undo as CoinsUndo
use rath_db.Coins.Undo.{UndoBlock, make_undo_coin_record}
use rath_db.Coins.Columns.{copy_columns}
use rath_db.Coins.Locator
use rath_db.Coins.Locator.{serialize_from_construct}
use rath_db.Chain.Undo.{make_undo_block, make_records, input_columns}
use rath_db.Coins.State.{main_cache_capacity, CoinDatabase, new_coin_database, transaction_hash}
use rath_db.Coins.Validation.{return_matching_utxo, match_found}
use rath_db.Coins.Database.{
  store_to_cache_help, remove_transactions_from_mempool, remove_from_mempool,
  validate_and_store_block,
}
use rath_db.Coins.Database.Sound.{after_all, after_one}
use rath_db.Chain.{construct_genesis_block, block_hash, get_last_block_hash}
use rath_db.Coins.Database.Respend.{
  TransactionAvailable, after_block, validate_block-Available, validate_and_store_block-Available,
}
use rath_db.Chain.Refines.{Accepted}
use rath_db.Primitives.Transaction.{Transaction, make_transaction}
use rath_db.Primitives.Block.{Block}
use rath_db.Primitives.Header.{make_header}
use rath_db.Primitives.Input.{make_input}
use rath_db.Primitives.Output.{make_output}
use rath_db.Examples.Data.{env, nonzero-All}
use rath_db.Examples.Starting.{started, same_text}

-- It spends the second output of the genesis block.
abbrev pub second_payment : Transaction
second_payment = make_transaction (make_input 1509 1 9 ∷ []) (make_output 100 11 ∷ []) 1 3

abbrev pub second_block : Block
second_block = record {
  block_header = make_header 1 (block_hash env construct_genesis_block) 42 43 44 46;
  transactions = second_payment ∷ [];
}

second_Available : TransactionAvailable started.coin_database second_payment
unfolding Locator.serialize serialize_from_construct lookup to_string insert construct_genesis_block
    copy_transactions after_all after_one store_to_cache_help remove_transactions_from_mempool
    remove_from_mempool contains new_coin_database Transaction.serialize
second_Available = record {
  some_input = λ h. cc;
  inputs = (
    record {
      coin = record { transaction_output = make_output 200 67891; is_spent = false };
      found = refl;
      free = refl;
    },
    tt,
  );
}

abbrev pub second_coins : CoinDatabase
second_coins = after_block env (second_payment ∷ []) started.coin_database

abbrev pub second_undo : UndoBlock
second_undo = record {
  transaction_hashes = transaction_hash env second_payment ∷ [];
  undo_coin_records = make_undo_coin_record 1 (1 ∷ []) (200 ∷ []) (67891 ∷ []) ∷ [];
}

second_made :
    make_undo_block env (copy_block second_block) second_coins ≡ ok (second_undo, second_coins)
unfolding make_undo_block make_records input_columns return_matching_utxo match_found copy_block
    copy_transactions after_block after_all after_one store_to_cache_help construct_genesis_block
    remove_transactions_from_mempool remove_from_mempool lookup insert contains new_coin_database
    serialize_from_construct to_string Transaction.serialize Locator.serialize
second_made = refl

abbrev pub second_text : Bytes
second_text = Block.serialize env.wire second_block

second_copied : copy_transactions second_block ≡ second_payment ∷ []
unfolding copy_transactions
second_copied = refl

second_cached : started.coin_database.main_cache_size ≡ 3
unfolding copy_transactions construct_genesis_block remove_transactions_from_mempool
    remove_from_mempool after_all after_one store_to_cache_help new_coin_database lookup insert
    contains
second_cached = refl

pub second_fits :
    length (copy_transactions second_block) + started.coin_database.main_cache_size
    ≤ main_cache_capacity
second_fits = rw (second_copied, second_cached) (omega arith)

pub second_on_top : second_block.block_header.previous_block_hash ≡ get_last_block_hash env started
unfolding get_last_block_hash
second_on_top = refl

second_IsStorable : IsStorable second_text started.chain_writer.block_stream
unfolding write_block write_undo_block write_stream roll new_chain_writer construct_genesis_block
    Block.serialize Block.message Header.message Transaction.message Input.message Output.message
second_IsStorable = record {
  fits = record { short = omega arith; numbered = omega arith };
  no_zero = nonzero-All second_text refl;
}

abbrev pub second_undo_text : Bytes
second_undo_text = env.wire.undo_block.encode (record {
  transaction_hashes = transaction_hash env second_payment ∷ [];
  undo_coin_records =
      record {
        version = 1;
        is_coin_base = false;
        height = 0;
        utxo = 1 ∷ [];
        amounts = 200 ∷ [];
        public_keys = 67891 ∷ [];
      }
      ∷ [];
})

second_undo_written : CoinsUndo.serialize env.wire second_undo ≡ ok second_undo_text
unfolding CoinsUndo.serialize CoinsUndo.messages copy_columns
second_undo_written = refl

second_undo_IsStorable : IsStorable second_undo_text started.chain_writer.undo_stream
unfolding write_block write_undo_block write_stream roll new_chain_writer Transaction.serialize
second_undo_IsStorable = record {
  fits = record { short = omega arith; numbered = omega arith };
  no_zero = nonzero-All second_undo_text refl;
}

second_stored :
    validate_and_store_block env 0 (copy_transactions second_block) started.coin_database
    ≡ ok (some true, second_coins)
second_stored = rw second_copied (
    validate_and_store_block-Available env 0 (second_payment ∷ []) started.coin_database (λ h. cc)
      (second_Available, tt) (rw second_cached (omega arith)))

same_coins :
    {run : Outcome (Option Bool × CoinDatabase)} {cd cd' : CoinDatabase}
    → run ≡ ok (some true, cd)
    → run ≡ ok (some true, cd')
    → cd ≡ cd'
same_coins h h' = cc

pub second_Accepted : Accepted env 0 started [] second_block
second_Accepted = record {
  on_top = second_on_top;
  range = (omega arith, ((omega arith, (omega arith, tt)), tt));
  seen = started.coin_database;
  valid = rw second_copied (
      validate_block-Available env (second_payment ∷ []) started.coin_database (λ h. cc)
        (second_Available, tt));
  fits = second_fits;
  is_new = tt;
  room = omega arith;
  storable = second_IsStorable;
  undo_storable = λ cd cd' u text v m written.
      subst (λ (t : Bytes). IsStorable t started.chain_writer.undo_stream)
        (same_text second_made second_undo_written
          (ap (make_undo_block env (copy_block second_block)) (same_coins second_stored v) ∙ m)
          written)
        second_undo_IsStorable;
}
