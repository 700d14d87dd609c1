-- ===== src/Examples/Forking.antt =====
-- A block on a fork that is set aside, tried on concrete values.
use rath_db.Common.{
  true, ◌≡◌, ◌+◌, ◌-◌, ◌%◌, ◌^◌, refl, subst, false, ◌≢◌, ok, [], ◌∷◌, Bytes, arith,
}
use rath_db.Common.Map.{lookup, insert, contains}
use rath_db.Text.{to_string}
use rath_db.Primitives.Block
use rath_db.Primitives.Block.{copy_block, copy_transactions}
use rath_db.Primitives.Header
use rath_db.Primitives.Input
use rath_db.Primitives.Output
use rath_db.Primitives.Transaction
use rath_db.Writer.{new_chain_writer, write_block}
use rath_db.Writer.FileSystem.{new_disk}
use rath_db.Writer.Streams.{write_stream, roll}
use rath_db.Writer.ReadBack.{IsStorable}
use rath_db.Coins.Undo as CoinsUndo
use rath_db.Coins.Undo.{UndoBlock, make_undo_coin_record}
use rath_db.Coins.Columns.{copy_columns}
use rath_db.Coins.Locator
use rath_db.Coins.Locator.{serialize_from_construct}
use rath_db.Chain.Undo.{make_undo_block, make_records, input_columns}
use rath_db.Coins.State.{main_cache_capacity, CoinDatabase, new_coin_database, transaction_hash}
use rath_db.Coins.Validation.{return_matching_utxo, match_found, validate_block}
use rath_db.Chain.{Chain, construct_genesis_block, get_last_block_hash}
use rath_db.Chain.Handle.{handle_block}
use rath_db.Primitives.Transaction.{Transaction, make_transaction}
use rath_db.Primitives.Block.{Block}
use rath_db.Primitives.Header.{make_header}
use rath_db.Primitives.Input.{make_input}
use rath_db.Primitives.Output.{make_output}
use rath_db.Coins.Database.Validity.{CoinsAreSound}
use rath_db.Coins.Database.Kept.{insert-NoneSpent}
use rath_db.Coins.Database.Sound.{new_database-DbIsSound}
use rath_db.Coins.Database.Respend.{validate_block-Available}
use rath_db.Examples.Spending.{payment_Available}
use rath_db.Examples.Starting.{same_text}
use rath_db.Examples.Walks.{forked_chain, ancestor_known}
use rath_db.Chain.Handle.Aside.{OnFork, SetAside, handle_block-SetAside}
use rath_db.Writer.ReadBack.{
  WriterIsSound, write_block-WriterIsSound, new_chain_writer-WriterIsSound,
}
use rath_db.Examples.Storage.{block_IsStorable}
use rath_db.Examples.Data.{env, nonzero-All, funded, spare_coin, payment, small_block, block_record}

abbrev fork_block : Block
fork_block = record small_block { block_header = make_header 1 41 42 43 44 47 }

-- `payment`, whose input stands in the cache, is valid.
abbrev fork_chain : Chain
fork_chain = record forked_chain { coin_database = funded }

fork_copied : copy_transactions fork_block ≡ payment ∷ []
unfolding copy_transactions
fork_copied = refl

fork_validated :
    validate_block env (copy_transactions fork_block) fork_chain.coin_database ≡ ok (true, funded)
fork_validated =
    rw fork_copied
      (validate_block-Available env (payment ∷ []) funded (λ h. cc) (payment_Available, tt))

abbrev fork_undo : UndoBlock
fork_undo = record {
  transaction_hashes = transaction_hash env payment ∷ [];
  undo_coin_records = make_undo_coin_record 1 (1 ∷ []) (50 ∷ []) (8 ∷ []) ∷ [];
}

fork_made : make_undo_block env (copy_block fork_block) funded ≡ ok (fork_undo, funded)
unfolding make_undo_block make_records input_columns return_matching_utxo match_found copy_block
    copy_transactions lookup insert contains new_coin_database serialize_from_construct to_string
    Transaction.serialize Locator.serialize rath_db.Coins.State.read_record
    rath_db.Coins.Record.deserialize copy_columns rath_db.Db.get_safely rath_db.Db.new_database
fork_made = refl

abbrev fork_undo_text : Bytes
fork_undo_text = env.wire.undo_block.encode (record {
  transaction_hashes = transaction_hash env payment ∷ [];
  undo_coin_records =
      record {
        version = 1;
        is_coin_base = false;
        height = 0;
        utxo = 1 ∷ [];
        amounts = 50 ∷ [];
        public_keys = 8 ∷ [];
      }
      ∷ [];
})

fork_undo_written : CoinsUndo.serialize env.wire fork_undo ≡ ok fork_undo_text
unfolding CoinsUndo.serialize CoinsUndo.messages copy_columns
fork_undo_written = refl

fork_undo_IsStorable : IsStorable fork_undo_text fork_chain.chain_writer.undo_stream
unfolding write_block new_chain_writer Transaction.serialize
fork_undo_IsStorable = record {
  fits = record { short = omega arith; numbered = omega arith };
  no_zero = nonzero-All fork_undo_text refl;
}

abbrev fork_text : Bytes
fork_text = Block.serialize env.wire fork_block

fork_IsStorable : IsStorable fork_text fork_chain.chain_writer.block_stream
unfolding write_block write_stream roll new_chain_writer Block.serialize Block.message
    Header.message Transaction.message Input.message Output.message
fork_IsStorable = record {
  fits = record { short = omega arith; numbered = omega arith };
  no_zero = nonzero-All fork_text refl;
}

fork_elsewhere : 41 ≢ get_last_block_hash env fork_chain
unfolding get_last_block_hash construct_genesis_block Block.serialize Block.message Header.message
    Transaction.message Input.message Output.message
fork_elsewhere h = omega (arith, h)

abbrev fork_OnFork : OnFork env fork_chain fork_block
fork_OnFork = record {
  seen = funded;
  valid = fork_validated;
  elsewhere = fork_elsewhere;
  previous = block_record;
  known = ancestor_known;
  not_longer = omega arith;
  range = (omega arith, ((omega arith, (omega arith, tt)), tt));
  storable = fork_IsStorable;
  undo_storable = λ cd' u text m written.
      subst (λ (t : Bytes). IsStorable t fork_chain.chain_writer.undo_stream)
        (same_text fork_made fork_undo_written m written) fork_undo_IsStorable;
}

forked_sound : WriterIsSound fork_chain.chain_writer
forked_sound =
    write_block-WriterIsSound env.uninit (Block.serialize env.wire small_block)
      (new_chain_writer new_disk) block_IsStorable.fits new_chain_writer-WriterIsSound

funded_sound : CoinsAreSound env funded
unfolding new_coin_database lookup insert
funded_sound = record {
  records = new_database-DbIsSound env;
  none_spent = insert-NoneSpent (serialize_from_construct 5 1) spare_coin [] refl (λ k c h. cc);
}

handle_block-SetAside_example :
    (c' : Chain) × (handle_block env 0 fork_block fork_chain ≡ ok c')
    × SetAside env ((3 + 2 ^ 32 - 2) % 2 ^ 32) fork_block fork_chain c'
handle_block-SetAside_example =
    handle_block-SetAside env 0 fork_chain fork_block forked_sound funded_sound fork_OnFork
