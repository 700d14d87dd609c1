-- ===== src/Examples/Starting.antt =====
-- The chain from its constructor on, tried on concrete values.
use rath_db.Common.{length, ◌≡◌, refl, subst, false, ok, Outcome, [], ◌∷◌, Bytes, arith}
use rath_db.Common.Map.{lookup, insert, contains}
use rath_db.Text.{to_string}
use rath_db.Primitives.Block
use rath_db.Primitives.Block.{copy_block, copy_transactions}
use rath_db.Primitives.Header
use rath_db.Primitives.Input
use rath_db.Primitives.Output
use rath_db.Primitives.Transaction
use rath_db.BlockInfo.{new_block_info_database, store_block_record}
use rath_db.BlockInfo.Record.{BlockRecord, make_block_record}
use rath_db.Writer
use rath_db.Writer.{ChainWriter, new_chain_writer, write_block, write_undo_block}
use rath_db.Writer.FileSystem.{new_disk}
use rath_db.Writer.Info.{FileInfo}
use rath_db.Coins.Undo as CoinsUndo
use rath_db.Coins.Undo.{UndoBlock, make_undo_coin_record}
use rath_db.Coins.Columns.{copy_columns}
use rath_db.Coins.Locator
use rath_db.Coins.Locator.{serialize_from_construct}
use rath_db.Chain.Undo.{make_undo_block, make_records, input_columns}
use rath_db.Db.{Database}
use rath_db.Coins.State.{CoinDatabase, new_coin_database, transaction_hash}
use rath_db.Coins.Validation.{return_matching_utxo, match_found}
use rath_db.Coins.Database.{remove_transactions_from_mempool}
use rath_db.Coins.Database.Sound.{after_all}
use rath_db.Chain.{Chain, construct_genesis_block, block_hash, get_last_block}
use rath_db.Chain.Handle.{record_block, new_chain}
use rath_db.Chain.Handle.Returns.{genesis_fits}
use rath_db.Chain.Refines.Genesis.{GenesisFits}
use rath_db.Writer.Streams.Invariant.{Fits}
use rath_db.Coins.Database.Kept.{store_block-fits}
use rath_db.Coins.Record.{Coin}
use rath_db.Primitives.Transaction.{Transaction, make_transaction}
use rath_db.Primitives.Block.{Block}
use rath_db.Primitives.Header.{make_header}
use rath_db.Primitives.Input.{make_input}
use rath_db.Primitives.Output.{make_output}
use rath_db.Examples.Data.{env}
use rath_db.Examples.Storage.{text_Fits, undo_text_Fits}

abbrev pub genesis_undo : UndoBlock
genesis_undo = record {
  transaction_hashes = 1509 ∷ [];
  undo_coin_records = make_undo_coin_record 1 (0 ∷ []) (0 ∷ []) (0 ∷ []) ∷ [];
}

-- The lookup has left an empty value under the hash 0.
abbrev pub read_coins : CoinDatabase
read_coins = record new_coin_database { database = record { store = (to_string 0, []) ∷ [] } }

pub genesis_made :
    make_undo_block env (copy_block construct_genesis_block) new_coin_database
    ≡ ok (genesis_undo, read_coins)
unfolding make_undo_block make_records input_columns return_matching_utxo match_found copy_block
    copy_transactions construct_genesis_block lookup insert contains new_coin_database
    serialize_from_construct to_string Transaction.serialize Locator.serialize
    rath_db.Coins.State.read_record rath_db.Coins.Record.deserialize copy_columns
    rath_db.Db.get_safely rath_db.Db.new_database
genesis_made = refl

abbrev pub genesis_undo_text : Bytes
genesis_undo_text = env.wire.undo_block.encode (record {
  transaction_hashes = 1509 ∷ [];
  undo_coin_records =
      record {
        version = 1;
        is_coin_base = false;
        height = 0;
        utxo = 0 ∷ [];
        amounts = 0 ∷ [];
        public_keys = 0 ∷ [];
      }
      ∷ [];
})

genesis_undo_written : CoinsUndo.serialize env.wire genesis_undo ≡ ok genesis_undo_text
unfolding CoinsUndo.serialize CoinsUndo.messages copy_columns
genesis_undo_written = refl

abbrev pub genesis_text : Bytes
genesis_text = Block.serialize env.wire construct_genesis_block

abbrev pub genesis_written : FileInfo × ChainWriter
genesis_written = write_block env.uninit genesis_text (new_chain_writer new_disk)

abbrev pub both_written : FileInfo × ChainWriter
both_written = write_undo_block env.uninit genesis_undo_text genesis_written.1

abbrev pub genesis_record : BlockRecord
genesis_record =
    make_block_record (Writer.get_header construct_genesis_block) 1 1 genesis_written.0
      both_written.0

-- What the constructor makes.
abbrev pub started : Chain
started = record {
  branching_height = 0;
  active_chain_length = 1;
  active_chain_last_block = construct_genesis_block;
  block_info_database =
      store_block_record env.wire (block_hash env construct_genesis_block) genesis_record
        new_block_info_database;
  chain_writer = both_written.1;
  coin_database =
      after_all env (copy_transactions construct_genesis_block) (
        remove_transactions_from_mempool env (copy_transactions construct_genesis_block)
          read_coins);
  last_five_hashes = block_hash env construct_genesis_block ∷ [];
}

-- It is the chain before its coins are stored.
recorded :
    record_block env construct_genesis_block genesis_undo 1 (record {
      branching_height = 0;
      active_chain_length = 1;
      active_chain_last_block = construct_genesis_block;
      block_info_database = new_block_info_database;
      chain_writer = new_chain_writer new_disk;
      coin_database = read_coins;
      last_five_hashes = [];
    })
    ≡ ok (record started { coin_database = read_coins; last_five_hashes = [] })
unfolding record_block Writer.store_block construct_genesis_block
recorded = rw genesis_undo_written

pub started_made : new_chain env 0 0 new_disk ≡ ok started
unfolding new_chain get_last_block
started_made = rw (
  genesis_made,
  recorded,
  store_block-fits env 0 (copy_transactions construct_genesis_block) read_coins genesis_fits,
)

-- What an undo block is written as depends on the run that made it only.
pub same_text :
    {made : Outcome (UndoBlock × CoinDatabase)} {u u' : UndoBlock} {cd cd' : CoinDatabase}
    {text text' : Bytes}
    → made ≡ ok (u, cd)
    → CoinsUndo.serialize env.wire u ≡ ok text
    → made ≡ ok (u', cd')
    → CoinsUndo.serialize env.wire u' ≡ ok text'
    → text ≡ text'
same_text m s m' s' = cc

pub genesis_Fits : GenesisFits env
unfolding construct_genesis_block Block.serialize Block.message Header.message Transaction.message
    Input.message Output.message
genesis_Fits = record {
  fits = text_Fits _ (omega arith);
  undo_fits = λ u cd text made written.
      subst (λ (t : Bytes). Fits (length t) (new_chain_writer new_disk).undo_stream)
        (same_text genesis_made genesis_undo_written made written) (undo_text_Fits _ (omega arith));
}
