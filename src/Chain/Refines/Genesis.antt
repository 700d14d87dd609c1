-- ===== src/Chain/Refines/Genesis.antt =====
-- The chain that the constructor of `Chain` makes on an empty disk.
use rath_db.Common.{length, List, ok_inj, ℕ, ◌≡◌, sym, subst, ◌∙◌, List, [], ◌∷◌, Bytes, ok}
use rath_db.Env.{Env}
use rath_db.Primitives.Block.{Block, copy_block, copy_transactions}
use rath_db.Primitives.Block
use rath_db.BlockInfo
use rath_db.Writer
use rath_db.Writer.FileSystem.{new_disk}
use rath_db.Writer.ReadBack.{new_chain_writer-WriterIsSound}
use rath_db.Coins.Undo.{UndoBlock}
use rath_db.Coins.Undo as CoinsUndo
use rath_db.Coins.State.{CoinDatabase, new_coin_database}
use rath_db.Coins.Database.{remove_transactions_from_mempool}
use rath_db.Coins.Database.Sound.{after_all}
use rath_db.Coins.Database.Kept.{store_block-fits, new_coin_database-CoinsAreSound}
use rath_db.Coins.Database.Validity.{with_database}
use rath_db.Chain.{Chain, construct_genesis_block, block_hash, get_last_block}
use rath_db.Chain.Undo.{make_undo_block}
use rath_db.Chain.Undo.Made.{make_undo_block-total}
use rath_db.Writer.Streams.Invariant.{Fits}
use rath_db.Chain.Recording.{record_block-Written}
use rath_db.Chain.Handle.{with_coins, new_chain}
use rath_db.Chain.Handle.Returns.{new_chain-returns, genesis_fits}
use rath_db.Chain.Handle.Sound.{ChainIsSound}
use rath_db.Chain.Active.{get_active_chain}
use rath_db.Chain.Refines.{Represents, History, get_active_chain-History}

-- The genesis block and the undo block made of it fit the first files. Their texts may have zero bytes.
pub record GenesisFits (e : Env) : Type 0 where
  pub fits :
      Fits
        (length (Block.serialize e.wire construct_genesis_block))
        (Writer.new_chain_writer new_disk).block_stream
  pub undo_fits :
      (u : UndoBlock) (cd : CoinDatabase) (text : Bytes)
      → make_undo_block e (copy_block construct_genesis_block) new_coin_database ≡ ok (u, cd)
      → CoinsUndo.serialize e.wire u ≡ ok text
      → Fits (length text) (Writer.new_chain_writer new_disk).undo_stream

module _ (e : Env) (fuel branching : ℕ) (g : GenesisFits e) where
  start : Chain
  start = record {
    branching_height = branching;
    active_chain_length = 1;
    active_chain_last_block = construct_genesis_block;
    block_info_database = BlockInfo.new_block_info_database;
    chain_writer = Writer.new_chain_writer new_disk;
    coin_database = new_coin_database;
    last_five_hashes = [];
  }

  -- Above its genesis block the new chain stands for no block.
  pub new_chain-Represents :
      (c : Chain) × (new_chain e fuel branching new_disk ≡ ok c) × Represents e 1 c []
  unfolding new_chain get_last_block start
  new_chain-Represents =
      let (u, db, made, p, _) =
        make_undo_block-total e (get_last_block start) new_coin_database
          (new_coin_database-CoinsAreSound e) in
      let cd = with_database new_coin_database db in
      let (text, written, _) = CoinsUndo.serialize-UndoInRange e.wire u p in
      let (c', run, r) =
        record_block-Written e construct_genesis_block u 1 (with_coins start cd) text
          new_chain_writer-WriterIsSound g.fits (g.undo_fits u cd text made written) written in
      let (c'', run'', ends) = new_chain-returns e fuel branching new_disk in
      let ts = copy_transactions construct_genesis_block in
      let c = record c' {
        coin_database = after_all e ts (remove_transactions_from_mempool e ts cd);
        last_five_hashes = block_hash e c'.active_chain_last_block ∷ [];
      } in
      let stored : new_chain e fuel branching new_disk ≡ ok c =
        rw (made, run, r.last_kept, r.coins_kept, store_block-fits e fuel ts cd genesis_fits) in
      (
        c,
        stored,
        record {
          writer = r.sound;
          coins = subst (ChainIsSound e) (ok_inj (sym run'' ∙ stored)) ends.sound_now;
          linked = tt;
          counted = sym r.length_kept;
        },
      )

-- After the constructor on an empty disk, where the genesis block and its undo block fit the first
-- files, and after any sequence of blocks that are in range, valid, new and storable on top of the
-- chain and fit the cache, and of valid, new and storable blocks on forks that do not become longer
-- than it, walking the active chain from height 2, above the genesis block, to its length gives the
-- blocks that were accepted on top, in their order: above the genesis block the files, the block
-- database and the hashes implement a list of blocks.
pub get_active_chain-new_chain :
    (e : Env) (fuel branching : ℕ) {c c' : Chain} {ns : List Block}
    → GenesisFits e
    → new_chain e fuel branching new_disk ≡ ok c
    → History e c [] ns c'
    → (c'' : Chain) × (get_active_chain e 2 c'.active_chain_length c' ≡ ok (ns, c''))
get_active_chain-new_chain e fuel branching g made run =
    let (c, made', r) = new_chain-Represents e fuel branching g in
    get_active_chain-History e 1
      (subst (λ (d : Chain). Represents e 1 d []) (ok_inj (sym made' ∙ made)) r) run
