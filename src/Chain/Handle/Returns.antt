-- ===== src/Chain/Handle/Returns.antt =====
-- When the constructor of `Chain` and `Chain::handle_block` complete.
use rath_db.Common.{
  ==_eq, ℕ, ◌+◌, ◌%◌, ◌^◌, ◌≤◌, ◌≡◌, refl, sym, subst, [], ◌∷◌, length, true, false, Bool-cases,
  inl, inr, ok, undefined, arith,
}
use rath_db.Env.{Env}
use rath_db.Primitives.Block.{Block, copy_block, copy_transactions}
use rath_db.Primitives.Block
use rath_db.BlockInfo
use rath_db.BlockInfo.Record.{BlockRecord, make_block_record}
use rath_db.Writer.{ChainWriter}
use rath_db.Writer
use rath_db.Writer.FileSystem.{Disk}
use rath_db.Coins.Undo.{UndoBlock, UndoInRange, serialize-UndoInRange}
use rath_db.Coins.State.{CoinDatabase, new_coin_database, main_cache_capacity}
use rath_db.Coins.Validation.{validate_block}
use rath_db.Coins.Database.{validate_and_store_block, remove_transactions_from_mempool}
use rath_db.Coins.Database.Sound.{after_all}
use rath_db.Coins.Database.Validity.{
  CoinsAreSound, with_database, with_database-CoinsAreSound, validate_block-total,
}
use rath_db.Coins.Database.Kept.{
  store_block-fits, after_all-CoinsAreSound, remove-CoinsAreSound, new_coin_database-CoinsAreSound,
}
use rath_db.Coins.Database.Accepting.{validate_and_store_block-total}
use rath_db.Chain.{Chain, construct_genesis_block, block_hash, get_last_block, get_last_block_hash}
use rath_db.Chain.Undo.Made.{make_undo_block-total}
use rath_db.Chain.Handle.{
  record_block, with_coins, new_chain, append_block, extend, push_hash, handle_block,
}
use rath_db.Chain.Handle.Sound.{ChainIsSound}

store_block-total :
    (e : Env) (b : Block) (u : UndoBlock) (height : ℕ) (w : ChainWriter)
    → UndoInRange u
    → (r : BlockRecord) × (w' : ChainWriter) × (Writer.store_block e b u height w ≡ ok (r, w'))
unfolding Writer.store_block
store_block-total e b u height w p =
    let (text, s, _) = serialize-UndoInRange e.wire u p in
    let block = Writer.write_block e.uninit (Block.serialize e.wire b) w in
    let undo = Writer.write_undo_block e.uninit text block.1 in
    (
      make_block_record (Writer.get_header b) (length b.transactions % 2 ^ 32) height block.0
          undo.0,
      undo.1,
      rw s,
    )

-- A block is recorded with an undo block in range, and the rest of the chain is kept.
record_block-total :
    (e : Env) (b : Block) (u : UndoBlock) (height : ℕ) (c : Chain)
    → UndoInRange u
    → (c' : Chain) × (record_block e b u height c ≡ ok c')
      × (c'.coin_database ≡ c.coin_database)
      × (c'.active_chain_length ≡ c.active_chain_length)
      × (c'.active_chain_last_block ≡ c.active_chain_last_block)
unfolding record_block
record_block-total e b u height c p =
    let (r, w', stored) = store_block-total e b u height c.chain_writer p in
    (
      record c {
        chain_writer = w';
        block_info_database =
            BlockInfo.store_block_record e.wire (block_hash e b) r c.block_info_database;
      },
      rw stored,
      refl,
      refl,
      refl,
    )

-- What the chain is after a block was put at its end.
pub record Ends (e : Env) (b : Block) (n : ℕ) (c : Chain) : Type 0 where
  pub length_now : c.active_chain_length ≡ n
  pub last_now : c.active_chain_last_block ≡ b
  pub sound_now : ChainIsSound e c

append_block-total :
    (e : Env) (b : Block) (c : Chain)
    → ChainIsSound e c
    → (c' : Chain) × (append_block e b c ≡ ok c')
      × Ends e b ((c.active_chain_length + 1) % 2 ^ 32) c'
unfolding append_block
append_block-total e b c h =
    let longer = record c {
      active_chain_length = (c.active_chain_length + 1) % 2 ^ 32;
      active_chain_last_block = b;
    } in
    let (u, db, r, p, d) = make_undo_block-total e (get_last_block longer) c.coin_database h in
    let cd = with_database c.coin_database db in
    let (c', r', coins, len, last) =
      record_block-total e b u longer.active_chain_length (with_coins longer cd) p in
    (
      record c' { last_five_hashes = push_hash (block_hash e b) c'.last_five_hashes },
      rw (r, r'),
      record {
        length_now = len;
        last_now = last;
        sound_now =
            subst (CoinsAreSound e) (sym coins)
              (with_database-CoinsAreSound e c.coin_database db h d);
      },
    )

module _ (e : Env) (fuel : ℕ) (b : Block) (c : Chain) (h : ChainIsSound e c)
    (on_top : b.block_header.previous_block_hash ≡ get_last_block_hash e c) where
  pub handle_block-returns :
      {cd : CoinDatabase}
      → validate_block e (copy_transactions b) c.coin_database ≡ ok (true, cd)
      → length (copy_transactions b) + c.coin_database.main_cache_size ≤ main_cache_capacity
      → (c' : Chain) × (handle_block e fuel b c ≡ ok c')
        × Ends e b ((c.active_chain_length + 1) % 2 ^ 32) c'
  unfolding handle_block extend
  handle_block-returns {cd} valid fit =
      let (stored, r, s) =
        validate_and_store_block-total e fuel (copy_transactions b) c.coin_database h valid fit in
      let (c', r', ends) = append_block-total e b (with_coins c stored) s in
      (
        c',
        rw (==_eq b.block_header.previous_block_hash (get_last_block_hash e c) on_top, r) r',
        ends,
      )

  pub handle_block-invalid :
      {cd : CoinDatabase}
      → validate_block e (copy_transactions b) c.coin_database ≡ ok (false, cd)
      → handle_block e fuel b c ≡ undefined
  unfolding handle_block validate_and_store_block extend
  handle_block-invalid {cd} invalid =
      rw (==_eq b.block_header.previous_block_hash (get_last_block_hash e c) on_top, invalid)

-- What `handle_block` does with a block on top, with the verdict that it goes by.
pub data Handled (e : Env) (fuel : ℕ) (b : Block) (c : Chain) : Type 0 where
  grown :
      {c' : Chain} {cd : CoinDatabase}
      → validate_block e (copy_transactions b) c.coin_database ≡ ok (true, cd)
      → handle_block e fuel b c ≡ ok c'
      → Ends e b ((c.active_chain_length + 1) % 2 ^ 32) c'
      → Handled e fuel b c
  lost :
      {cd : CoinDatabase}
      → validate_block e (copy_transactions b) c.coin_database ≡ ok (false, cd)
      → handle_block e fuel b c ≡ undefined
      → Handled e fuel b c

-- On a chain with a sound coin database, a block that names the last block's hash and fits the
-- cache gets a verdict: either it is valid and `handle_block` returns a chain that is longer by one
-- modulo 2^32, ends in the block and has a sound coin database, or it is not valid and
-- `handle_block` runs into the missing return.
pub handle_block-Handled :
    (e : Env) (fuel : ℕ) (b : Block) (c : Chain)
    → ChainIsSound e c
    → b.block_header.previous_block_hash ≡ get_last_block_hash e c
    → length (copy_transactions b) + c.coin_database.main_cache_size ≤ main_cache_capacity
    → Handled e fuel b c
handle_block-Handled e fuel b c h on_top fit =
    let (valid, db, r, _) = validate_block-total e (copy_transactions b) c.coin_database h in
    let cd = with_database c.coin_database db in
    elim (Bool-cases valid) [
      | inl good ↦
          let r' : validate_block e (copy_transactions b) c.coin_database ≡ ok (true, cd) =
            rw (r, good) in
          let (c', run, ends) = handle_block-returns e fuel b c h on_top r' fit in grown r' run ends
      | inr bad ↦
          let r' : validate_block e (copy_transactions b) c.coin_database ≡ ok (false, cd) =
            rw (r, bad) in
          lost r' (handle_block-invalid e fuel b c h on_top r')
    ]

pub genesis_fits :
    length (copy_transactions construct_genesis_block) + new_coin_database.main_cache_size
    ≤ main_cache_capacity
unfolding copy_transactions construct_genesis_block new_coin_database
genesis_fits = omega arith

-- The constructor returns on every data directory and with any amount of fuel, and the chain has
-- length 1, ends in the genesis block and has a sound coin database.
pub new_chain-returns :
    (e : Env) (fuel branching : ℕ) (disk : Disk)
    → (c : Chain) × (new_chain e fuel branching disk ≡ ok c) × Ends e construct_genesis_block 1 c
unfolding new_chain
new_chain-returns e fuel branching disk =
    let start : Chain = record {
      branching_height = branching;
      active_chain_length = 1;
      active_chain_last_block = construct_genesis_block;
      block_info_database = BlockInfo.new_block_info_database;
      chain_writer = Writer.new_chain_writer disk;
      coin_database = new_coin_database;
      last_five_hashes = [];
    } in
    let h = new_coin_database-CoinsAreSound e in
    let (u, db, r, p, d) = make_undo_block-total e (get_last_block start) new_coin_database h in
    let read = with_database new_coin_database db in
    let (c', r', coins, len, last) =
      record_block-total e construct_genesis_block u 1 (with_coins start read) p in
    let ts = copy_transactions construct_genesis_block in
    let stored = after_all e ts (remove_transactions_from_mempool e ts read) in
    (
      record c' {
        coin_database = stored;
        last_five_hashes = block_hash e c'.active_chain_last_block ∷ [];
      },
      rw (r, r', last, coins, store_block-fits e fuel ts read genesis_fits),
      record {
        length_now = len;
        last_now = last;
        sound_now = after_all-CoinsAreSound e ts _ (
            remove-CoinsAreSound e ts read
              (with_database-CoinsAreSound e new_coin_database db h d));
      },
    )
