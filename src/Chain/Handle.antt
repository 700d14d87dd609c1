-- ===== src/Chain/Handle.antt =====
-- The constructor of `Chain`, `Chain::handle_block` and `Chain::handle_transaction`. The fuel is that
-- of `CoinDatabase::flush_main_cache`.
pub mod Sound
pub mod Returns
pub mod Grow
pub mod Extend
pub mod Unknown
pub mod Aside
pub mod Undoable
use rath_db.Common.{
  ℕ, zero, suc, ◌+◌, ◌-◌, ◌%◌, ◌^◌, Bool, List, [], ◌∷◌, ◌++◌, length, ltb, ◌==◌, if◌then◌else◌,
  Option, none, some, Outcome, ok, undefined, ◌>>=◌,
}
use rath_db.Env.{Env}
use rath_db.Primitives.Transaction.{Transaction}
use rath_db.Primitives.Block.{Block, copy_block, copy_transactions}
use rath_db.BlockInfo
use rath_db.BlockInfo.Record.{BlockRecord}
use rath_db.Writer
use rath_db.Writer.FileSystem.{Disk}
use rath_db.Coins.Undo.{UndoBlock}
use rath_db.Coins.State
use rath_db.Coins.Validation
use rath_db.Coins.Database
use rath_db.Coins.State.{CoinDatabase}
use rath_db.Coins.Undoing.{undo_coins}
use rath_db.Chain.{
  Chain, construct_genesis_block, block_hash, get_last_block, get_last_block_hash, get_record,
  follow,
}
use rath_db.Chain.Undo.{make_undo_block}
use rath_db.Chain.Active.{get_active_chain}
use rath_db.Chain.Fork.{get_forked_blocks_stack, get_undo_blocks_queue}

-- `_chain_writer->store_block`, and `_block_info_database->store_block_record` under the hash.
unfoldable pub record_block : Env → Block → UndoBlock → ℕ → Chain → Outcome Chain
record_block e b u height c = do
  stored ← Writer.store_block e b u height c.chain_writer
  ok (record c {
    chain_writer = stored.1;
    block_info_database =
        BlockInfo.store_block_record e.wire (block_hash e b) stored.0 c.block_info_database;
  })

abbrev pub with_coins : Chain → CoinDatabase → Chain
with_coins c cd = record c { coin_database = cd }

-- `branching` is what the member `_branching_height` holds, which no constructor sets.
unfoldable pub new_chain : Env → ℕ → ℕ → Disk → Outcome Chain
new_chain e fuel branching disk =
    let start : Chain = record {
      branching_height = branching;
      active_chain_length = 1;
      active_chain_last_block = construct_genesis_block;
      block_info_database = BlockInfo.new_block_info_database;
      chain_writer = Writer.new_chain_writer disk;
      coin_database = State.new_coin_database;
      last_five_hashes = [];
    } in
    do
      undo ← make_undo_block e (get_last_block start) start.coin_database
      c ← record_block e start.active_chain_last_block undo.0 1 (with_coins start undo.1)
      cd ← Database.store_block e fuel (copy_transactions c.active_chain_last_block) c.coin_database
      ok (record c {
        coin_database = cd;
        last_five_hashes = block_hash e c.active_chain_last_block ∷ [];
      })

drop_oldest : List ℕ → List ℕ
drop_oldest [] = []
drop_oldest (h ∷ hs) = hs

-- The newest hash is at the end.
push_hash : ℕ → List ℕ → List ℕ
unfolding drop_oldest
push_hash hash hs = (if ltb (length hs) 5 then hs else drop_oldest hs) ++ hash ∷ []

-- The block extends the active chain and is valid.
unfoldable pub append_block : Env → Block → Chain → Outcome Chain
unfolding push_hash
append_block e b c =
    let longer = record c {
      active_chain_length = (c.active_chain_length + 1) % 2 ^ 32;
      active_chain_last_block = b;
    } in
    do
      undo ← make_undo_block e (get_last_block longer) longer.coin_database
      c' ← record_block e b undo.0 longer.active_chain_length (with_coins longer undo.1)
      ok (record c' { last_five_hashes = push_hash (block_hash e b) c'.last_five_hashes })

-- The branch on the result of `validate_and_store_block`.
extend : Env → Block → Option Bool × CoinDatabase → Chain → Outcome Chain
extend e b (none, cd) c = undefined
extend e b (some valid, cd) c =
    if valid then append_block e b (with_coins c cd) else ok (with_coins c cd)

without_last : ℕ → List ℕ → List ℕ
without_last x [] = []
without_last x (y ∷ ys) = x ∷ without_last y ys

-- `_last_five_hashes.pop_back()`, so many times.
pop_hashes : ℕ → List ℕ → Outcome (List ℕ)
unfolding without_last
pop_hashes zero hs = ok hs
pop_hashes (suc n) [] = undefined
pop_hashes (suc n) (h ∷ hs) = pop_hashes n (without_last h hs)

-- The hash of a forked block is found in the block after it, or is that of the new block.
next_hash : ℕ → List Block → ℕ
next_hash hash [] = hash
next_hash hash (b ∷ bs) = b.block_header.previous_block_hash

-- The loop over the forked blocks: each is stored, and the hash of each is pushed.
store_fork : Env → ℕ → ℕ → List Block → Chain → Outcome Chain
unfolding next_hash
store_fork e fuel hash [] c = ok c
store_fork e fuel hash (b ∷ bs) c = do
  cd ← Database.store_block e fuel b.transactions c.coin_database
  store_fork e fuel hash bs (record c {
    coin_database = cd;
    last_five_hashes = c.last_five_hashes ++ next_hash hash bs ∷ [];
  })

unfoldable follow_all {ℓ} : {A : Type ℓ} → List (Option A) → Outcome (List A)
follow_all [] = ok []
follow_all (p ∷ ps) = do a ← follow p; as' ← follow_all ps; ok (a ∷ as')

-- A fork has become longer than the active chain, and its blocks have been found. The loop of
-- `undo_coins` follows every pointer of the queue.
unfoldable switch_from : Env → ℕ → Block → ℕ → List Block × Chain → Outcome Chain
unfolding pop_hashes store_fork follow_all drop_oldest
switch_from e fuel b hash forked = do
  let forked_stack = forked.0 ++ copy_block b ∷ []
  queue ← get_undo_blocks_queue e forked.1.branching_height forked.1
  blocks ←
      get_active_chain e ((queue.1.branching_height + 1) % 2 ^ 32) queue.1.active_chain_length
        queue.1
  undos ← follow_all queue.0
  cd ← undo_coins e undos blocks.0 blocks.1.coin_database
  hashes ← pop_hashes (length queue.0) blocks.1.last_five_hashes
  c' ←
      store_fork e fuel hash forked_stack
        (record blocks.1 { coin_database = cd; branching_height = 0; last_five_hashes = hashes })
  ok (record c' {
    last_five_hashes =
        if ltb 5 (length c'.last_five_hashes)
        then drop_oldest c'.last_five_hashes
        else c'.last_five_hashes;
  })

unfoldable pub switch_fork : Env → ℕ → Block → ℕ → Chain → Outcome Chain
unfolding switch_from
switch_fork e fuel b hash c = do
  forked ← get_forked_blocks_stack e b.block_header.previous_block_hash c
  switch_from e fuel b hash forked

-- The block is kept on its fork, at the height after its predecessor's.
unfoldable pub keep_fork : Env → Block → ℕ → Chain → Outcome Chain
keep_fork e b height c = do
  undo ← make_undo_block e (copy_block b) c.coin_database
  record_block e b undo.0 height (with_coins c undo.1)

-- Not on top of the active chain. Whether the block is valid is computed, and not looked at.
unfoldable pub handle_fork : Env → ℕ → Block → Chain → Outcome Chain
handle_fork e fuel b c = do
  validated ← Validation.validate_block e (copy_transactions b) c.coin_database
  let (found, c') = get_record e b.block_header.previous_block_hash (with_coins c validated.1)
  previous ← follow found
  let depth = (c'.active_chain_length + 2 ^ 32 - previous.height) % 2 ^ 32
  let height = (previous.height + 1) % 2 ^ 32
  if ltb depth 5
      then (if ltb c'.active_chain_length height
          then switch_fork e fuel b (block_hash e b) c'
          else keep_fork e b height c')
      else ok c'

unfoldable pub handle_block : Env → ℕ → Block → Chain → Outcome Chain
unfolding extend
handle_block e fuel b c =
    if b.block_header.previous_block_hash == get_last_block_hash e c
    then (do
      result ← Database.validate_and_store_block e fuel (copy_transactions b) c.coin_database
      extend e b result c)
    else handle_fork e fuel b c

unfoldable pub handle_transaction : Env → Transaction → Chain → Outcome Chain
handle_transaction e t c = do
  result ← Database.validate_and_store_transaction e t c.coin_database
  ok (with_coins c result.1)
