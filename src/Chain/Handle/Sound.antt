-- ===== src/Chain/Handle/Sound.antt =====
-- Every way through `Chain::handle_block` and `Chain::handle_transaction` keeps the coin database
-- sound, if it completes.
use rath_db.Common.{
  ℕ, ◌+◌, ◌-◌, ◌%◌, ◌^◌, sym, subst, ◌∙◌, List, [], ◌∷◌, ◌++◌, length, ltb, ◌==◌, Bool, true, false,
  Bool-cases, inl, inr, Option, none, some, ◌>>=◌, Ensures, Ensures-ok, Ensures-bind, Ensures-any,
}
use rath_db.Env.{Env}
use rath_db.Primitives.Transaction.{Transaction}
use rath_db.Primitives.Block.{Block, copy_block, copy_transactions}
use rath_db.Writer
use rath_db.Coins.Undo.{UndoBlock}
use rath_db.Coins.Database
use rath_db.Coins.State.{CoinDatabase}
use rath_db.Coins.Database.{validate_and_store_block, validate_and_store_transaction}
use rath_db.Coins.Database.Validity.{
  CoinsAreSound, with_database, with_database-CoinsAreSound, validate_block-total,
}
use rath_db.Coins.Database.Kept.{store_block-CoinsAreSound}
use rath_db.Coins.Database.Accepting.{
  validate_and_store_block-CoinsAreSound, validate_and_store_transaction-Ensures,
}
use rath_db.Coins.Undoing.{undo_coins}
use rath_db.Coins.Undoing.Kept.{undo_coins-CoinsAreSound}
use rath_db.Chain.{Chain, block_hash, get_last_block, get_last_block_hash, get_record, follow}
use rath_db.Chain.Undo.{make_undo_block}
use rath_db.Chain.Undo.Made.{make_undo_block-total}
use rath_db.Chain.Active.{get_active_chain}
use rath_db.Chain.Fork.{get_forked_blocks_stack, get_undo_blocks_queue}
use rath_db.Chain.Lengths.{get_undo_blocks_queue-length, get_record-SameHeights}
use rath_db.Chain.Frames.{get_active_chain-SameHeights, get_forked_blocks_stack-SameCoins}
use rath_db.Chain.Handle.{
  record_block, with_coins, append_block, extend, push_hash, pop_hashes, next_hash, store_fork,
  follow_all, switch_from, switch_fork, keep_fork, handle_fork, handle_block, handle_transaction,
}

abbrev pub ChainIsSound : Env → Chain → Type 0
ChainIsSound e c = CoinsAreSound e c.coin_database

record_block-ChainIsSound :
    (e : Env) (b : Block) (u : UndoBlock) (height : ℕ) (c : Chain)
    → ChainIsSound e c
    → Ensures (ChainIsSound e) (record_block e b u height c)
unfolding record_block
record_block-ChainIsSound e b u height c h =
    Ensures-bind _ (Writer.store_block e b u height c.chain_writer) (Ensures-any _)
      λ stored _. Ensures-ok (ChainIsSound e) _ h

-- An undo block is made, and then both are recorded.
make_and_record :
    (e : Env) (b copied : Block) (height : ℕ) (c : Chain)
    → ChainIsSound e c
    → Ensures (ChainIsSound e) (
        make_undo_block e copied c.coin_database >>= λ undo.
        record_block e b undo.0 height (with_coins c undo.1))
make_and_record e b copied height c h =
    let (u, db, r, _, d) = make_undo_block-total e copied c.coin_database h in
    rw r (
      record_block-ChainIsSound e b u height (with_coins c (with_database c.coin_database db))
        (with_database-CoinsAreSound e c.coin_database db h d))

append_block-ChainIsSound :
    (e : Env) (b : Block) (c : Chain)
    → ChainIsSound e c
    → Ensures (ChainIsSound e) (append_block e b c)
unfolding append_block
append_block-ChainIsSound e b c h =
    let longer = record c {
      active_chain_length = (c.active_chain_length + 1) % 2 ^ 32;
      active_chain_last_block = b;
    } in
    let (u, db, r, _, d) = make_undo_block-total e (get_last_block longer) c.coin_database h in
    let cd = with_database c.coin_database db in
    rw r (
      Ensures-bind _ (record_block e b u longer.active_chain_length (with_coins longer cd))
        (record_block-ChainIsSound e b u longer.active_chain_length (with_coins longer cd)
          (with_database-CoinsAreSound e c.coin_database db h d))
        λ c' h'.
          Ensures-ok (ChainIsSound e)
            (record c' { last_five_hashes = push_hash (block_hash e b) c'.last_five_hashes }) h')

extend-ChainIsSound :
    (e : Env) (b : Block) (result : Option Bool × CoinDatabase) (c : Chain)
    → CoinsAreSound e result.1
    → Ensures (ChainIsSound e) (extend e b result c)
unfolding extend
extend-ChainIsSound e b (none, cd) c h = record { at = λ c' k. cc }
extend-ChainIsSound e b (some true, cd) c h = append_block-ChainIsSound e b (with_coins c cd) h
extend-ChainIsSound e b (some false, cd) c h = Ensures-ok (ChainIsSound e) (with_coins c cd) h

store_fork-ChainIsSound :
    (e : Env) (fuel hash : ℕ) (bs : List Block) (c : Chain)
    → ChainIsSound e c
    → Ensures (ChainIsSound e) (store_fork e fuel hash bs c)
unfolding store_fork
store_fork-ChainIsSound e fuel hash [] c h = Ensures-ok (ChainIsSound e) c h
store_fork-ChainIsSound e fuel hash (b ∷ bs) c h =
    Ensures-bind _ (Database.store_block e fuel b.transactions c.coin_database)
      (store_block-CoinsAreSound e fuel b.transactions c.coin_database h)
      λ cd h'.
        store_fork-ChainIsSound e fuel hash bs
          (record c {
            coin_database = cd;
            last_five_hashes = c.last_five_hashes ++ next_hash hash bs ∷ [];
          })
          h'

switch_from-ChainIsSound :
    (e : Env) (fuel : ℕ) (b : Block) (hash : ℕ) (forked : List Block × Chain)
    → ChainIsSound e forked.1
    → Ensures (ChainIsSound e) (switch_from e fuel b hash forked)
unfolding switch_from
switch_from-ChainIsSound e fuel b hash forked h =
    Ensures-bind _ (get_undo_blocks_queue e forked.1.branching_height forked.1)
      (get_undo_blocks_queue-length e forked.1.branching_height forked.1)
      λ queue q.
        Ensures-bind _
          (get_active_chain e ((queue.1.branching_height + 1) % 2 ^ 32) queue.1.active_chain_length
            queue.1)
          (get_active_chain-SameHeights e ((queue.1.branching_height + 1) % 2 ^ 32)
            queue.1.active_chain_length queue.1)
          λ blocks s. Ensures-bind _ (follow_all queue.0) (Ensures-any _) λ undos _.
            Ensures-bind _ (undo_coins e undos blocks.0 blocks.1.coin_database)
              (undo_coins-CoinsAreSound e undos blocks.0 blocks.1.coin_database
                (subst (CoinsAreSound e) (sym (s.coins_kept ∙ q.1.coins_kept)) h))
              λ cd k.
                Ensures-bind _ (pop_hashes (length queue.0) blocks.1.last_five_hashes)
                  (Ensures-any _)
                  λ hashes _.
                    Ensures-bind _
                      (store_fork e fuel hash (forked.0 ++ copy_block b ∷ []) (record blocks.1 {
                        coin_database = cd;
                        branching_height = 0;
                        last_five_hashes = hashes;
                      }))
                      (store_fork-ChainIsSound e fuel hash (forked.0 ++ copy_block b ∷ [])
                        (record blocks.1 {
                          coin_database = cd;
                          branching_height = 0;
                          last_five_hashes = hashes;
                        })
                        k)
                      λ c' h'. Ensures-ok (ChainIsSound e) _ h'

switch_fork-ChainIsSound :
    (e : Env) (fuel : ℕ) (b : Block) (hash : ℕ) (c : Chain)
    → ChainIsSound e c
    → Ensures (ChainIsSound e) (switch_fork e fuel b hash c)
unfolding switch_fork
switch_fork-ChainIsSound e fuel b hash c h =
    Ensures-bind _ (get_forked_blocks_stack e b.block_header.previous_block_hash c)
      (get_forked_blocks_stack-SameCoins e b.block_header.previous_block_hash c)
      λ forked s. switch_from-ChainIsSound e fuel b hash forked (subst (CoinsAreSound e) (sym s) h)

keep_fork-ChainIsSound :
    (e : Env) (b : Block) (height : ℕ) (c : Chain)
    → ChainIsSound e c
    → Ensures (ChainIsSound e) (keep_fork e b height c)
unfolding keep_fork
keep_fork-ChainIsSound e b height c h = make_and_record e b (copy_block b) height c h

handle_fork-ChainIsSound :
    (e : Env) (fuel : ℕ) (b : Block) (c : Chain)
    → ChainIsSound e c
    → Ensures (ChainIsSound e) (handle_fork e fuel b c)
unfolding handle_fork
handle_fork-ChainIsSound e fuel b c h =
    let (valid, db, r, d) = validate_block-total e (copy_transactions b) c.coin_database h in
    let c' = with_coins c (with_database c.coin_database db) in
    let c'' = (get_record e b.block_header.previous_block_hash c').1 in
    let s : ChainIsSound e c'' =
      subst (CoinsAreSound e)
        (sym (get_record-SameHeights e b.block_header.previous_block_hash c').coins_kept)
        (with_database-CoinsAreSound e c.coin_database db h d) in
    rw r (
      Ensures-bind _ (follow (get_record e b.block_header.previous_block_hash c').0) (Ensures-any _)
        λ previous _.
          let depth = (c''.active_chain_length + 2 ^ 32 - previous.height) % 2 ^ 32 in
          let height = (previous.height + 1) % 2 ^ 32 in
          elim (Bool-cases (ltb depth 5)) [
            | inl near ↦ elim (Bool-cases (ltb c''.active_chain_length height)) [
              | inl longer ↦
                  rw (near, longer) (switch_fork-ChainIsSound e fuel b (block_hash e b) c'' s)
              | inr shorter ↦ rw (near, shorter) (keep_fork-ChainIsSound e b height c'' s)
            ]
            | inr deep ↦ rw deep (Ensures-ok (ChainIsSound e) c'' s)
          ])

pub handle_block-ChainIsSound :
    (e : Env) (fuel : ℕ) (b : Block) (c : Chain)
    → ChainIsSound e c
    → Ensures (ChainIsSound e) (handle_block e fuel b c)
unfolding handle_block
handle_block-ChainIsSound e fuel b c h =
    elim (Bool-cases (b.block_header.previous_block_hash == get_last_block_hash e c)) [
      | inl on_top ↦ rw on_top (
          Ensures-bind _ (validate_and_store_block e fuel (copy_transactions b) c.coin_database)
            (validate_and_store_block-CoinsAreSound e fuel (copy_transactions b) c.coin_database h)
            λ result h'. extend-ChainIsSound e b result c h')
      | inr off ↦ rw off (handle_fork-ChainIsSound e fuel b c h)
    ]

pub handle_transaction-ChainIsSound :
    (e : Env) (t : Transaction) (c : Chain) → Ensures (ChainIsSound e) (handle_transaction e t c)
unfolding handle_transaction
handle_transaction-ChainIsSound e t c =
    Ensures-bind _ (validate_and_store_transaction e t c.coin_database)
      (validate_and_store_transaction-Ensures e t c.coin_database) λ result never. elim never [ ]
