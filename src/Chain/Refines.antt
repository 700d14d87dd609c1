-- ===== src/Chain/Refines.antt =====
-- The chain as what it stands for: a list of blocks. A block that is accepted goes to its end.
pub mod Genesis
use mathlib.Core.List.{reverse-cons}
use rath_db.Common.{
  ok_inj, ℕ, suc, ◌+◌, ◌%◌, ◌^◌, ◌<◌, ◌≤◌, ◌≡◌, ◌≢◌, refl, sym, subst, ap, ◌∙◌, List, [], ◌∷◌, ◌++◌,
  reverse, append_assoc, append-nil, Bytes, length, true, some, Outcome, ok, Ensures, arith,
}
use rath_db.Env.{Env}
use rath_db.Primitives.Block.{Block, copy_block, copy_transactions}
use rath_db.Primitives.Block
use rath_db.Primitives.RoundTrip.{BlockInRange}
use rath_db.BlockInfo
use rath_db.Writer
use rath_db.Writer.FileSystem.{new_disk}
use rath_db.Writer.ReadBack.{WriterIsSound, IsStorable, new_chain_writer-WriterIsSound}
use rath_db.Coins.Undo.{UndoBlock}
use rath_db.Coins.Undo as CoinsUndo
use rath_db.Coins.State.{CoinDatabase, new_coin_database, main_cache_capacity}
use rath_db.Coins.Validation.{validate_block}
use rath_db.Coins.Database.{validate_and_store_block}
use rath_db.Coins.Database.Accepting.{validate_and_store_block-total}
use rath_db.Chain.{Chain, construct_genesis_block, block_hash, get_last_block_hash}
use rath_db.Chain.Undo.{make_undo_block}
use rath_db.Chain.Undo.Made.{make_undo_block-stored}
use rath_db.Chain.Active.{get_active_chain}
use rath_db.Chain.Lookup.{HasBlock, HasBlock-same, Linked, get_active_chain-above}
use rath_db.Chain.Handle.{with_coins, handle_block, handle_transaction}
use rath_db.Chain.Handle.Aside.{OnFork, handle_block-SetAside}
use rath_db.Primitives.Transaction.{Transaction}
use rath_db.Chain.Handle.Sound.{ChainIsSound, handle_block-ChainIsSound}
use rath_db.Chain.Handle.Extend.{handle_block-Extended}
use rath_db.Chain.Handle.Grow.{IsNew, Linked-kept, Extended-Linked}

-- Above the height `base` the chain stands for the blocks, newest first: they are stored and linked by
-- their hashes.
pub record Represents (e : Env) (base : ℕ) (c : Chain) (bs : List Block) : Type 0 where
  pub writer : WriterIsSound c.chain_writer
  pub coins : ChainIsSound e c
  pub linked : Linked e c (get_last_block_hash e c) bs
  pub counted : length bs + base ≡ c.active_chain_length

-- The block goes on top, is valid, is new, and both it and its undo block can be stored.
pub record Accepted (e : Env) (fuel : ℕ) (c : Chain) (bs : List Block) (b : Block) : Type 0 where
  pub on_top : b.block_header.previous_block_hash ≡ get_last_block_hash e c
  pub range : BlockInRange b
  pub seen : CoinDatabase
  pub valid : validate_block e (copy_transactions b) c.coin_database ≡ ok (true, seen)
  pub fits : length (copy_transactions b) + c.coin_database.main_cache_size ≤ main_cache_capacity
  pub is_new : IsNew (block_hash e b) (get_last_block_hash e c) bs
  pub room : c.active_chain_length + 1 < 2 ^ 32
  pub storable : IsStorable (Block.serialize e.wire b) c.chain_writer.block_stream
  pub undo_storable :
      (cd cd' : CoinDatabase) (u : UndoBlock) (text : Bytes)
      → validate_and_store_block e fuel (copy_transactions b) c.coin_database ≡ ok (some true, cd)
      → make_undo_block e (copy_block b) cd ≡ ok (u, cd')
      → CoinsUndo.serialize e.wire u ≡ ok text
      → IsStorable text c.chain_writer.undo_stream

-- When above some height the chain stands for a list of blocks, which are stored and linked by
-- their hashes, newest first, with the writer and the coin database sound, and a block on top of it
-- is in range, valid, new and storable, and fits the cache, then `handle_block` returns a chain
-- that above that height stands for the list with the block in front.
pub handle_block-Represents :
    (e : Env) (fuel base : ℕ) (c : Chain) (bs : List Block) (b : Block)
    → Represents e base c bs
    → Accepted e fuel c bs b
    → (c' : Chain) × (handle_block e fuel b c ≡ ok c') × Represents e base c' (b ∷ bs)
handle_block-Represents e fuel base c bs b r a =
    let (cd, v, s) =
      validate_and_store_block-total e fuel (copy_transactions b) c.coin_database r.coins a.valid
        a.fits in
    let (u, cd', text, m, t, _, _) = make_undo_block-stored e (copy_block b) cd s in
    let (c', run, x) =
      handle_block-Extended e fuel b c cd cd' u text r.writer a.range a.storable
        (a.undo_storable cd cd' u text v m t) m t a.on_top v in
    (
      c',
      run,
      record {
        writer = x.sound_after;
        coins = (handle_block-ChainIsSound e fuel b c r.coins).at c' run;
        linked = Extended-Linked e b c c' bs x a.on_top a.is_new r.linked;
        counted = omega (arith, x.length_after, r.counted, a.room);
      },
    )

-- The block is set aside on a fork.
pub record AsideOf (e : Env) (c : Chain) (bs : List Block) (b : Block) : Type 0 where
  pub on_fork : OnFork e c b
  pub is_new : IsNew (block_hash e b) (get_last_block_hash e c) bs

same_end :
    (e : Env) (c c' : Chain)
    → c'.active_chain_last_block ≡ c.active_chain_last_block
    → get_last_block_hash e c ≡ get_last_block_hash e c'
unfolding get_last_block_hash
same_end e c c' same = sym (ap (block_hash e) same)

-- A block of a fork that is not the longer one is handled to an end, and the chain stands for the
-- same blocks.
pub handle_block-Aside :
    (e : Env) (fuel base : ℕ) (c : Chain) (bs : List Block) (b : Block)
    → Represents e base c bs
    → AsideOf e c bs b
    → (c' : Chain) × (handle_block e fuel b c ≡ ok c') × Represents e base c' bs
handle_block-Aside e fuel base c bs b r a =
    let (c', run, s) = handle_block-SetAside e fuel c b r.writer r.coins a.on_fork in
    (
      c',
      run,
      record {
        writer = s.sound_after;
        coins = (handle_block-ChainIsSound e fuel b c r.coins).at c' run;
        linked =
            subst (λ (hash : ℕ). Linked e c' hash bs) (same_end e c c' s.last_after)
              (Linked-kept e b c c' (get_last_block_hash e c) bs s.others_after a.is_new r.linked);
        counted = r.counted ∙ sym s.length_after;
      },
    )

-- Calls one after the other, with the blocks that they put at the end of the chain.
pub data History (e : Env) : Chain → List Block → List Block → Chain → Type 0 where
  done : {c c' : Chain} {bs : List Block} → c ≡ c' → History e c bs [] c'
  accept :
      {c c1 c' : Chain} {bs ns : List Block} {b : Block} (fuel : ℕ)
      → Accepted e fuel c bs b
      → handle_block e fuel b c ≡ ok c1
      → History e c1 (b ∷ bs) ns c'
      → History e c bs (b ∷ ns) c'
  set_aside :
      {c c1 c' : Chain} {bs ns : List Block} {b : Block} (fuel : ℕ)
      → AsideOf e c bs b
      → handle_block e fuel b c ≡ ok c1
      → History e c1 bs ns c'
      → History e c bs ns c'

-- The chain is read back as the blocks before and, behind them, those that were accepted.
pub get_active_chain-History :
    (e : Env) (base : ℕ) {c c' : Chain} {bs ns : List Block}
    → Represents e base c bs
    → History e c bs ns c'
    → (c'' : Chain) × (get_active_chain e (base + 1) c'.active_chain_length c'
        ≡ ok (reverse bs ++ ns, c''))
get_active_chain-History e base {bs} r (done {c} same) =
    let (c'', read) = get_active_chain-above e base c bs r.counted r.linked in
    (
      c'',
      subst
          (λ (d : Chain).
            get_active_chain e (base + 1) d.active_chain_length d ≡ ok (reverse bs ++ [], c''))
          same (read ∙ ap (λ (xs : List Block). ok (xs, c'')) (sym (append-nil (reverse bs)))),
    )
get_active_chain-History e base r (accept {c} {c1} {bs} {ns} {b} fuel a run rest) =
    let (c2, run', r') = handle_block-Represents e fuel base c bs b r a in
    let (c'', read) =
      get_active_chain-History e base
        (subst (λ d. Represents e base d (b ∷ bs)) (ok_inj (sym run' ∙ run)) r') rest in
    (
      c'',
      read
          ∙ ap (λ (xs : List Block). ok (xs, c''))
              (ap (λ (xs : List Block). xs ++ ns) (reverse-cons b bs)
                ∙ append_assoc (reverse bs) (b ∷ []) ns),
    )
get_active_chain-History e base r (set_aside {c} {c1} {bs} {b} fuel a run rest) =
    let (c2, run', r') = handle_block-Aside e fuel base c bs b r a in
    get_active_chain-History e base
      (subst (λ (d : Chain). Represents e base d bs) (ok_inj (sym run' ∙ run)) r') rest
