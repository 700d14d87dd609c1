-- ===== src/Chain/Handle/Extend.antt =====
-- `Chain::handle_block` on a block that extends the active chain.
use rath_db.Common.{==_eq, ℕ, ◌+◌, ◌%◌, ◌^◌, ◌≡◌, ◌≢◌, refl, ap, true, some, Bytes, ok}
use rath_db.Env.{Env}
use rath_db.Primitives.Block.{Block, copy_block, copy_transactions}
use rath_db.Primitives.Block
use rath_db.Primitives.RoundTrip.{BlockInRange}
use rath_db.Writer.ReadBack.{WriterIsSound, IsStorable}
use rath_db.Coins.Undo.{UndoBlock}
use rath_db.Coins.Undo as CoinsUndo
use rath_db.Coins.State.{CoinDatabase}
use rath_db.Coins.Database.{validate_and_store_block}
use rath_db.Chain.{Chain, block_hash, get_last_block, get_last_block_hash}
use rath_db.Chain.Undo.{make_undo_block}
use rath_db.Chain.Lookup.{HasBlock, HasBlock-same}
use rath_db.Chain.Recording.{record_block-Recorded}
use rath_db.Chain.Handle.{handle_block, append_block, extend, with_coins, push_hash}

-- The chain when the block has become the last one, and before it is recorded.
abbrev pub longer : Block → CoinDatabase → Chain → Chain
longer b cd c = record c {
  active_chain_length = (c.active_chain_length + 1) % 2 ^ 32;
  active_chain_last_block = b;
  coin_database = cd;
}

-- What `handle_block` promises for such a block: the active chain is longer by one, the block is its
-- last, and it is recorded next to the blocks that were there.
pub record Extended (e : Env) (b : Block) (c c' : Chain) : Type 0 where
  pub length_after : c'.active_chain_length ≡ (c.active_chain_length + 1) % 2 ^ 32
  pub last_after : c'.active_chain_last_block ≡ b
  pub last_hash : get_last_block_hash e c' ≡ block_hash e b
  pub sound_after : WriterIsSound c'.chain_writer
  pub found_after : HasBlock e c' (block_hash e b) b
  pub others_after :
      (hash : ℕ) (other : Block)
      → block_hash e b ≢ hash
      → HasBlock e c hash other
      → HasBlock e c' hash other

module _ (e : Env) (fuel : ℕ) (b : Block) (c : Chain) (cd cd' : CoinDatabase) (u : UndoBlock)
    (undo_text : Bytes) (sound : WriterIsSound c.chain_writer) (range : BlockInRange b)
    (sb : IsStorable (Block.serialize e.wire b) c.chain_writer.block_stream)
    (su : IsStorable undo_text c.chain_writer.undo_stream)
    (made : make_undo_block e (copy_block b) cd ≡ ok (u, cd'))
    (text : CoinsUndo.serialize e.wire u ≡ ok undo_text) where
  append_block-Extended :
      (c' : Chain) × (append_block e b (with_coins c cd) ≡ ok c') × Extended e b c c'
  unfolding append_block get_last_block get_last_block_hash
  append_block-Extended =
      let (c1, e1, s) =
        record_block-Recorded e b u ((c.active_chain_length + 1) % 2 ^ 32) (longer b cd' c)
          undo_text sound range sb su text in
      let c' = record c1 { last_five_hashes = push_hash (block_hash e b) c1.last_five_hashes } in
      (
        c',
        rw (made, e1),
        record {
          length_after = s.length_kept;
          last_after = s.last_kept;
          last_hash = ap (block_hash e) s.last_kept;
          sound_after = s.sound;
          found_after = HasBlock-same e c1 c' (block_hash e b) b refl refl s.found;
          others_after = λ hash other ne h.
              HasBlock-same e c1 c' hash other refl refl (
                s.others hash other ne (HasBlock-same e c (longer b cd' c) hash other refl refl h));
        },
      )

  -- When the writer is sound, the block names the last block's hash, is in range and is validated
  -- and stored, and its undo block is made and both texts can be stored, then `handle_block`
  -- returns: the active chain is longer by one modulo 2^32 and ends in the block, the writer is
  -- sound, the block is found under its hash, and each block under another hash is found as before.
  pub handle_block-Extended :
      b.block_header.previous_block_hash ≡ get_last_block_hash e c
      → validate_and_store_block e fuel (copy_transactions b) c.coin_database ≡ ok (some true, cd)
      → (c' : Chain) × (handle_block e fuel b c ≡ ok c') × Extended e b c c'
  unfolding handle_block extend
  handle_block-Extended on_top valid =
      rw (==_eq b.block_header.previous_block_hash (get_last_block_hash e c) on_top, valid)
        append_block-Extended
