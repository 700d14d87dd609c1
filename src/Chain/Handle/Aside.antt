-- ===== src/Chain/Handle/Aside.antt =====
-- `Chain::handle_block` on a block beside the active chain, of a fork that is not the longer one.
use rath_db.Common.{
  true, sym, subst, ==_ne, le→ltb, ℕ, ◌+◌, ◌-◌, ◌%◌, ◌^◌, ◌<◌, ◌≤◌, ◌≡◌, ◌≢◌, refl, ◌∙◌, false,
  Bool-cases, inl, inr, some, ltb, Bytes, ok, arith,
}
use rath_db.Env.{Env}
use rath_db.Primitives.Block.{Block, copy_block, copy_transactions}
use rath_db.Primitives.Block
use rath_db.Primitives.RoundTrip.{BlockInRange}
use rath_db.BlockInfo.Record.{BlockRecord}
use rath_db.BlockInfo.Laws.{find_record}
use rath_db.Writer.ReadBack.{WriterIsSound, IsStorable}
use rath_db.Coins.Undo.{UndoBlock}
use rath_db.Coins.Undo as CoinsUndo
use rath_db.Coins.State.{CoinDatabase}
use rath_db.Coins.Validation.{validate_block}
use rath_db.Coins.Database.Validity.{
  CoinsAreSound, with_database, with_database-CoinsAreSound, validate_block-total,
}
use rath_db.Coins.Database.Accepting.{verdict_inj}
use rath_db.Chain.{Chain, block_hash, get_last_block_hash, get_record}
use rath_db.Chain.Undo.{make_undo_block}
use rath_db.Chain.Undo.Made.{make_undo_block-total}
use rath_db.Chain.Lookup.{HasBlock, HasBlock-same, get_record-find, get_record-HasBlock}
use rath_db.Chain.Recording.{record_block-Recorded}
use rath_db.Chain.Lengths.{get_record-SameHeights}
use rath_db.Chain.Handle.{handle_block, handle_fork, keep_fork, with_coins}
use rath_db.Chain.Handle.Sound.{ChainIsSound}

-- The block is valid, its predecessor is known and not the last block, the fork does not become longer
-- than the active chain, and the block and its undo block can be stored.
pub record OnFork (e : Env) (c : Chain) (b : Block) : Type 0 where
  pub seen : CoinDatabase
  pub valid : validate_block e (copy_transactions b) c.coin_database ≡ ok (true, seen)
  pub elsewhere : b.block_header.previous_block_hash ≢ get_last_block_hash e c
  pub previous : BlockRecord
  pub known :
      find_record e.wire c.block_info_database b.block_header.previous_block_hash ≡ some previous
  pub not_longer : (previous.height + 1) % 2 ^ 32 ≤ c.active_chain_length
  pub range : BlockInRange b
  pub storable : IsStorable (Block.serialize e.wire b) c.chain_writer.block_stream
  pub undo_storable :
      (cd' : CoinDatabase) (u : UndoBlock) (text : Bytes)
      → make_undo_block e (copy_block b) seen ≡ ok (u, cd')
      → CoinsUndo.serialize e.wire u ≡ ok text
      → IsStorable text c.chain_writer.undo_stream

-- What is kept: the end of the active chain, and the blocks under other hashes. A block that is not
-- too deep is stored.
pub record SetAside (e : Env) (depth : ℕ) (b : Block) (c c' : Chain) : Type 0 where
  pub sound_after : WriterIsSound c'.chain_writer
  pub others_after :
      (hash : ℕ) (other : Block)
      → block_hash e b ≢ hash
      → HasBlock e c hash other
      → HasBlock e c' hash other
  pub found_after : depth < 5 → HasBlock e c' (block_hash e b) b
  pub length_after : c'.active_chain_length ≡ c.active_chain_length
  pub last_after : c'.active_chain_last_block ≡ c.active_chain_last_block

module _ (e : Env) (fuel : ℕ) (c : Chain) (b : Block) (sound : WriterIsSound c.chain_writer)
    (h : ChainIsSound e c) (f : OnFork e c b) where
  depth : ℕ
  depth = (c.active_chain_length + 2 ^ 32 - f.previous.height) % 2 ^ 32

  looked_up : CoinDatabase → Chain
  looked_up cd = (get_record e b.block_header.previous_block_hash (with_coins c cd)).1

  looked_up-HasBlock :
      (cd cd' : CoinDatabase) (hash : ℕ) (other : Block)
      → HasBlock e c hash other
      → HasBlock e (with_coins (looked_up cd) cd') hash other
  unfolding looked_up get_record
  looked_up-HasBlock cd cd' hash other x =
      HasBlock-same e (looked_up cd) (with_coins (looked_up cd) cd') hash other refl refl (
        get_record-HasBlock e b.block_header.previous_block_hash hash (with_coins c cd) other
          (HasBlock-same e c (with_coins c cd) hash other refl refl x))

  seen-CoinsAreSound : CoinsAreSound e f.seen
  seen-CoinsAreSound =
      let (v, db, r, d) = validate_block-total e (copy_transactions b) c.coin_database h in
      subst (CoinsAreSound e) (verdict_inj (sym r ∙ f.valid)).1
        (with_database-CoinsAreSound e c.coin_database db h d)

  keep_fork-SetAside :
      (height : ℕ)
      → (c' : Chain) × (keep_fork e b height (looked_up f.seen) ≡ ok c') × SetAside e depth b c c'
  unfolding keep_fork looked_up get_record
  keep_fork-SetAside height =
      let cd = f.seen in
      let (u, db, made, p, _) = make_undo_block-total e (copy_block b) cd seen-CoinsAreSound in
      let cd' = with_database cd db in
      let (text, written, _) = CoinsUndo.serialize-UndoInRange e.wire u p in
      let (c', run, r) =
        record_block-Recorded e b u height (with_coins (looked_up cd) cd') text sound f.range
          f.storable (f.undo_storable cd' u text made written) written in
      (
        c',
        rw made run,
        record {
          sound_after = r.sound;
          others_after =
              λ hash other ne x. r.others hash other ne (looked_up-HasBlock cd cd' hash other x);
          found_after = λ near. r.found;
          length_after = r.length_kept;
          last_after = r.last_kept;
        },
      )

  far_SetAside : (cd : CoinDatabase) → ltb depth 5 ≡ false → SetAside e depth b c (looked_up cd)
  unfolding looked_up get_record
  far_SetAside cd far = record {
    sound_after = sound;
    others_after = λ hash other ne x.
        HasBlock-same e (with_coins (looked_up cd) cd) (looked_up cd) hash other refl refl
          (looked_up-HasBlock cd cd hash other x);
    found_after = λ near. absurd (ground arith);
    length_after = refl;
    last_after = refl;
  }

  -- When the writer and the coin database are sound, and a valid block in range names a known block
  -- other than the last one, whose successor is no higher than the active chain, and it and its
  -- undo block can be stored, then `handle_block` returns: the length and the last block are kept,
  -- the writer is sound, each block under another hash is found as before, and the block is found
  -- under its hash if its predecessor lies less than five below the end of the chain.
  pub handle_block-SetAside :
      (c' : Chain) × (handle_block e fuel b c ≡ ok c')
      × SetAside e ((c.active_chain_length + 2 ^ 32 - f.previous.height) % 2 ^ 32) b c c'
  unfolding handle_block handle_fork looked_up depth
  handle_block-SetAside =
      let cd = f.seen in
      let found =
        get_record-find e b.block_header.previous_block_hash (with_coins c cd) ∙ f.known in
      let other = ==_ne b.block_header.previous_block_hash (get_last_block_hash e c) f.elsewhere in
      let len =
        (get_record-SameHeights e b.block_header.previous_block_hash
          (with_coins c cd)).length_kept in
      let height = (f.previous.height + 1) % 2 ^ 32 in
      elim (Bool-cases (ltb depth 5)) [
        | inl near ↦
            let (c', run, s) = keep_fork-SetAside height in
            (
              c',
              rw
                  (
                    other,
                    f.valid,
                    found,
                    len,
                    near,
                    le→ltb c.active_chain_length height f.not_longer,
                  )
                  run,
              s,
            )
        | inr far ↦ (looked_up cd, rw (other, f.valid, found, len, far), far_SetAside cd far)
      ]
