-- ===== src/Chain/Recording.antt =====
-- What `Chain` finds after a block has been recorded by `_chain_writer->store_block` and
-- `_block_info_database->store_block_record`.
use rath_db.Common.{length, ◌%◌, ◌^◌, ==_refl, ==_ne, ℕ, ◌≡◌, ◌≢◌, refl, ◌∙◌, Bytes, ok}
use rath_db.Env.{Env}
use rath_db.Primitives.Block.{Block}
use rath_db.Primitives.Block
use rath_db.Primitives.RoundTrip.{BlockInRange}
use rath_db.BlockInfo.Record.{BlockRecord, make_block_record}
use rath_db.BlockInfo.Laws.{find-store_block_record}
use rath_db.BlockInfo
use rath_db.Writer.{ChainWriter}
use rath_db.Writer.{write_block, write_undo_block, store_block, get_header}
use rath_db.Writer.Streams.Invariant.{Fits}
use rath_db.Writer.ReadBack.{
  write_block-WriterIsSound, write_undo_block-WriterIsSound, WriterIsSound, IsStorable,
}
use rath_db.Writer.Stored.{Stored, store_block-Stored, block_location}
use rath_db.Coins.Undo.{UndoBlock}
use rath_db.Coins.Undo as CoinsUndo
use rath_db.Chain.{Chain, block_hash}
use rath_db.Chain.Lookup.{HasBlock}
use rath_db.Chain.Handle.{record_block}

-- The chain after a block with its record has been stored.
abbrev pub recorded : Env → Block → BlockRecord → ChainWriter → Chain → Chain
recorded e b r w' c = record c {
  chain_writer = w';
  block_info_database =
      BlockInfo.store_block_record e.wire (block_hash e b) r c.block_info_database;
}

-- What `record_block` promises: the writer stays sound, the block is found under its hash, and the
-- blocks under other hashes are found as before; the active chain is not touched.
pub record Recorded (e : Env) (b : Block) (c c' : Chain) : Type 0 where
  pub sound : WriterIsSound c'.chain_writer
  pub found : HasBlock e c' (block_hash e b) b
  pub others :
      (hash : ℕ) (other : Block)
      → block_hash e b ≢ hash
      → HasBlock e c hash other
      → HasBlock e c' hash other
  pub length_kept : c'.active_chain_length ≡ c.active_chain_length
  pub last_kept : c'.active_chain_last_block ≡ c.active_chain_last_block
  pub coins_kept : c'.coin_database ≡ c.coin_database

module _ (e : Env) (b : Block) (height : ℕ) (c : Chain) (undo_text : Bytes) (r : BlockRecord)
    (w' : ChainWriter) (s : Stored e b height undo_text c.chain_writer w' r) where
  new_HasBlock : BlockInRange b → HasBlock e (recorded e b r w' c) (block_hash e b) b
  new_HasBlock range = record {
    at_record = r;
    found =
        find-store_block_record e.wire (block_hash e b) r c.block_info_database (block_hash e b)
          s.in_range
        ∙ rw (==_refl (block_hash e b));
    in_range = s.in_range;
    read = s.block_text;
    block_in_range = range;
  }

  old_HasBlock :
      (hash : ℕ) (other : Block)
      → block_hash e b ≢ hash
      → HasBlock e c hash other
      → HasBlock e (recorded e b r w' c) hash other
  old_HasBlock hash other ne h = record {
    at_record = h.at_record;
    found =
        find-store_block_record e.wire (block_hash e b) r c.block_info_database hash s.in_range
        ∙ rw (==_ne (block_hash e b) hash ne) h.found;
    in_range = h.in_range;
    read = s.kept (block_location h.at_record) _ h.read;
    block_in_range = h.block_in_range;
  }

-- On a chain with a sound writer, a block with its one-byte fields in range whose text can be
-- stored, and an undo block whose text is given and can be stored, are recorded: the writer stays
-- sound, the block is found under its hash, each block under another hash is found as before, and
-- the length and the last block of the active chain and the coin database are kept.
pub record_block-Recorded :
    (e : Env) (b : Block) (u : UndoBlock) (height : ℕ) (c : Chain) (undo_text : Bytes)
    → WriterIsSound c.chain_writer
    → BlockInRange b
    → IsStorable (Block.serialize e.wire b) c.chain_writer.block_stream
    → IsStorable undo_text c.chain_writer.undo_stream
    → CoinsUndo.serialize e.wire u ≡ ok undo_text
    → (c' : Chain) × (record_block e b u height c ≡ ok c') × Recorded e b c c'
unfolding record_block
record_block-Recorded e b u height c undo_text sound range sb su hu =
    let (r, w', e', s) = store_block-Stored e b u height c.chain_writer undo_text sound sb su hu in
    (
      recorded e b r w' c,
      rw e',
      record {
        sound = s.sound;
        found = new_HasBlock e b height c undo_text r w' s range;
        others = old_HasBlock e b height c undo_text r w' s;
        length_kept = refl;
        last_kept = refl;
        coins_kept = refl;
      },
    )

-- What needs no text that is read back: the writer stays sound, and the active chain is kept.
pub record Written (c c' : Chain) : Type 0 where
  pub sound : WriterIsSound c'.chain_writer
  pub length_kept : c'.active_chain_length ≡ c.active_chain_length
  pub last_kept : c'.active_chain_last_block ≡ c.active_chain_last_block
  pub coins_kept : c'.coin_database ≡ c.coin_database

pub record_block-Written :
    (e : Env) (b : Block) (u : UndoBlock) (height : ℕ) (c : Chain) (undo_text : Bytes)
    → WriterIsSound c.chain_writer
    → Fits (length (Block.serialize e.wire b)) c.chain_writer.block_stream
    → Fits (length undo_text) c.chain_writer.undo_stream
    → CoinsUndo.serialize e.wire u ≡ ok undo_text
    → (c' : Chain) × (record_block e b u height c ≡ ok c') × Written c c'
unfolding record_block store_block
record_block-Written e b u height c undo_text sound fb fu hu =
    let block = write_block e.uninit (Block.serialize e.wire b) c.chain_writer in
    let undo = write_undo_block e.uninit undo_text block.1 in
    let r =
      make_block_record (get_header b) (length b.transactions % 2 ^ 32) height block.0 undo.0 in
    (
      recorded e b r undo.1 c,
      rw hu,
      record {
        sound =
            write_undo_block-WriterIsSound e.uninit undo_text block.1 (unfold write_block in fu) (
              write_block-WriterIsSound e.uninit (Block.serialize e.wire b) c.chain_writer fb
                sound);
        length_kept = refl;
        last_kept = refl;
        coins_kept = refl;
      },
    )
