-- ===== src/Chain/Handle/Unknown.antt =====
-- `Chain::handle_block` on a block whose predecessor the database does not know.
use rath_db.Common.{==_ne, ℕ, ◌≡◌, ◌≢◌, ◌∙◌, none, ok, Ensures, Ensures-bind, Ensures-any, arith}
use rath_db.Env.{Env}
use rath_db.Primitives.Block.{Block, copy_transactions}
use rath_db.BlockInfo.Laws.{find_record}
use rath_db.Coins.Validation.{validate_block}
use rath_db.Chain.{Chain, get_last_block_hash}
use rath_db.Chain.Lookup.{get_record-find}
use rath_db.Chain.Handle.{handle_block, handle_fork, with_coins}

handle_fork-unknown :
    (e : Env) (fuel : ℕ) (b : Block) (c : Chain)
    → find_record e.wire c.block_info_database b.block_header.previous_block_hash ≡ none
    → Ensures (λ _. ⊥) (handle_fork e fuel b c)
unfolding handle_fork
handle_fork-unknown e fuel b c unknown =
    Ensures-bind _ (validate_block e (copy_transactions b) c.coin_database) (Ensures-any _)
      λ validated _.
        rw
          (get_record-find e b.block_header.previous_block_hash (with_coins c validated.1)
            ∙ unknown)
          (record { at = λ r h. ground arith })

handle_block-Ensures :
    (e : Env) (fuel : ℕ) (b : Block) (c : Chain)
    → b.block_header.previous_block_hash ≢ get_last_block_hash e c
    → find_record e.wire c.block_info_database b.block_header.previous_block_hash ≡ none
    → Ensures (λ _. ⊥) (handle_block e fuel b c)
unfolding handle_block
handle_block-Ensures e fuel b c other unknown =
    rw (==_ne b.block_header.previous_block_hash (get_last_block_hash e c) other)
      (handle_fork-unknown e fuel b c unknown)

-- On a block whose previous hash is not that of the last block and is not in the block database,
-- `handle_block` never completes, with any amount of fuel.
pub handle_block-unknown :
    (e : Env) (fuel : ℕ) (b : Block) (c c' : Chain)
    → b.block_header.previous_block_hash ≢ get_last_block_hash e c
    → find_record e.wire c.block_info_database b.block_header.previous_block_hash ≡ none
    → handle_block e fuel b c ≢ ok c'
handle_block-unknown e fuel b c c' other unknown h =
    (handle_block-Ensures e fuel b c other unknown).at c' h
