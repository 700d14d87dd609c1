-- ===== src/Chain/Fork/Walk.antt =====
-- The walk of `Chain::get_forked_blocks_stack` back to the active chain.
use rath_db.Common.{
  ℕ, zero, suc, ◌<◌, ◌≡◌, refl, ap, ◌∙◌, true, false, List, [], ◌∷◌, ◌++◌, reverse, append-nil,
  append_assoc, length, some, ok, arith,
}
use rath_db.Env.{Env}
use rath_db.Primitives.Block.{Block}
use rath_db.BlockInfo.Record.{BlockRecord}
use rath_db.BlockInfo.Laws.{find_record, find-get_block_record}
use rath_db.Chain.{Chain, get_record}
use rath_db.Chain.Lookup.{HasBlock, get_block-HasBlock, get_record-HasBlock, get_record-find}
use rath_db.Chain.Fork.{mem_hash, ancestor_found, fork_loop, fork_from, get_forked_blocks_stack}

-- The blocks of a fork from a hash on, newest first, down to one of the last hashes, whose record is
-- given.
pub data ForkOf (e : Env) (c : Chain) (r : BlockRecord) : ℕ → List Block → Type 0 where
  root :
      {hash : ℕ}
      → mem_hash hash c.last_five_hashes ≡ true
      → find_record e.wire c.block_info_database hash ≡ some r
      → ForkOf e c r hash []
  above :
      {hash : ℕ} {b : Block} {bs : List Block}
      → mem_hash hash c.last_five_hashes ≡ false
      → HasBlock e c hash b
      → ForkOf e c r b.block_header.previous_block_hash bs
      → ForkOf e c r hash (b ∷ bs)

pub get_record-ForkOf :
    (e : Env) (other : ℕ) (c : Chain) (r : BlockRecord) {hash : ℕ} {bs : List Block}
    → ForkOf e c r hash bs
    → ForkOf e (get_record e other c).1 r hash bs
unfolding get_record
get_record-ForkOf e other c r {hash} (root near found) =
    root near (find-get_block_record e.wire other c.block_info_database hash ∙ found)
get_record-ForkOf e other c r {hash} (above {b} far h rest) =
    above far (get_record-HasBlock e other hash c b h) (get_record-ForkOf e other c r rest)

-- What the walk leaves: the branching height is set, and the active chain and the coins are kept.
pub record Branched (r : BlockRecord) (c c' : Chain) : Type 0 where
  pub branching_now : c'.branching_height ≡ r.height
  pub length_kept : c'.active_chain_length ≡ c.active_chain_length
  pub last_kept : c'.active_chain_last_block ≡ c.active_chain_last_block
  pub coins_kept : c'.coin_database ≡ c.coin_database

get_record-Branched :
    (e : Env) (hash : ℕ) (r : BlockRecord) (c c' : Chain)
    → Branched r (get_record e hash c).1 c'
    → Branched r c c'
unfolding get_record
get_record-Branched e hash r c c' h = record {
  branching_now = h.branching_now;
  length_kept = h.length_kept;
  last_kept = h.last_kept;
  coins_kept = h.coins_kept;
}

fork_loop-ForkOf :
    (e : Env) (rounds hash : ℕ) (stack bs : List Block) (c : Chain) (r : BlockRecord)
    → length bs < rounds
    → ForkOf e c r hash bs
    → (c' : Chain) × (fork_loop e rounds hash stack c ≡ ok (reverse (stack ++ bs), c'))
      × Branched r c c'
unfolding fork_loop ancestor_found get_record
fork_loop-ForkOf e zero hash stack bs c r n f = absurd (omega (arith, n))
fork_loop-ForkOf e (suc rounds) hash stack [] c r n (root near found) = (
  record (get_record e hash c).1 { branching_height = r.height },
  rw (near, get_record-find e hash c, found, append-nil stack),
  record { branching_now = refl; length_kept = refl; last_kept = refl; coins_kept = refl },
)
fork_loop-ForkOf e (suc rounds) hash stack (b ∷ bs) c r n (above far h rest) =
    let (c', walked, branched) =
      fork_loop-ForkOf e rounds b.block_header.previous_block_hash (stack ++ b ∷ []) bs
        (get_record e hash c).1 r (omega (arith, n)) (get_record-ForkOf e hash c r rest) in
    (
      c',
      rw (far, get_block-HasBlock e hash c b h)
          (walked ∙ ap (λ (xs : List Block). ok (reverse xs, c')) (append_assoc stack (b ∷ []) bs)),
      get_record-Branched e hash r c c' branched,
    )

-- When at most five stored blocks, each naming the one before it, lead from a hash down to one of
-- the last hashes, whose record is known, and none of them but the last names such a hash, then
-- `get_forked_blocks_stack` returns these blocks, oldest first, the branching height is that of the
-- record, and the active chain's length, its last block and the coin database are kept.
pub get_forked_blocks_stack-ForkOf :
    (e : Env) (hash : ℕ) (c : Chain) (r : BlockRecord) (b : Block) (bs : List Block)
    → HasBlock e c hash b
    → ForkOf e c r b.block_header.previous_block_hash bs
    → length bs < 5
    → (c' : Chain) × (get_forked_blocks_stack e hash c ≡ ok (reverse (b ∷ bs), c'))
      × Branched r c c'
unfolding get_forked_blocks_stack fork_from
get_forked_blocks_stack-ForkOf e hash c r b bs h f n =
    let (c', walked, branched) =
      fork_loop-ForkOf e 5 b.block_header.previous_block_hash (b ∷ []) bs (get_record e hash c).1 r
        n (get_record-ForkOf e hash c r f) in
    (c', rw (get_block-HasBlock e hash c b h) walked, get_record-Branched e hash r c c' branched)
