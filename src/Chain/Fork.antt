-- ===== src/Chain/Fork.antt =====
-- `Chain::get_forked_blocks_stack` and `Chain::get_undo_blocks_queue`.
pub mod Walk
use rath_db.Common.{
  ℕ, zero, suc, ◌-◌, Bool, false, ◌||◌, List, [], ◌∷◌, ◌++◌, reverse, ◌==◌, if◌then◌else◌, Option,
  none, some, Outcome, ok, ◌>>=◌,
}
use rath_db.Env.{Env}
use rath_db.Primitives.Block.{Block}
use rath_db.Coins.Undo.{UndoBlock}
use rath_db.Chain.{
  Chain, get_record, get_block, get_undo_block, get_last_block, get_last_block_hash, follow,
}

-- The search through the last five hashes.
unfoldable pub mem_hash : ℕ → List ℕ → Bool
mem_hash hash [] = false
mem_hash hash (h ∷ hs) = hash == h || mem_hash hash hs

-- The common ancestor has been found: its height is the branching height.
unfoldable pub ancestor_found : Env → ℕ → List Block → Chain → Outcome (List Block × Chain)
ancestor_found e prev_hash stack c =
    let (found, c') = get_record e prev_hash c in
    do r ← follow found; ok (reverse stack, record c' { branching_height = r.height })

-- The rounds that are left before `counter` is 5. The stack has the block that was pushed last at
-- its end.
unfoldable pub fork_loop : Env → ℕ → ℕ → List Block → Chain → Outcome (List Block × Chain)
unfolding ancestor_found
fork_loop e zero prev_hash stack c = ok ([], c)
fork_loop e (suc rounds) prev_hash stack c =
    let next = do
      found ← get_block e prev_hash c
      block ← follow found.0
      fork_loop e rounds block.block_header.previous_block_hash (stack ++ block ∷ []) found.1
    in if mem_hash prev_hash c.last_five_hashes then ancestor_found e prev_hash stack c else next

unfoldable pub fork_from : Env → Option Block → Chain → Outcome (List Block × Chain)
unfolding fork_loop
fork_from e none c = ok ([], c)
fork_from e (some block) c = fork_loop e 5 block.block_header.previous_block_hash (block ∷ []) c

unfoldable pub get_forked_blocks_stack : Env → ℕ → Chain → Outcome (List Block × Chain)
unfolding fork_from
get_forked_blocks_stack e starting_hash c = do
  found ← get_block e starting_hash c
  fork_from e found.0 found.1

-- One round for each height above the branching height.
unfoldable pub queue_loop : Env → ℕ → ℕ → Chain → Outcome (List (Option UndoBlock) × Chain)
queue_loop e zero prev_hash c = ok ([], c)
queue_loop e (suc rounds) prev_hash c = do
  undo ← get_undo_block e prev_hash c
  found ← get_block e prev_hash undo.1
  block ← follow found.0
  rest ← queue_loop e rounds block.block_header.previous_block_hash found.1
  ok (undo.0 ∷ rest.0, rest.1)

-- The undo block of the last block, and then one in each round.
unfoldable pub get_undo_blocks_queue : Env → ℕ → Chain → Outcome (List (Option UndoBlock) × Chain)
unfolding queue_loop
get_undo_blocks_queue e branching_height c = do
  undo ← get_undo_block e (get_last_block_hash e c) c
  rest ←
      queue_loop e (c.active_chain_length - branching_height)
        (get_last_block c).block_header.previous_block_hash undo.1
  ok (undo.0 ∷ rest.0, rest.1)
