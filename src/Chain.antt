-- ===== src/Chain.antt =====
-- core/include/chain/chain.h and core/src/chain/chain.cpp: the active chain, its forks, and what
-- `Chain` does with the block database, the writer and the coin database. Every method takes the
-- chain and returns it with its result, since also the reads add entries to the key-value store.
-- A null pointer that is followed is `undefined`.
pub mod Undo
pub mod Active
pub mod Fork
pub mod Handle
pub mod Lengths
pub mod Lookup
pub mod Frames
pub mod Runs
pub mod Refines
pub mod Recording
use rath_db.Common.{ℕ, ◌%◌, ◌^◌, List, [], ◌∷◌, Option, none, some, Outcome, ok, undefined, ◌>>=◌}
use rath_db.Env.{Env}
use rath_db.Primitives.Input.{make_input}
use rath_db.Primitives.Output.{make_output}
use rath_db.Primitives.Transaction.{make_transaction}
use rath_db.Primitives.Header.{make_header}
use rath_db.Primitives.Block.{Block, make_block, copy_block}
use rath_db.Primitives.Block
use rath_db.BlockInfo.{BlockInfoDatabase}
use rath_db.BlockInfo
use rath_db.BlockInfo.Record.{BlockRecord}
use rath_db.Writer.{ChainWriter, read_block, read_undo_block}
use rath_db.Writer.Info.{make_file_info}
use rath_db.Coins.Undo.{UndoBlock}
use rath_db.Coins.Undo as CoinsUndo
use rath_db.Coins.State.{CoinDatabase}

pub record Chain : Type 0 where
  pub branching_height : ℕ
  pub active_chain_length : ℕ
  pub active_chain_last_block : Block
  pub block_info_database : BlockInfoDatabase
  pub chain_writer : ChainWriter
  pub coin_database : CoinDatabase
  pub last_five_hashes : List ℕ

unfoldable pub construct_genesis_block : Block
construct_genesis_block = make_block (make_header 1 0 0 0 0 0) (
    make_transaction (make_input 0 0 0 ∷ [])
      (make_output 100 12345 ∷ make_output 200 67891 ∷ make_output 300 23456 ∷ []) 1 1
    ∷ [])

abbrev pub block_hash : Env → Block → ℕ
block_hash e b = e.hash (Block.serialize e.wire b)

unfoldable pub get_last_block : Chain → Block
get_last_block c = copy_block c.active_chain_last_block

unfoldable pub get_last_block_hash : Env → Chain → ℕ
get_last_block_hash e c = block_hash e c.active_chain_last_block

abbrev pub get_active_chain_length : Chain → ℕ
get_active_chain_length c = c.active_chain_length

abbrev pub return_string : Env → Chain → List ℕ
return_string e c = Block.serialize e.wire c.active_chain_last_block

-- `_block_info_database->get_block_record(hash)`.
unfoldable pub get_record : Env → ℕ → Chain → Option BlockRecord × Chain
get_record e hash c =
    let (found, db) = BlockInfo.get_block_record e.wire hash c.block_info_database in
    (found, record c { block_info_database = db })

height_of : Option BlockRecord → ℕ
height_of none = 0
height_of (some r) = r.height

unfoldable pub get_chain_length : Env → ℕ → Chain → ℕ × Chain
unfolding height_of
get_chain_length e hash c = let (found, c') = get_record e hash c in (height_of found, c')

unfoldable pub read_found : Env → Option BlockRecord → Chain → Outcome (Option Block × Chain)
read_found e none c = ok (none, c)
read_found e (some r) c = do
  let location = make_file_info r.block_file_stored r.block_offset_start r.block_offset_end
  text ← read_block location c.chain_writer
  ok (some (Block.deserialize e.wire text), c)

unfoldable pub get_block : Env → ℕ → Chain → Outcome (Option Block × Chain)
unfolding read_found
get_block e hash c = let (found, c') = get_record e hash c in read_found e found c'

read_undo_found : Env → Option BlockRecord → Chain → Outcome (Option UndoBlock × Chain)
read_undo_found e none c = ok (none, c)
read_undo_found e (some r) c = do
  let location = make_file_info r.undo_file_stored r.undo_offset_start r.undo_offset_end
  text ← read_undo_block location c.chain_writer
  u ← CoinsUndo.deserialize e.wire text
  ok (some u, c)

unfoldable pub get_undo_block : Env → ℕ → Chain → Outcome (Option UndoBlock × Chain)
unfolding read_undo_found
get_undo_block e hash c = let (found, c') = get_record e hash c in read_undo_found e found c'

-- `p->…` of a pointer.
abbrev pub follow {ℓ} : {A : Type ℓ} → Option A → Outcome A
follow none = undefined
follow (some a) = ok a
