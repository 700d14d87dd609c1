-- ===== src/Chain/Lookup.antt =====
-- When the chain finds a block under a hash, and what its walks return where each block is found
-- under the hash that its successor names.
use rath_db.Common.{
  lt→ltb, le→ltb, ◌+◌, ℕ, suc, ◌-◌, ◌≤◌, ◌≡◌, ◌≢◌, refl, ap, ◌∙◌, List, [], ◌∷◌, reverse, length,
  true, some, ok, arith,
}
use rath_db.Env.{Env}
use rath_db.Primitives.Block.{Block}
use rath_db.Primitives.Block
use rath_db.Primitives.RoundTrip.{BlockInRange, deserialize-serialize_block}
use rath_db.BlockInfo.Record.{BlockRecord, RecordInRange}
use rath_db.BlockInfo.Laws.{find_record, get_block_record-find, find-get_block_record}
use rath_db.Writer.{read_block}
use rath_db.Writer.Info.{make_file_info}
use rath_db.Writer.Stored.{block_location}
use rath_db.Chain.{Chain, get_record, get_block, read_found, get_last_block_hash}
use rath_db.Chain.Active.{at_least_one, active_loop, at_most, get_active_chain}
use rath_db.Chain.Fork.{mem_hash, get_forked_blocks_stack, fork_from, fork_loop, ancestor_found}

-- The record of a block is found under the hash, and the block is read where the record says.
pub record HasBlock (e : Env) (c : Chain) (hash : ℕ) (b : Block) : Type 0 where
  pub at_record : BlockRecord
  pub found : find_record e.wire c.block_info_database hash ≡ some at_record
  pub in_range : RecordInRange at_record
  pub read : read_block (block_location at_record) c.chain_writer ≡ ok (Block.serialize e.wire b)
  pub block_in_range : BlockInRange b

pub get_record-find :
    (e : Env) (hash : ℕ) (c : Chain)
    → (get_record e hash c).0 ≡ find_record e.wire c.block_info_database hash
unfolding get_record
get_record-find e hash c = get_block_record-find e.wire hash c.block_info_database

pub get_record-HasBlock :
    (e : Env) (other hash : ℕ) (c : Chain) (b : Block)
    → HasBlock e c hash b
    → HasBlock e (get_record e other c).1 hash b
unfolding get_record
get_record-HasBlock e other hash c b h = record {
  at_record = h.at_record;
  found = find-get_block_record e.wire other c.block_info_database hash ∙ h.found;
  in_range = h.in_range;
  read = h.read;
  block_in_range = h.block_in_range;
}

-- Whether a block is found depends on the block database and the writer only.
pub HasBlock-same :
    (e : Env) (c c' : Chain) (hash : ℕ) (b : Block)
    → c'.block_info_database ≡ c.block_info_database
    → c'.chain_writer ≡ c.chain_writer
    → HasBlock e c hash b
    → HasBlock e c' hash b
HasBlock-same e c c' hash b same_db same_writer h = record {
  at_record = h.at_record;
  found = rw same_db h.found;
  in_range = h.in_range;
  read = rw same_writer h.read;
  block_in_range = h.block_in_range;
}

location_of :
    (r : BlockRecord)
    → RecordInRange r
    → make_file_info r.block_file_stored r.block_offset_start r.block_offset_end ≡ block_location r
location_of r h = ground (arith, h.block_start, h.block_end)

read_found-some :
    (e : Env) (hash : ℕ) (c c' : Chain) (b : Block) (h : HasBlock e c hash b)
    → c'.chain_writer ≡ c.chain_writer
    → read_found e (some h.at_record) c' ≡ ok (some b, c')
unfolding read_found
read_found-some e hash c c' b h same = rw (
  location_of h.at_record h.in_range,
  same,
  h.read,
  deserialize-serialize_block e.wire b h.block_in_range,
)

pub get_block-HasBlock :
    (e : Env) (hash : ℕ) (c : Chain) (b : Block)
    → HasBlock e c hash b
    → get_block e hash c ≡ ok (some b, (get_record e hash c).1)
unfolding get_block
get_block-HasBlock e hash c b h =
    ap (λ o. read_found e o (get_record e hash c).1) (get_record-find e hash c ∙ h.found)
    ∙ read_found-some e hash c (get_record e hash c).1 b h (unfold get_record in refl)

-- From the newest block on, each block is found under the hash that its successor names.
abbrev pub Linked : Env → Chain → ℕ → List Block → Type 0
Linked e c hash [] = Unit {0}
Linked e c hash (b ∷ bs) = HasBlock e c hash b × Linked e c b.block_header.previous_block_hash bs

get_record-Linked :
    (e : Env) (other hash : ℕ) (c : Chain) (bs : List Block)
    → Linked e c hash bs
    → Linked e (get_record e other c).1 hash bs
get_record-Linked e other hash c [] h = tt
get_record-Linked e other hash c (b ∷ bs) (h, hs) = (
  get_record-HasBlock e other hash c b h,
  get_record-Linked e other b.block_header.previous_block_hash c bs hs,
)

active_loop-Linked :
    (e : Env) (height end hash : ℕ) (c : Chain) (bs : List Block)
    → height - 1 ≤ end
    → Linked e c hash bs
    → (c' : Chain) × (active_loop e (length bs) height end hash c ≡ ok (bs, c'))
unfolding active_loop
active_loop-Linked e height end hash c [] le h = (c, refl)
active_loop-Linked e height end hash c (b ∷ bs) le (h, hs) =
    let c1 = (get_record e hash c).1 in
    let (c', walked) =
      active_loop-Linked e (height - 1) end b.block_header.previous_block_hash c1 bs (omega arith)
        (get_record-Linked e hash b.block_header.previous_block_hash c bs hs) in
    (c', rw (get_block-HasBlock e hash c b h) (rw walked (ground arith)))

at_most_self : (n : ℕ) → at_most n n ≡ n
at_most_self n = ground arith

-- The blocks above a height, newest first, are read back by the walk from the next height on.
pub get_active_chain-above :
    (e : Env) (base : ℕ) (c : Chain) (bs : List Block)
    → length bs + base ≡ c.active_chain_length
    → Linked e c (get_last_block_hash e c) bs
    → (c' : Chain) × (get_active_chain e (base + 1) c.active_chain_length c ≡ ok (reverse bs, c'))
unfolding get_active_chain
get_active_chain-above e base c [] same h =
    (c, rw (lt→ltb c.active_chain_length (base + 1) (omega (arith, same))))
get_active_chain-above e base c (b ∷ bs) same h =
    let (c', walked) =
      active_loop-Linked e c.active_chain_length c.active_chain_length (get_last_block_hash e c)
        (get_record e (get_last_block_hash e c) c).1 (b ∷ bs) (omega arith)
        (get_record-Linked e (get_last_block_hash e c) (get_last_block_hash e c) c (b ∷ bs) h) in
    (
      c',
      rw (
        le→ltb c.active_chain_length (base + 1) (omega (arith, same)),
        at_most_self c.active_chain_length,
        rounds_lem (length (b ∷ bs)) base c.active_chain_length same,
        walked,
      ),
    )
  where
    rounds_lem : (m k n : ℕ) → m + k ≡ n → suc n - at_least_one (k + 1) ≡ m
    rounds_lem m k n h = ground arith

-- When the blocks of a nonempty list, newest first, are each found under the hash that the next
-- newer one names, the newest under the hash of the last block, and the list is as long as the
-- active chain, then the walk from 1 to that length returns all of them, oldest first.
pub get_active_chain-Linked :
    (e : Env) (c : Chain) (bs : List Block)
    → bs ≢ []
    → length bs ≡ c.active_chain_length
    → Linked e c (get_last_block_hash e c) bs
    → (c' : Chain) × (get_active_chain e 1 c.active_chain_length c ≡ ok (reverse bs, c'))
get_active_chain-Linked e c bs ne same h = get_active_chain-above e 0 c bs (omega (arith, same)) h

ancestor_found-some :
    (e : Env) (hash : ℕ) (stack : List Block) (c : Chain) (r : BlockRecord)
    → find_record e.wire c.block_info_database hash ≡ some r
    → ancestor_found e hash stack c
      ≡ ok (reverse stack, record (get_record e hash c).1 { branching_height = r.height })
unfolding ancestor_found
ancestor_found-some e hash stack c r found = rw (get_record-find e hash c, found)

fork_from-one :
    (e : Env) (c : Chain) (b : Block) (r : BlockRecord)
    → mem_hash b.block_header.previous_block_hash c.last_five_hashes ≡ true
    → find_record e.wire c.block_info_database b.block_header.previous_block_hash ≡ some r
    → fork_from e (some b) c
      ≡ ok (
        b ∷ [],
        record (get_record e b.block_header.previous_block_hash c).1 {
          branching_height = r.height;
        },
      )
unfolding fork_from fork_loop
fork_from-one e c b r near found =
    rw near (ancestor_found-some e b.block_header.previous_block_hash (b ∷ []) c r found)

-- The blocks of a fork of one block: its predecessor is among the last hashes.
pub get_forked_blocks_stack-one :
    (e : Env) (hash : ℕ) (c : Chain) (b : Block) (r : BlockRecord)
    → HasBlock e c hash b
    → mem_hash b.block_header.previous_block_hash c.last_five_hashes ≡ true
    → find_record e.wire c.block_info_database b.block_header.previous_block_hash ≡ some r
    → get_forked_blocks_stack e hash c
      ≡ ok (
        b ∷ [],
        record (get_record e b.block_header.previous_block_hash (get_record e hash c).1).1 {
          branching_height = r.height;
        },
      )
unfolding get_forked_blocks_stack get_record
get_forked_blocks_stack-one e hash c b r h near found = rw (get_block-HasBlock e hash c b h) (
    fork_from-one e (get_record e hash c).1 b r near (
      find-get_block_record e.wire hash c.block_info_database b.block_header.previous_block_hash
      ∙ found))
