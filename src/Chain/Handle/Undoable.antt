-- ===== src/Chain/Handle/Undoable.antt =====
-- The undo block of a block that `Chain::handle_block` has accepted, as `get_undo_block` reads it.
use rath_db.Common.{
  true, subst, ok_inj, >>=-eq-ok, ℕ, ◌+◌, ◌%◌, ◌^◌, ◌≡◌, refl, ap, ◌∙◌, ==_refl, ==_eq, List, [],
  ◌∷◌, Option, some, Bytes, Ensures, Ensures-ok, ok, arith,
}
use rath_db.Env.{Env}
use rath_db.Primitives.Transaction.{Transaction}
use rath_db.Primitives.Block.{Block, copy_block, copy_transactions}
use rath_db.Primitives.Block
use rath_db.BlockInfo
use rath_db.BlockInfo.Record.{BlockRecord, RecordInRange}
use rath_db.BlockInfo.Laws.{find_record, find-store_block_record}
use rath_db.Writer.{read_undo_block}
use rath_db.Writer.Info.{make_file_info}
use rath_db.Writer.ReadBack.{WriterIsSound, IsStorable}
use rath_db.Writer.Stored.{store_block-Stored, undo_location}
use rath_db.Coins.Undo.{UndoBlock, UndoCoinRecord, make_undo_coin_record}
use rath_db.Coins.Columns.{Columns}
use rath_db.Coins.Validation.{return_matching_utxo}
use rath_db.Primitives.Input.{TransactionInput, make_input}
use rath_db.Coins.Undo as CoinsUndo
use rath_db.Coins.Database.{validate_and_store_block}
use rath_db.Coins.State.{CoinDatabase, transaction_hash}
use rath_db.Coins.Database.Accepting.{validate_and_store_block-total}
use rath_db.Chain.{
  Chain, block_hash, get_record, get_undo_block, read_undo_found, get_last_block,
  get_last_block_hash,
}
use rath_db.Chain.Undo.{input_columns, make_records, make_undo_block}
use rath_db.Chain.Undo.Made.{make_undo_block-stored}
use rath_db.Chain.Lookup.{get_record-find}
use rath_db.Chain.Handle.{record_block, append_block, extend, push_hash, handle_block}
use rath_db.Chain.Handle.Extend.{longer}
use rath_db.Chain.Refines.{Represents, Accepted}

-- The undo block is found under the hash.
pub record HasUndo (e : Env) (c : Chain) (hash : ℕ) (u : UndoBlock) : Type 0 where
  pub at_record : BlockRecord
  pub found : find_record e.wire c.block_info_database hash ≡ some at_record
  pub in_range : RecordInRange at_record
  pub text : Bytes
  pub read : read_undo_block (undo_location at_record) c.chain_writer ≡ ok text
  pub parsed : CoinsUndo.deserialize e.wire text ≡ ok u

undo_location_of :
    (r : BlockRecord)
    → RecordInRange r
    → make_file_info r.undo_file_stored r.undo_offset_start r.undo_offset_end ≡ undo_location r
undo_location_of r h = ground (arith, h.undo_start, h.undo_end)

read_undo_found-some :
    (e : Env) (hash : ℕ) (c c' : Chain) (u : UndoBlock) (h : HasUndo e c hash u)
    → c'.chain_writer ≡ c.chain_writer
    → read_undo_found e (some h.at_record) c' ≡ ok (some u, c')
unfolding read_undo_found
read_undo_found-some e hash c c' u h same =
    rw (undo_location_of h.at_record h.in_range, same, h.read, h.parsed)

pub get_undo_block-HasUndo :
    (e : Env) (hash : ℕ) (c : Chain) (u : UndoBlock)
    → HasUndo e c hash u
    → get_undo_block e hash c ≡ ok (some u, (get_record e hash c).1)
unfolding get_undo_block
get_undo_block-HasUndo e hash c u h =
    ap (λ (o : Option BlockRecord). read_undo_found e o (get_record e hash c).1)
      (get_record-find e hash c ∙ h.found)
    ∙ read_undo_found-some e hash c (get_record e hash c).1 u h (unfold get_record in refl)

record_block-HasUndo :
    (e : Env) (b : Block) (u : UndoBlock) (height : ℕ) (c : Chain) (text : Bytes)
    → WriterIsSound c.chain_writer
    → IsStorable (Block.serialize e.wire b) c.chain_writer.block_stream
    → IsStorable text c.chain_writer.undo_stream
    → CoinsUndo.serialize e.wire u ≡ ok text
    → CoinsUndo.deserialize e.wire text ≡ ok u
    → (c' : Chain) × (record_block e b u height c ≡ ok c') × HasUndo e c' (block_hash e b) u
unfolding record_block
record_block-HasUndo e b u height c text sound sb su written parsed =
    let (r, w', run, s) = store_block-Stored e b u height c.chain_writer text sound sb su written in
    (
      record c {
        chain_writer = w';
        block_info_database =
            BlockInfo.store_block_record e.wire (block_hash e b) r c.block_info_database;
      },
      rw run,
      record {
        at_record = r;
        found =
            find-store_block_record e.wire (block_hash e b) r c.block_info_database (block_hash e b)
              s.in_range
            ∙ rw (==_refl (block_hash e b));
        in_range = s.in_range;
        text = text;
        read = s.undo_read;
        parsed = parsed;
      },
    )

-- What is looked up for the inputs of a transaction, one after the other: the index that each input
-- names, and the amount and the public key of the output behind it.
pub data Spent (e : Env)
    : CoinDatabase → List TransactionInput → UndoCoinRecord → CoinDatabase → Type 0 where
  nothing :
      {cd : CoinDatabase} {r : UndoCoinRecord}
      → r.utxo ≡ []
      → r.amounts ≡ []
      → r.public_keys ≡ []
      → Spent e cd [] r cd
  one_more :
      {cd cd1 cd' : CoinDatabase} {t : TransactionInput} {ts : List TransactionInput}
      {r rest : UndoCoinRecord} {amount key : ℕ}
      → return_matching_utxo e (make_input t.reference_transaction_hash t.utxo_index t.signature) cd
        ≡ ok ((amount, key), cd1)
      → r.utxo ≡ t.utxo_index ∷ rest.utxo
      → r.amounts ≡ amount ∷ rest.amounts
      → r.public_keys ≡ key ∷ rest.public_keys
      → Spent e cd1 ts rest cd'
      → Spent e cd (t ∷ ts) r cd'

-- The undo block has the hash of each transaction, and beside it what its inputs spend.
pub data Undoes (e : Env)
    : CoinDatabase → List Transaction → UndoBlock → CoinDatabase → Type 0 where
  nothing_left :
      {cd : CoinDatabase} {u : UndoBlock}
      → u.transaction_hashes ≡ []
      → u.undo_coin_records ≡ []
      → Undoes e cd [] u cd
  next_one :
      {cd cd1 cd' : CoinDatabase} {t : Transaction} {ts : List Transaction} {u rest : UndoBlock}
      {r : UndoCoinRecord}
      → Spent e cd t.transaction_inputs r cd1
      → u.transaction_hashes ≡ transaction_hash e t ∷ rest.transaction_hashes
      → u.undo_coin_records ≡ r ∷ rest.undo_coin_records
      → Undoes e cd1 ts rest cd'
      → Undoes e cd (t ∷ ts) u cd'

abbrev of_columns : ℕ → Columns → UndoCoinRecord
of_columns v c = make_undo_coin_record v c.utxo c.amounts c.public_keys

input_columns-Spent :
    (e : Env) (v : ℕ) (ts : List TransactionInput) (cd : CoinDatabase)
    → Ensures (λ r. Spent e cd ts (of_columns v r.0) r.1) (input_columns e ts cd)
unfolding input_columns
input_columns-Spent e v [] cd = Ensures-ok _ _ (nothing refl refl refl)
input_columns-Spent e v (t ∷ ts) cd = record {
  at = λ r run.
      let (found, looked, run') =
        >>=-eq-ok
          (return_matching_utxo e (make_input t.reference_transaction_hash t.utxo_index t.signature)
            cd)
          _ run in
      let (rest, walked, last) = >>=-eq-ok (input_columns e ts found.1) _ run' in
      subst (λ (q : Columns × CoinDatabase). Spent e cd (t ∷ ts) (of_columns v q.0) q.1)
        (ok_inj last)
        (one_more {rest = of_columns v rest.0} looked refl refl refl
          ((input_columns-Spent e v ts found.1).at rest walked));
}

make_records-Undoes :
    (e : Env) (ts : List Transaction) (cd : CoinDatabase)
    → Ensures (λ r. Undoes e cd ts r.0 r.1) (make_records e ts cd)
unfolding make_records
make_records-Undoes e [] cd = Ensures-ok _ _ (nothing_left refl refl)
make_records-Undoes e (t ∷ ts) cd = record {
  at = λ r run.
      let (columns, looked, run') = >>=-eq-ok (input_columns e t.transaction_inputs cd) _ run in
      let (rest, walked, last) = >>=-eq-ok (make_records e ts columns.1) _ run' in
      subst (λ (q : UndoBlock × CoinDatabase). Undoes e cd (t ∷ ts) q.0 q.1) (ok_inj last)
        (next_one {rest = rest.0}
          ((input_columns-Spent e t.version t.transaction_inputs cd).at columns looked) refl refl
          ((make_records-Undoes e ts columns.1).at rest walked));
}

make_undo_block-Undoes :
    (e : Env) (b : Block) (cd cd' : CoinDatabase) (u : UndoBlock)
    → make_undo_block e (copy_block b) cd ≡ ok (u, cd')
    → Undoes e cd (copy_transactions b) u cd'
unfolding make_undo_block copy_block
make_undo_block-Undoes e b cd cd' u made =
    (make_records-Undoes e (copy_transactions b) cd).at (u, cd') made

-- When above some height the chain stands for a list of blocks and a block on top of it is in
-- range, valid, new and storable, and fits the cache, then `handle_block` returns, and the undo
-- block that `make_undo_block` makes of the block, on the coin database that storing it leaves, is
-- found under its hash. It names the hash of each transaction of the block in order, and beside it,
-- for each input in order, the index, and the amount and the public key of the output that is
-- looked up for the input.
pub get_undo_block-Accepted :
    (e : Env) (fuel base : ℕ) (c : Chain) (bs : List Block) (b : Block)
    → Represents e base c bs
    → Accepted e fuel c bs b
    → (c' : Chain) × (c'' : Chain) × (u : UndoBlock) × (cd : CoinDatabase) × (cd' : CoinDatabase)
      × (handle_block e fuel b c ≡ ok c')
      × (validate_and_store_block e fuel (copy_transactions b) c.coin_database ≡ ok (some true, cd))
      × (make_undo_block e (copy_block b) cd ≡ ok (u, cd'))
      × Undoes e cd (copy_transactions b) u cd'
      × (get_undo_block e (block_hash e b) c' ≡ ok (some u, c''))
unfolding handle_block extend append_block get_last_block
get_undo_block-Accepted e fuel base c bs b r a =
    let (cd, v, s) =
      validate_and_store_block-total e fuel (copy_transactions b) c.coin_database r.coins a.valid
        a.fits in
    let (u, cd', text, made, written, parsed, _) = make_undo_block-stored e (copy_block b) cd s in
    let (c1, run, h) =
      record_block-HasUndo e b u ((c.active_chain_length + 1) % 2 ^ 32) (longer b cd' c) text
        r.writer a.storable (a.undo_storable cd cd' u text v made written) written parsed in
    let c' = record c1 { last_five_hashes = push_hash (block_hash e b) c1.last_five_hashes } in
    (
      c',
      (get_record e (block_hash e b) c').1,
      u,
      cd,
      cd',
      rw (
        ==_eq b.block_header.previous_block_hash (get_last_block_hash e c) a.on_top,
        v,
        made,
        run,
      ),
      v,
      made,
      make_undo_block-Undoes e b cd cd' u made,
      get_undo_block-HasUndo e (block_hash e b) c' u (record {
        at_record = h.at_record;
        found = h.found;
        in_range = h.in_range;
        text = h.text;
        read = h.read;
        parsed = h.parsed;
      }),
    )
