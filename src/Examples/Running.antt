-- ===== src/Examples/Running.antt =====
-- The chain from its constructor on, with a block, tried on concrete values.
use rath_db.Common.{
  true, some, ok_inj, ◌≡◌, ◌+◌, ◌%◌, ◌^◌, refl, sym, subst, ◌∙◌, Bool, ok, [], ◌∷◌, Bytes,
}
use rath_db.Writer.FileSystem.{new_disk}
use rath_db.Coins.Undo as CoinsUndo
use rath_db.Coins.Undo.{UndoBlock, make_undo_coin_record}
use rath_db.Chain.Undo.{make_undo_block}
use rath_db.Coins.State.{CoinDatabase}
use rath_db.Coins.Validation.{validate_block}
use rath_db.Chain.{block_hash, get_undo_block, Chain, construct_genesis_block}
use rath_db.Chain.Handle.{handle_block, new_chain}
use rath_db.Chain.Refines.{handle_block-Represents, Represents, accept, done}
use rath_db.Chain.Refines.Genesis.{new_chain-Represents, get_active_chain-new_chain}
use rath_db.Chain.Active.{get_active_chain}
use rath_db.Chain.Handle.Returns.{
  Ends, handle_block-returns, Handled, handle_block-Handled, new_chain-returns,
}
use rath_db.Chain.Handle.Sound.{ChainIsSound}
use rath_db.Coins.Database.{validate_and_store_block}
use rath_db.Chain.Handle.Undoable.{Undoes, get_undo_block-Accepted}
use rath_db.Primitives.Block.{copy_block, copy_transactions}
use rath_db.Chain.Runs.{Reach, constructed, next, block, Reach-ChainIsSound, validate_block-Reach}
use rath_db.Chain.Undo.Made.{make_undo_block-stored}
use rath_db.Coins.Database.Validity.{CoinsAreSound}
use rath_db.Examples.Data.{env}
use rath_db.Examples.Starting.{started, started_made, genesis_Fits}
use rath_db.Examples.Second.{
  second_payment, second_block, second_Accepted, second_on_top, second_fits,
}

started-Represents : Represents env 1 started []
started-Represents =
    let (c, made, r) = new_chain-Represents env 0 0 genesis_Fits in
    subst (λ (d : Chain). Represents env 1 d []) (ok_inj (sym made ∙ started_made)) r

handle_block-Represents_example :
    (c' : Chain) × (handle_block env 0 second_block started ≡ ok c')
    × Represents env 1 c' (second_block ∷ [])
handle_block-Represents_example =
    handle_block-Represents env 0 1 started [] second_block started-Represents second_Accepted

get_undo_block-Accepted_example :
    (c' : Chain) × (c'' : Chain) × (u : UndoBlock) × (cd : CoinDatabase) × (cd' : CoinDatabase)
    × (handle_block env 0 second_block started ≡ ok c')
    × (validate_and_store_block env 0 (copy_transactions second_block) started.coin_database
        ≡ ok (some true, cd))
    × (make_undo_block env (copy_block second_block) cd ≡ ok (u, cd'))
    × Undoes env cd (copy_transactions second_block) u cd'
    × (get_undo_block env (block_hash env second_block) c' ≡ ok (some u, c''))
get_undo_block-Accepted_example =
    get_undo_block-Accepted env 0 1 started [] second_block started-Represents second_Accepted

handle_block-Handled_example : Handled env 0 second_block started
handle_block-Handled_example =
    handle_block-Handled env 0 second_block started started-Represents.coins second_on_top
      second_fits

new_chain-returns_example :
    (c : Chain) × (new_chain env 0 0 new_disk ≡ ok c) × Ends env construct_genesis_block 1 c
new_chain-returns_example = new_chain-returns env 0 0 new_disk

make_undo_block-stored_example :
    (u : UndoBlock) × (cd' : CoinDatabase) × (text : Bytes) × (make_undo_block env second_block
        started.coin_database
      ≡ ok (u, cd'))
    × (CoinsUndo.serialize env.wire u ≡ ok text)
    × (CoinsUndo.deserialize env.wire text ≡ ok u)
    × CoinsAreSound env cd'
make_undo_block-stored_example =
    make_undo_block-stored env second_block started.coin_database started-Represents.coins

-- The chain with the second block, and then with a transaction.
abbrev after_second :
    (c' : Chain) × (handle_block env 0 second_block started ≡ ok c')
    × Ends env second_block ((1 + 1) % 2 ^ 32) c'
after_second =
    handle_block-returns env 0 second_block started started-Represents.coins second_on_top
      second_Accepted.valid second_fits

get_active_chain-new_chain_example :
    (c'' : Chain) × (get_active_chain env 2 after_second.0.active_chain_length after_second.0
      ≡ ok (second_block ∷ [], c''))
get_active_chain-new_chain_example =
    get_active_chain-new_chain env 0 0 genesis_Fits started_made
      (accept 0 second_Accepted after_second.1 (done refl))

reached : Reach env after_second.0
reached = next (constructed 0 0 new_disk started_made) (block 0 second_block after_second.1)

Reach-ChainIsSound_example : ChainIsSound env after_second.0
Reach-ChainIsSound_example = Reach-ChainIsSound env reached

validate_block-Reach_example :
    (valid : Bool) × (cd : CoinDatabase) × (validate_block env
        (second_payment ∷ [])
        after_second.0.coin_database
      ≡ ok (valid, cd))
    × CoinsAreSound env cd
validate_block-Reach_example = validate_block-Reach env (second_payment ∷ []) reached
