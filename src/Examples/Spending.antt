-- ===== src/Examples/Spending.antt =====
-- The coin database, tried on concrete values.
use rath_db.Common.{
  ◌≡◌, ◌≢◌, refl, sym, ◌∙◌, ok, undefined, [], ◌∷◌, ◌+◌, ◌%◌, ◌^◌, arith, true, false, some,
  replicate,
}
use rath_db.Common.Map.{lookup}
use rath_db.Text.{to_string}
use rath_db.Primitives.Output.{make_output}
use rath_db.Coins.Locator.{serialize_from_construct}
use rath_db.Coins.Locator
use rath_db.Coins.State.{CoinDatabase, new_coin_database}
use rath_db.Coins.Validation.{validate_transaction_input, validate_block, return_matching_utxo}
use rath_db.Coins.Database.{
  store_transactions_to_main_cache, contained_in_mempool, store_transaction_in_mempool,
  remove_transactions_from_mempool, validate_and_store_block,
}
use rath_db.Coins.Database.Spend.{Spends, stored_output_spendable}
use rath_db.Coins.Database.Respend.{TransactionAvailable, block_accepted_twice}
use rath_db.Coins.Undoing.{find_index, remove_utxo}
use rath_db.Coins.Undoing.Insertion.{IsFirst, find_index-IsFirst}
use rath_db.Coins.Undoing.TakenBack.{removed_output_unspendable}
use rath_db.Coins.Database.Pool.{remove-store_transaction_in_mempool}
use rath_db.Examples.Data.{env, payment, next_input, spare_coin, funded}

next_input-Spends : Spends env payment 0 next_input
next_input-Spends = record { hash = refl; index = refl }

stored_output_spendable_example :
    (cd' : CoinDatabase) × (store_transactions_to_main_cache env (payment ∷ []) new_coin_database
      ≡ ok cd')
    × (validate_transaction_input env next_input cd' ≡ ok (some true, cd'))
    × (return_matching_utxo env next_input cd' ≡ ok ((100, 11), cd'))
stored_output_spendable_example =
    stored_output_spendable env payment 0 (make_output 100 11) next_input new_coin_database refl
      (omega arith) next_input-Spends

removed_output_unspendable_example :
    (cd' : CoinDatabase) × (validate_transaction_input env next_input
        (remove_utxo env payment funded)
      ≡ ok (some false, cd'))
removed_output_unspendable_example =
    removed_output_unspendable env payment 0 next_input funded (omega arith) next_input-Spends

pub payment_Available : TransactionAvailable funded payment
unfolding Locator.serialize serialize_from_construct lookup to_string
payment_Available = record {
  some_input = λ h. cc;
  inputs = (record { coin = spare_coin; found = refl; free = refl }, tt);
}

block_accepted_twice_example :
    (cd' : CoinDatabase) × (validate_and_store_block env 0 (payment ∷ []) funded
      ≡ ok (some true, cd'))
    × (validate_block env (payment ∷ []) cd' ≡ ok (true, cd'))
block_accepted_twice_example =
    block_accepted_twice env 0 (payment ∷ []) funded (λ h. cc) (payment_Available, tt) (omega arith)

abbrev no_pool : CoinDatabase
no_pool = record funded { mempool_cache = []; mempool_size = 0 }

find_index-IsFirst_example : IsFirst 4 (1 ∷ 3 ∷ 6 ∷ []) 2
find_index-IsFirst_example = find_index-IsFirst 4 (1 ∷ 3 ∷ 6 ∷ []) 2 (unfold find_index in refl)

absent : contained_in_mempool env payment no_pool ≡ false
unfolding rath_db.Common.Map.contains lookup
absent = refl

remove-store_transaction_in_mempool_example :
    (contained_in_mempool env payment (store_transaction_in_mempool env payment no_pool) ≡ true)
    × (contained_in_mempool env payment (
          remove_transactions_from_mempool env
            (payment ∷ [])
            (store_transaction_in_mempool env payment no_pool))
        ≡ false)
    × ((remove_transactions_from_mempool env
          (payment ∷ [])
          (store_transaction_in_mempool env payment no_pool)).mempool_size
        ≡ 0)
remove-store_transaction_in_mempool_example =
    remove-store_transaction_in_mempool env payment no_pool (omega arith) absent
