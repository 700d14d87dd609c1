-- ===== src/Coins/Database/Pool.antt =====
-- The memory pool and its counter.
use rath_db.Common.{◌^◌, ◌<◌, ◌≡◌, refl, ◌∙◌, true, false, [], ◌∷◌, nat_eq, arith}
use rath_db.Common.Map.{contains-insert, contains-erase, beq_refl}
use rath_db.Env.{Env}
use rath_db.Primitives.Transaction.{Transaction}
use rath_db.Coins.State.{CoinDatabase, transaction_hash}
use rath_db.Coins.Database.{
  store_transaction_in_mempool, contained_in_mempool, remove_transactions_from_mempool,
}

-- A transaction that is not in the pool is in it after `store_transaction_in_mempool`, and after it
-- has been taken out with its block it is in it no more and the counter, a 16-bit number, is what
-- it was.
pub remove-store_transaction_in_mempool :
    (e : Env) (t : Transaction) (cd : CoinDatabase)
    → cd.mempool_size < 2 ^ 16
    → contained_in_mempool e t cd ≡ false
    → (contained_in_mempool e t (store_transaction_in_mempool e t cd) ≡ true)
      × (contained_in_mempool e t
            (remove_transactions_from_mempool e (t ∷ []) (store_transaction_in_mempool e t cd))
          ≡ false)
      × ((remove_transactions_from_mempool e
            (t ∷ [])
            (store_transaction_in_mempool e t cd)).mempool_size
          ≡ cd.mempool_size)
unfolding store_transaction_in_mempool remove_transactions_from_mempool
remove-store_transaction_in_mempool e t cd small absent =
    rw
      (
        contains-insert (transaction_hash e t) (transaction_hash e t) t cd.mempool_cache,
        beq_refl (transaction_hash e t),
      )
      (
        refl,
        contains-erase (transaction_hash e t) (transaction_hash e t) _
            ∙ rw (beq_refl (transaction_hash e t)),
        omega arith,
      )
