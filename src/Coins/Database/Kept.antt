-- ===== src/Coins/Database/Kept.antt =====
-- The operations that store transactions and blocks keep the coin database sound.
use rath_db.Common.{
  ℕ, suc, ◌+◌, ◌≤◌, ◌≡◌, refl, sym, subst, ◌∙◌, List, [], ◌∷◌, Bytes, length, false, Option, some,
  inl, inr, Bool-cases, bytes_beq, bytes_eq, nat_eq, ltb, le→ltb, ok, Ensures, Ensures-ok,
  Ensures-bind,
}
use rath_db.Common.Map.{Map, lookup, insert, lookup-insert, contains}
use rath_db.Env.{Env}
use rath_db.Primitives.Output.{TransactionOutput}
use rath_db.Primitives.Transaction.{Transaction}
use rath_db.Coins.Record.{Coin}
use rath_db.Coins.Locator.{serialize_from_construct}
use rath_db.Coins.State.{CoinDatabase, new_coin_database, main_cache_capacity, transaction_hash}
use rath_db.Coins.Database.{
  cache_outputs, store_to_cache_help, flush_main_cache, store_transactions_to_main_cache,
  remove_from_mempool, remove_transactions_from_mempool, store_block,
}
use rath_db.Coins.Database.Flush.{flush_main_cache-never, flush_main_cache-empty}
use rath_db.Coins.Database.Sound.{
  DbIsSound, after_one, after_all, after_all-DbIsSound, store_transactions-ok,
  new_database-DbIsSound,
}
use rath_db.Coins.Database.Validity.{NoneSpent, CoinsAreSound}

-- An unspent coin is put under a key.
pub insert-NoneSpent :
    (key : Bytes) (coin : Coin) (cache : Map Bytes Coin)
    → coin.is_spent ≡ false
    → NoneSpent cache
    → NoneSpent (insert key coin cache)
insert-NoneSpent key coin cache free h k c found = elim (Bool-cases (bytes_beq key k)) [
  | inl here ↦ same_coin coin c (sym (lookup-insert key k coin cache ∙ rw here) ∙ found) free
  | inr there ↦ h k c (sym (lookup-insert key k coin cache ∙ rw there) ∙ found)
]
  where
    same_coin :
        (a b : Coin)
        → ◌≡◌ {A = Option Coin} (some a) (some b)
        → a.is_spent ≡ false
        → b.is_spent ≡ false
    same_coin a b e f = cc

cache_outputs-NoneSpent :
    (hash i : ℕ) (os : List TransactionOutput) (cache : Map Bytes Coin)
    → NoneSpent cache
    → NoneSpent (cache_outputs hash i os cache)
unfolding cache_outputs
cache_outputs-NoneSpent hash i [] cache h = h
cache_outputs-NoneSpent hash i (o ∷ os) cache h = cache_outputs-NoneSpent hash (suc i) os _ (
    insert-NoneSpent (serialize_from_construct hash i)
      (record { transaction_output = o; is_spent = false }) cache refl h)

after_all-NoneSpent :
    (e : Env) (ts : List Transaction) (cd : CoinDatabase)
    → NoneSpent cd.main_cache
    → NoneSpent (after_all e ts cd).main_cache
unfolding after_all after_one store_to_cache_help
after_all-NoneSpent e [] cd h = h
after_all-NoneSpent e (t ∷ ts) cd h =
    after_all-NoneSpent e ts (after_one e t cd)
      (cache_outputs-NoneSpent _ 0 t.transaction_outputs cd.main_cache h)

pub after_all-CoinsAreSound :
    (e : Env) (ts : List Transaction) (cd : CoinDatabase)
    → CoinsAreSound e cd
    → CoinsAreSound e (after_all e ts cd)
after_all-CoinsAreSound e ts cd h = record {
  records = after_all-DbIsSound e ts cd h.records;
  none_spent = after_all-NoneSpent e ts cd h.none_spent;
}

-- The pool is not looked at.
pub pool-CoinsAreSound :
    {e : Env} {cd cd' : CoinDatabase}
    → cd'.database ≡ cd.database
    → cd'.main_cache ≡ cd.main_cache
    → CoinsAreSound e cd
    → CoinsAreSound e cd'
pool-CoinsAreSound {e} same_db same_cache h = record {
  records = subst (DbIsSound e) (sym same_db) h.records;
  none_spent = subst NoneSpent (sym same_cache) h.none_spent;
}

remove_from_mempool-CoinsAreSound :
    (e : Env) (t : Transaction) (cd : CoinDatabase)
    → CoinsAreSound e cd
    → CoinsAreSound e (remove_from_mempool e t cd)
unfolding remove_from_mempool
remove_from_mempool-CoinsAreSound e t cd h =
    elim (Bool-cases (contains (transaction_hash e t) cd.mempool_cache)) [
      | inl y ↦ rw y (pool-CoinsAreSound refl refl h)
      | inr n ↦ rw n h
    ]

pub remove-CoinsAreSound :
    (e : Env) (ts : List Transaction) (cd : CoinDatabase)
    → CoinsAreSound e cd
    → CoinsAreSound e (remove_transactions_from_mempool e ts cd)
unfolding remove_transactions_from_mempool
remove-CoinsAreSound e [] cd h = h
remove-CoinsAreSound e (t ∷ ts) cd h =
    remove-CoinsAreSound e ts (remove_from_mempool e t cd)
      (remove_from_mempool-CoinsAreSound e t cd h)

-- Only an empty cache is flushed.
flush_of :
    (e : Env) (fuel : ℕ) (cd : CoinDatabase) (cache : Map Bytes Coin)
    → cd.main_cache ≡ cache
    → CoinsAreSound e cd
    → Ensures (CoinsAreSound e) (flush_main_cache e fuel cd)
unfolding lookup
flush_of e fuel cd [] empty h = rw (flush_main_cache-empty e fuel cd empty) (
    Ensures-ok (CoinsAreSound e) (record cd { main_cache = []; main_cache_size = 0 })
      (record { records = h.records; none_spent = λ k c found. cc }))
flush_of e fuel cd ((key, coin) ∷ cache) there h = record {
  at = λ cd' r. absurd (flush_main_cache-never e fuel cd cd' key coin cache there r);
}

store_all :
    (e : Env) (ts : List Transaction) (cd : CoinDatabase)
    → CoinsAreSound e cd
    → Ensures
        (CoinsAreSound e)
        (store_transactions_to_main_cache e ts (remove_transactions_from_mempool e ts cd))
store_all e ts cd h = rw (store_transactions-ok e ts (remove_transactions_from_mempool e ts cd)) (
    Ensures-ok (CoinsAreSound e) (after_all e ts (remove_transactions_from_mempool e ts cd))
      (after_all-CoinsAreSound e ts _ (remove-CoinsAreSound e ts cd h)))

pub store_block-CoinsAreSound :
    (e : Env) (fuel : ℕ) (ts : List Transaction) (cd : CoinDatabase)
    → CoinsAreSound e cd
    → Ensures (CoinsAreSound e) (store_block e fuel ts cd)
unfolding store_block
store_block-CoinsAreSound e fuel ts cd h =
    elim (Bool-cases (ltb main_cache_capacity (length ts + cd.main_cache_size))) [
      | inl full ↦ rw full (
          Ensures-bind _ (flush_main_cache e fuel cd) (flush_of e fuel cd cd.main_cache refl h)
            λ cd' h'. store_all e ts cd' h')
      | inr fits ↦ rw fits (store_all e ts cd h)
    ]

-- A block that fits the cache is stored.
pub store_block-fits :
    (e : Env) (fuel : ℕ) (ts : List Transaction) (cd : CoinDatabase)
    → length ts + cd.main_cache_size ≤ main_cache_capacity
    → store_block e fuel ts cd ≡ ok (after_all e ts (remove_transactions_from_mempool e ts cd))
unfolding store_block
store_block-fits e fuel ts cd fit =
    rw (le→ltb main_cache_capacity (length ts + cd.main_cache_size) fit)
      (store_transactions-ok e ts (remove_transactions_from_mempool e ts cd))

pub new_coin_database-CoinsAreSound : (e : Env) → CoinsAreSound e new_coin_database
unfolding new_coin_database lookup
new_coin_database-CoinsAreSound e = record {
  records = new_database-DbIsSound e;
  none_spent = λ k c h. cc;
}
