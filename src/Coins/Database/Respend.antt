-- ===== src/Coins/Database/Respend.antt =====
-- The inputs of a block in the coin cache, before and after the block is stored.
use rath_db.Common.{
  ℕ, suc, ◌+◌, ◌≤◌, ◌≡◌, ◌≢◌, refl, ◌∙◌, inl, inr, true, false, List, [], ◌∷◌, Bytes, length, some,
  bytes_beq, bytes_eq, nat_eq, Bool-cases, All, ok, le→ltb, arith,
}
use rath_db.Common.Map.{Map, lookup, insert, lookup-insert}
use rath_db.Env.{Env}
use rath_db.Primitives.Input.{TransactionInput}
use rath_db.Primitives.Output.{TransactionOutput}
use rath_db.Primitives.Transaction.{Transaction}
use rath_db.Coins.Record.{Coin}
use rath_db.Coins.Locator.{serialize_from_construct}
use rath_db.Coins.State.{CoinDatabase, main_cache_capacity, transaction_hash, input_locator}
use rath_db.Coins.Validation.{validate_inputs, validate_transaction, validate_all, validate_block}
use rath_db.Coins.Database.{
  cache_outputs, store_to_cache_help, store_block, remove_from_mempool,
  remove_transactions_from_mempool, validate_and_store_block,
}
use rath_db.Coins.Database.Sound.{after_one, after_all, store_transactions-ok}
use rath_db.Coins.Database.Spend.{unspent, validate_cached}

-- The cache holds an unspent coin under the key.
pub record Available (cache : Map Bytes Coin) (key : Bytes) : Type 0 where
  pub coin : Coin
  pub found : lookup key cache ≡ some coin
  pub free : coin.is_spent ≡ false

insert-Available :
    (key other : Bytes) (o : TransactionOutput) (cache : Map Bytes Coin)
    → Available cache key
    → Available (insert other (unspent o) cache) key
insert-Available key other o cache a = elim (Bool-cases (bytes_beq other key)) [
  | inl e ↦ record {
    coin = unspent o;
    found = lookup-insert other key (unspent o) cache ∙ rw e;
    free = refl;
  }
  | inr e ↦ record {
    coin = a.coin;
    found = lookup-insert other key (unspent o) cache ∙ rw e a.found;
    free = a.free;
  }
]

cache_outputs-Available :
    (key : Bytes) (h i : ℕ) (os : List TransactionOutput) (cache : Map Bytes Coin)
    → Available cache key
    → Available (cache_outputs h i os cache) key
unfolding cache_outputs
cache_outputs-Available key h i [] cache a = a
cache_outputs-Available key h i (o ∷ os) cache a =
    cache_outputs-Available key h (suc i) os _
      (insert-Available key (serialize_from_construct h i) o cache a)

after_one-Available :
    (e : Env) (key : Bytes) (t : Transaction) (cd : CoinDatabase)
    → Available cd.main_cache key
    → Available (after_one e t cd).main_cache key
unfolding after_one store_to_cache_help
after_one-Available e key t cd a =
    cache_outputs-Available key (transaction_hash e t) 0 t.transaction_outputs cd.main_cache a

after_all-Available :
    (e : Env) (key : Bytes) (ts : List Transaction) (cd : CoinDatabase)
    → Available cd.main_cache key
    → Available (after_all e ts cd).main_cache key
unfolding after_all
after_all-Available e key [] cd a = a
after_all-Available e key (t ∷ ts) cd a =
    after_all-Available e key ts _ (after_one-Available e key t cd a)

main_cache-remove_one :
    (e : Env) (t : Transaction) (cd : CoinDatabase)
    → (remove_from_mempool e t cd).main_cache ≡ cd.main_cache
unfolding remove_from_mempool
main_cache-remove_one e t cd = ground arith

main_cache-remove :
    (e : Env) (ts : List Transaction) (cd : CoinDatabase)
    → (remove_transactions_from_mempool e ts cd).main_cache ≡ cd.main_cache
unfolding remove_transactions_from_mempool
main_cache-remove e [] cd = refl
main_cache-remove e (t ∷ ts) cd =
    main_cache-remove e ts (remove_from_mempool e t cd) ∙ main_cache-remove_one e t cd

-- All inputs of the transaction, and there is one, are unspent coins of the cache.
abbrev pub InputAvailable : CoinDatabase → TransactionInput → Type 0
InputAvailable cd i = Available cd.main_cache (input_locator i)

pub record TransactionAvailable (cd : CoinDatabase) (t : Transaction) : Type 0 where
  pub some_input : t.transaction_inputs ≢ []
  pub inputs : All (InputAvailable cd) t.transaction_inputs

validate_inputs-Available :
    (e : Env) (is : List TransactionInput) (cd : CoinDatabase)
    → All (InputAvailable cd) is
    → validate_inputs e is cd ≡ ok (true, cd)
unfolding validate_inputs
validate_inputs-Available e [] cd _ = refl
validate_inputs-Available e (i ∷ is) cd (a, as') =
    rw (validate_cached e i a.coin cd a.found a.free) (validate_inputs-Available e is cd as')

validate_transaction-Available :
    (e : Env) (is : List TransactionInput) (t : Transaction) (cd : CoinDatabase)
    → t.transaction_inputs ≡ is
    → is ≢ []
    → All (InputAvailable cd) is
    → validate_transaction e t cd ≡ ok (true, cd)
unfolding validate_transaction
validate_transaction-Available e [] t cd p n a = absurd (n refl)
validate_transaction-Available e (i ∷ is) t cd p n a =
    rw p (validate_inputs-Available e (i ∷ is) cd a)

validate_all-Available :
    (e : Env) (ts : List Transaction) (cd : CoinDatabase)
    → All (TransactionAvailable cd) ts
    → validate_all e ts cd ≡ ok (true, cd)
unfolding validate_all
validate_all-Available e [] cd _ = refl
validate_all-Available e (t ∷ ts) cd (a, as') =
    rw (validate_transaction-Available e _ t cd refl a.some_input a.inputs)
      (validate_all-Available e ts cd as')

pub validate_block-Available :
    (e : Env) (ts : List Transaction) (cd : CoinDatabase)
    → ts ≢ []
    → All (TransactionAvailable cd) ts
    → validate_block e ts cd ≡ ok (true, cd)
unfolding validate_block
validate_block-Available e [] cd n _ = absurd (n refl)
validate_block-Available e (t ∷ ts) cd n a = validate_all-Available e (t ∷ ts) cd a

module _ (e : Env) (stored : List Transaction) (cd : CoinDatabase) where
  unfoldable pub after_block : CoinDatabase
  after_block = after_all e stored (remove_transactions_from_mempool e stored cd)

  after_block-Available :
      (key : Bytes) → Available cd.main_cache key → Available after_block.main_cache key
  unfolding after_block
  after_block-Available key a =
      after_all-Available e key stored _ (rw (main_cache-remove e stored cd) a)

  inputs-Available :
      (is : List TransactionInput)
      → All (InputAvailable cd) is
      → All (InputAvailable after_block) is
  inputs-Available [] _ = tt
  inputs-Available (i ∷ is) (a, as') =
      (after_block-Available (input_locator i) a, inputs-Available is as')

  transactions-Available :
      (ts : List Transaction)
      → All (TransactionAvailable cd) ts
      → All (TransactionAvailable after_block) ts
  transactions-Available [] _ = tt
  transactions-Available (t ∷ ts) (a, as') = (
    record { some_input = a.some_input; inputs = inputs-Available t.transaction_inputs a.inputs },
    transactions-Available ts as',
  )

-- A block of available inputs that fits the cache is valid and is stored.
pub validate_and_store_block-Available :
    (e : Env) (fuel : ℕ) (ts : List Transaction) (cd : CoinDatabase)
    → ts ≢ []
    → All (TransactionAvailable cd) ts
    → length ts + cd.main_cache_size ≤ main_cache_capacity
    → validate_and_store_block e fuel ts cd ≡ ok (some true, after_block e ts cd)
unfolding validate_and_store_block store_block after_block
validate_and_store_block-Available e fuel ts cd n a fit = rw (
  validate_block-Available e ts cd n a,
  le→ltb main_cache_capacity (length ts + cd.main_cache_size) fit,
  store_transactions-ok e ts (remove_transactions_from_mempool e ts cd),
)

-- A nonempty block whose transactions have inputs, all of them unspent coins of the cache, and
-- which fits the cache, is accepted and stored, and after that it is found valid again: storing it
-- marks none of its inputs as spent.
pub block_accepted_twice :
    (e : Env) (fuel : ℕ) (ts : List Transaction) (cd : CoinDatabase)
    → ts ≢ []
    → All (TransactionAvailable cd) ts
    → length ts + cd.main_cache_size ≤ main_cache_capacity
    → (cd' : CoinDatabase) × (validate_and_store_block e fuel ts cd ≡ ok (some true, cd'))
      × (validate_block e ts cd' ≡ ok (true, cd'))
block_accepted_twice e fuel ts cd n a fit = (
  after_block e ts cd,
  validate_and_store_block-Available e fuel ts cd n a fit,
  validate_block-Available e ts (after_block e ts cd) n (transactions-Available e ts cd ts a),
)
