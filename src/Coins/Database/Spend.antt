-- ===== src/Coins/Database/Spend.antt =====
-- Which outputs can be spent after transactions have been stored: what the cache holds, and what
-- validate_transactionInput and return_matching_utxo make of it.
use rath_db.Common.{
  ℕ, zero, suc, ◌+◌, ◌≤◌, ◌<◌, ◌≡◌, refl, ◌∙◌, inl, inr, true, false, List, [], ◌∷◌, Bytes, length,
  get_elem?, none, some, bytes_beq, bytes_beq_iff, bytes_eq, Bool-cases, ok, arith,
}
use rath_db.Common.Map.{Map, lookup, lookup-insert, beq_refl}
use rath_db.Env.{Env}
use rath_db.Text.{to_string}
use rath_db.Db.{get_safely}
use rath_db.Primitives.Input.{TransactionInput}
use rath_db.Primitives.Output.{TransactionOutput}
use rath_db.Primitives.Transaction.{Transaction}
use rath_db.Coins.Record.{Coin}
use rath_db.Coins.Locator.{serialize_from_construct, serialize_from_construct-injective}
use rath_db.Coins.Locator
use rath_db.Coins.State.{CoinDatabase, transaction_hash, input_locator}
use rath_db.Coins.Validation.{mem_index, validate_transaction_input, return_matching_utxo}
use rath_db.Coins.Database.{cache_outputs, store_to_cache_help, store_transactions_to_main_cache}
use rath_db.Coins.Database.Sound.{
  Holds, read_record-ok, after_one, after_all, store_transactions-ok,
}

abbrev pub unspent : TransactionOutput → Coin
unspent o = record { transaction_output = o; is_spent = false }

key_ne :
    (h i j : ℕ)
    → i < j
    → j < 256
    → bytes_beq (serialize_from_construct h j) (serialize_from_construct h i) ≡ false
key_ne h i j lt small =
    elim (Bool-cases (bytes_beq (serialize_from_construct h j) (serialize_from_construct h i))) [
      | inl e ↦
          absurd (
            omega (arith, (serialize_from_construct-injective h j h i ((bytes_beq_iff _ _).0 e)).1))
      | inr e ↦ e
    ]

-- Outputs at later positions leave a coin alone, as long as the positions fit a byte.
cache_outputs-later :
    (h i j : ℕ) (os : List TransactionOutput) (cache : Map Bytes Coin)
    → i < j
    → j + length os ≤ 256
    → lookup (serialize_from_construct h i) (cache_outputs h j os cache)
      ≡ lookup (serialize_from_construct h i) cache
unfolding cache_outputs
cache_outputs-later h i j [] cache lt fit = refl
cache_outputs-later h i j (o ∷ os) cache lt fit =
    cache_outputs-later h i (suc j) os _ (omega arith) (omega arith)
    ∙ (lookup-insert (serialize_from_construct h j) (serialize_from_construct h i) (unspent o) cache
        ∙ rw (key_ne h i j lt (omega arith)))

cache_outputs-at :
    (h i k : ℕ) (os : List TransactionOutput) (o : TransactionOutput) (cache : Map Bytes Coin)
    → get_elem? os k ≡ some o
    → i + length os ≤ 256
    → lookup (serialize_from_construct h (i + k)) (cache_outputs h i os cache) ≡ some (unspent o)
unfolding cache_outputs
cache_outputs-at h i k [] o cache e fit = cc
cache_outputs-at h i zero (o' ∷ os) o cache e fit = rw start (
    cache_outputs-later h i (suc i) os _ (omega arith) (omega arith)
    ∙ (lookup-insert (serialize_from_construct h i) (serialize_from_construct h i) (unspent o')
          cache
        ∙ rw (beq_refl (serialize_from_construct h i)) (cc e)))
  where
    start : i + 0 ≡ i
    start = omega arith
cache_outputs-at h i (suc k) (o' ∷ os) o cache e fit =
    rw shift (cache_outputs-at h (suc i) k os o _ e (omega arith))
  where
    shift : i + suc k ≡ suc i + k
    shift = omega arith

-- The input that spends output `i` of a transaction.
pub record Spends (e : Env) (t : Transaction) (i : ℕ) (input : TransactionInput) : Type 0 where
  pub hash : input.reference_transaction_hash ≡ transaction_hash e t
  pub index : input.utxo_index ≡ i

pub Spends-key :
    (e : Env) (t : Transaction) (i : ℕ) (input : TransactionInput)
    → Spends e t i input
    → input_locator input ≡ serialize_from_construct (transaction_hash e t) i
unfolding Locator.serialize serialize_from_construct
Spends-key e t i input s = cc (s.hash, s.index)

cached_one :
    (e : Env) (t : Transaction) (i : ℕ) (o : TransactionOutput) (cd : CoinDatabase)
    → get_elem? t.transaction_outputs i ≡ some o
    → length t.transaction_outputs ≤ 256
    → lookup (serialize_from_construct (transaction_hash e t) i) (after_one e t cd).main_cache
      ≡ some (unspent o)
unfolding after_one store_to_cache_help
cached_one e t i o cd g fit = rw start at (
    cache_outputs-at (transaction_hash e t) 0 i t.transaction_outputs o cd.main_cache g
      (omega arith))
  where
    start : 0 + i ≡ i
    start = omega arith

pub validate_cached :
    (e : Env) (input : TransactionInput) (coin : Coin) (cd : CoinDatabase)
    → lookup (input_locator input) cd.main_cache ≡ some coin
    → coin.is_spent ≡ false
    → validate_transaction_input e input cd ≡ ok (some true, cd)
unfolding validate_transaction_input
validate_cached e input coin cd h s = rw (h, s)

-- A coin that is not in the cache is looked for in the stored record.
pub validate_uncached :
    (e : Env) (input : TransactionInput) (cd : CoinDatabase)
    → lookup (input_locator input) cd.main_cache ≡ none
    → (h : Holds e cd.database input.reference_transaction_hash)
    → (cd' : CoinDatabase) × (validate_transaction_input e input cd
        ≡ ok (some (mem_index input.utxo_index h.found.utxo), cd'))
unfolding validate_transaction_input
validate_uncached e input cd miss h = (
  record cd { database = (get_safely (to_string input.reference_transaction_hash) cd.database).1 },
  rw (miss, read_record-ok e input.reference_transaction_hash cd.database h),
)

pub match_cached :
    (e : Env) (input : TransactionInput) (coin : Coin) (cd : CoinDatabase)
    → lookup (input_locator input) cd.main_cache ≡ some coin
    → return_matching_utxo e input cd
      ≡ ok ((coin.transaction_output.amount, coin.transaction_output.public_key), cd)
unfolding return_matching_utxo
match_cached e input coin cd h = rw h

-- After a transaction of at most 256 outputs has been stored, an input that names one of its
-- outputs is valid, and the amount and the public key that are found for it are those of the
-- output.
pub stored_output_spendable :
    (e : Env) (t : Transaction) (i : ℕ) (o : TransactionOutput) (input : TransactionInput)
    (cd : CoinDatabase)
    → get_elem? t.transaction_outputs i ≡ some o
    → length t.transaction_outputs ≤ 256
    → Spends e t i input
    → (cd' : CoinDatabase) × (store_transactions_to_main_cache e (t ∷ []) cd ≡ ok cd')
      × (validate_transaction_input e input cd' ≡ ok (some true, cd'))
      × (return_matching_utxo e input cd' ≡ ok ((o.amount, o.public_key), cd'))
unfolding after_all
stored_output_spendable e t i o input cd g fit s = (
  after_one e t cd,
  store_transactions-ok e (t ∷ []) cd,
  validate_cached e input (unspent o) _ found refl,
  match_cached e input (unspent o) _ found,
)
  where
    found : lookup (input_locator input) (after_one e t cd).main_cache ≡ some (unspent o)
    found = rw (Spends-key e t i input s) (cached_one e t i o cd g fit)
