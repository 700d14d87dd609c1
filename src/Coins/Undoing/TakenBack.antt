-- ===== src/Coins/Undoing/TakenBack.antt =====
-- `remove_utxo` takes back what storing a transaction did.
use rath_db.Common.{
  ℕ, zero, suc, ◌+◌, ◌<◌, ◌≡◌, ◌∙◌, sym, false, List, [], ◌∷◌, Bytes, length, none, some, bytes_eq,
  ok, arith,
}
use rath_db.Common.Map.{Map, lookup, lookup-erase, beq_refl}
use rath_db.Env.{Env}
use rath_db.Text.{to_string}
use rath_db.Db.Laws.{view-delete_safely}
use rath_db.Primitives.Input.{TransactionInput}
use rath_db.Primitives.Output.{TransactionOutput}
use rath_db.Primitives.Transaction.{Transaction}
use rath_db.Coins.Record.{Coin, empty_record}
use rath_db.Coins.Locator.{serialize_from_construct}
use rath_db.Coins.State.{CoinDatabase, transaction_hash, input_locator}
use rath_db.Coins.Validation.{mem_index, validate_transaction_input}
use rath_db.Coins.Database.Sound.{Holds, empty_record-IsSound}
use rath_db.Coins.Database.Spend.{Spends, Spends-key, validate_uncached}
use rath_db.Coins.Undoing.{erase_outputs, remove_utxo}

erase_outputs-none :
    (key : Bytes) (h i : ℕ) (os : List TransactionOutput) (cache : Map Bytes Coin)
    → lookup key cache ≡ none
    → lookup key (erase_outputs h i os cache) ≡ none
unfolding erase_outputs
erase_outputs-none key h i [] cache e = e
erase_outputs-none key h i (o ∷ os) cache e =
    erase_outputs-none key h (suc i) os _
      (lookup-erase (serialize_from_construct h i) key cache ∙ ground (arith, e))

erase_outputs-at :
    (h i k : ℕ) (os : List TransactionOutput) (cache : Map Bytes Coin)
    → k < length os
    → lookup (serialize_from_construct h (i + k)) (erase_outputs h i os cache) ≡ none
unfolding erase_outputs
erase_outputs-at h i k [] cache lt = absurd (omega arith)
erase_outputs-at h i zero (o ∷ os) cache lt = rw start (
    erase_outputs-none (serialize_from_construct h i) h (suc i) os _ (
      lookup-erase (serialize_from_construct h i) (serialize_from_construct h i) cache
      ∙ rw (beq_refl (serialize_from_construct h i))))
  where
    start : i + 0 ≡ i
    start = omega arith
erase_outputs-at h i (suc k) (o ∷ os) cache lt =
    rw shift (erase_outputs-at h (suc i) k os _ (omega arith))
  where
    shift : i + suc k ≡ suc i + k
    shift = omega arith

-- After `remove_utxo` of a transaction an input that names one of its outputs is found invalid, in
-- whatever state it was called.
pub removed_output_unspendable :
    (e : Env) (t : Transaction) (i : ℕ) (input : TransactionInput) (cd : CoinDatabase)
    → i < length t.transaction_outputs
    → Spends e t i input
    → (cd' : CoinDatabase) × (validate_transaction_input e input (remove_utxo e t cd)
        ≡ ok (some false, cd'))
unfolding remove_utxo mem_index
removed_output_unspendable e t i input cd lt s = validate_uncached e input _ missing gone
  where
    start : 0 + i ≡ i
    start = omega arith

    missing : lookup (input_locator input) (remove_utxo e t cd).main_cache ≡ none
    missing = rw (Spends-key e t i input s) (
        rw start at
          (erase_outputs-at (transaction_hash e t) 0 i t.transaction_outputs cd.main_cache lt))

    gone : Holds e (remove_utxo e t cd).database input.reference_transaction_hash
    gone = record {
      found = empty_record;
      sound = empty_record-IsSound;
      stored = rw s.hash (
          view-delete_safely (to_string (transaction_hash e t)) cd.database
            (to_string (transaction_hash e t))
          ∙ (rw (beq_refl (to_string (transaction_hash e t))) (sym e.wire.encode-no_coin_record)));
    }
