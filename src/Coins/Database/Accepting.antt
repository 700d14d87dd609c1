-- ===== src/Coins/Database/Accepting.antt =====
-- `validate_and_store_block` and `validate_and_store_transaction` on a sound coin database.
use rath_db.Common.{
  ℕ, ◌+◌, ◌≤◌, ◌≡◌, sym, ◌∙◌, List, length, Bool, true, none, some, inl, inr, Bool-cases, bytes_eq,
  nat_eq, Outcome, ok, Ensures, Ensures-ok, Ensures-bind, Ensures-any, arith,
}
use rath_db.Env.{Env}
use rath_db.Primitives.Transaction.{Transaction}
use rath_db.Coins.State.{CoinDatabase, main_cache_capacity}
use rath_db.Coins.Validation.{validate_block, validate_transaction}
use rath_db.Coins.Database.{
  remove_transactions_from_mempool, store_block, store_transaction, validate_and_store_block,
  validate_and_store_transaction,
}
use rath_db.Coins.Database.Sound.{after_all}
use rath_db.Coins.Database.Validity.{
  CoinsAreSound, with_database, with_database-CoinsAreSound, validate_block-total,
}
use rath_db.Coins.Database.Kept.{
  after_all-CoinsAreSound, remove-CoinsAreSound, store_block-CoinsAreSound, store_block-fits,
}

pub validate_and_store_block-CoinsAreSound :
    (e : Env) (fuel : ℕ) (ts : List Transaction) (cd : CoinDatabase)
    → CoinsAreSound e cd
    → Ensures (λ r. CoinsAreSound e r.1) (validate_and_store_block e fuel ts cd)
unfolding validate_and_store_block
validate_and_store_block-CoinsAreSound e fuel ts cd h =
    let (valid, db, r, d) = validate_block-total e ts cd h in
    let h' = with_database-CoinsAreSound e cd db h d in
    elim (Bool-cases valid) [
      | inl y ↦
          rw (r, y)
            (Ensures-bind _ (store_block e fuel ts (with_database cd db))
              (store_block-CoinsAreSound e fuel ts (with_database cd db) h')
              λ cd' k. Ensures-ok (λ p. CoinsAreSound e p.1) (some true, cd') k)
      | inr n ↦ rw (r, n) (Ensures-ok (λ p. CoinsAreSound e p.1) (none, with_database cd db) h')
    ]

-- It reaches no `return`.
pub validate_and_store_transaction-Ensures :
    (e : Env) (t : Transaction) (cd : CoinDatabase)
    → Ensures (λ _. ⊥) (validate_and_store_transaction e t cd)
unfolding validate_and_store_transaction store_transaction
validate_and_store_transaction-Ensures e t cd =
    Ensures-bind _ (validate_transaction e t cd) (Ensures-any _) λ result _.
      elim (Bool-cases result.0) [
        | inl y ↦ rw y (record { at = λ r h. cc })
        | inr n ↦ rw n (record { at = λ r h. cc })
      ]

pub verdict_inj :
    {v v' : Bool} {cd cd' : CoinDatabase}
    → ◌≡◌ {A = Outcome (Bool × CoinDatabase)} (ok (v, cd)) (ok (v', cd'))
    → (v ≡ v') × (cd ≡ cd')
verdict_inj h = ground arith

-- A valid block that fits the cache is stored.
pub validate_and_store_block-total :
    (e : Env) (fuel : ℕ) (ts : List Transaction) (cd : CoinDatabase)
    → CoinsAreSound e cd
    → {cd' : CoinDatabase} → validate_block e ts cd ≡ ok (true, cd')
    → length ts + cd.main_cache_size ≤ main_cache_capacity
    → (cd'' : CoinDatabase) × (validate_and_store_block e fuel ts cd ≡ ok (some true, cd''))
      × CoinsAreSound e cd''
unfolding validate_and_store_block
validate_and_store_block-total e fuel ts cd h valid fit =
    let (v, db, r, d) = validate_block-total e ts cd h in
    let read = with_database cd db in
    (
      after_all e ts (remove_transactions_from_mempool e ts read),
      rw (r, sym (verdict_inj (sym valid ∙ r)).0, store_block-fits e fuel ts read fit),
      after_all-CoinsAreSound e ts _
          (remove-CoinsAreSound e ts read (with_database-CoinsAreSound e cd db h d)),
    )
