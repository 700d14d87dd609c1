-- ===== src/Coins/Database/Validity.antt =====
-- The validation of blocks on a database whose stored records have their vectors in step and whose
-- cache has no spent coin: it returns, and changes nothing but what reads add to the store.
use rath_db.Common.{
  ℕ, ◌≡◌, refl, List, [], ◌∷◌, Bytes, Bool, true, false, some, Option-cases, inl, inr, Bool-cases,
  ◌==◌, Outcome, ok, bytes_eq,
}
use rath_db.Common.Map.{Map, lookup}
use rath_db.Env.{Env}
use rath_db.Text.{to_string}
use rath_db.Db.{Database, get_safely}
use rath_db.Primitives.Input.{TransactionInput}
use rath_db.Primitives.Transaction.{Transaction}
use rath_db.Coins.Columns.{Aligned}
use rath_db.Coins.Record.{Coin}
use rath_db.Coins.State.{CoinDatabase, input_locator}
use rath_db.Coins.Validation.{
  mem_index, validate_record, validate_found, validate_transaction_input, validate_inputs, branch,
  validate_transaction, validate_all, validate_block, match_utxo, match_found, return_matching_utxo,
}
use rath_db.Coins.Database.Sound.{DbIsSound, read_record-ok, get_safely-DbIsSound}

-- No coin of the cache is spent.
abbrev pub NoneSpent : Map Bytes Coin → Type 0
NoneSpent cache = (key : Bytes) (coin : Coin) → lookup key cache ≡ some coin → coin.is_spent ≡ false

pub record CoinsAreSound (e : Env) (cd : CoinDatabase) : Type 0 where
  pub records : DbIsSound e cd.database
  pub none_spent : NoneSpent cd.main_cache

-- The database that reads have left, with all else as it was.
abbrev pub with_database : CoinDatabase → Database → CoinDatabase
with_database cd db = record cd { database = db }

-- A validation returns a verdict and a sound database.
abbrev pub Verdict : (CoinDatabase → Outcome (Bool × CoinDatabase)) → Env → CoinDatabase → Type 0
Verdict run e cd =
    (valid : Bool) × (db : Database) × (run cd ≡ ok (valid, with_database cd db)) × DbIsSound e db

pub with_database-CoinsAreSound :
    (e : Env) (cd : CoinDatabase) (db : Database)
    → CoinsAreSound e cd
    → DbIsSound e db
    → CoinsAreSound e (with_database cd db)
with_database-CoinsAreSound e cd db h d = record { records = d; none_spent = h.none_spent }

validate_record-total :
    (e : Env) (t : TransactionInput) (cd : CoinDatabase)
    → CoinsAreSound e cd
    → (valid : Bool) × (db : Database) × (validate_record e t cd
        ≡ ok (some valid, with_database cd db))
      × DbIsSound e db
unfolding validate_record
validate_record-total e t cd h = (
  mem_index t.utxo_index (h.records t.reference_transaction_hash).found.utxo,
  (get_safely (to_string t.reference_transaction_hash) cd.database).1,
  rw (
      read_record-ok e t.reference_transaction_hash cd.database
        (h.records t.reference_transaction_hash)),
  get_safely-DbIsSound e (to_string t.reference_transaction_hash) cd.database h.records,
)

pub validate_input-total :
    (e : Env) (t : TransactionInput) (cd : CoinDatabase)
    → CoinsAreSound e cd
    → (valid : Bool) × (db : Database) × (validate_transaction_input e t cd
        ≡ ok (some valid, with_database cd db))
      × DbIsSound e db
unfolding validate_transaction_input validate_found
validate_input-total e t cd h = elim (Option-cases (lookup (input_locator t) cd.main_cache)) [
  | inl missing ↦
      let (valid, db, r, d) = validate_record-total e t cd h in (valid, db, rw missing r, d)
  | inr (coin, found) ↦
      (true, cd.database, rw (found, h.none_spent (input_locator t) coin found), h.records)
]

validate_inputs-total :
    (e : Env) (ts : List TransactionInput) (cd : CoinDatabase)
    → CoinsAreSound e cd
    → Verdict (validate_inputs e ts) e cd
unfolding validate_inputs branch
validate_inputs-total e [] cd h = (true, cd.database, refl, h.records)
validate_inputs-total e (t ∷ ts) cd h =
    let (valid, db, r, d) = validate_input-total e t cd h in
    let (rest, db', r', d') =
      validate_inputs-total e ts (with_database cd db) (with_database-CoinsAreSound e cd db h d) in
    elim (Bool-cases valid) [
      | inl yes_ ↦ (rest, db', rw (r, yes_) r', d')
      | inr no_ ↦ (false, db, rw (r, no_), d)
    ]

validate_transaction-of :
    (e : Env) (is : List TransactionInput) (t : Transaction) (cd : CoinDatabase)
    → t.transaction_inputs ≡ is
    → CoinsAreSound e cd
    → Verdict (validate_transaction e t) e cd
unfolding validate_transaction
validate_transaction-of e [] t cd none_there h = (false, cd.database, rw none_there, h.records)
validate_transaction-of e (i ∷ is) t cd some_there h =
    let (valid, db, r, d) = validate_inputs-total e (i ∷ is) cd h in (valid, db, rw some_there r, d)

pub validate_transaction-total :
    (e : Env) (t : Transaction) (cd : CoinDatabase)
    → CoinsAreSound e cd
    → Verdict (validate_transaction e t) e cd
validate_transaction-total e t cd h = validate_transaction-of e t.transaction_inputs t cd refl h

validate_all-total :
    (e : Env) (ts : List Transaction) (cd : CoinDatabase)
    → CoinsAreSound e cd
    → Verdict (validate_all e ts) e cd
unfolding validate_all
validate_all-total e [] cd h = (true, cd.database, refl, h.records)
validate_all-total e (t ∷ ts) cd h =
    let (valid, db, r, d) = validate_transaction-total e t cd h in
    let (rest, db', r', d') =
      validate_all-total e ts (with_database cd db) (with_database-CoinsAreSound e cd db h d) in
    elim (Bool-cases valid) [
      | inl yes_ ↦ (rest, db', rw (r, yes_) r', d')
      | inr no_ ↦ (false, db, rw (r, no_), d)
    ]

pub validate_block-total :
    (e : Env) (ts : List Transaction) (cd : CoinDatabase)
    → CoinsAreSound e cd
    → Verdict (validate_block e ts) e cd
unfolding validate_block
validate_block-total e [] cd h = (false, cd.database, refl, h.records)
validate_block-total e (t ∷ ts) cd h = validate_all-total e (t ∷ ts) cd h

match_utxo-total :
    (i : ℕ) (us ams ks : List ℕ)
    → Aligned us ams ks
    → (pair : ℕ × ℕ) × (match_utxo i us ams ks ≡ ok pair)
unfolding match_utxo
match_utxo-total i [] [] [] h = ((0, 0), refl)
match_utxo-total i [] [] (k ∷ ks) h = elim h [ ]
match_utxo-total i [] (a ∷ ams) ks h = elim h [ ]
match_utxo-total i (u ∷ us) [] ks h = elim h [ ]
match_utxo-total i (u ∷ us) (a ∷ ams) [] h = elim h [ ]
match_utxo-total i (u ∷ us) (a ∷ ams) (k ∷ ks) h =
    let (pair, r) = match_utxo-total i us ams ks h in
    elim (Bool-cases (u == i)) [ inl here ↦ ((a, k), rw here) | inr later ↦ (pair, rw later r) ]

pub return_matching_utxo-total :
    (e : Env) (t : TransactionInput) (cd : CoinDatabase)
    → CoinsAreSound e cd
    → (pair : ℕ × ℕ) × (db : Database) × (return_matching_utxo e t cd
        ≡ ok (pair, with_database cd db))
      × DbIsSound e db
unfolding return_matching_utxo match_found
return_matching_utxo-total e t cd h = elim (Option-cases (lookup (input_locator t) cd.main_cache)) [
  | inl missing ↦
      let held = h.records t.reference_transaction_hash in
      let (pair, r) =
        match_utxo-total t.utxo_index held.found.utxo held.found.amounts held.found.public_keys
          held.sound.aligned in
      (
        pair,
        (get_safely (to_string t.reference_transaction_hash) cd.database).1,
        rw (missing, read_record-ok e t.reference_transaction_hash cd.database held, r),
        get_safely-DbIsSound e (to_string t.reference_transaction_hash) cd.database h.records,
      )
  | inr (coin, found) ↦ (
    (coin.transaction_output.amount, coin.transaction_output.public_key),
    cd.database,
    rw found,
    h.records,
  )
]
