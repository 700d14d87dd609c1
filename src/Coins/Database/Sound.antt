-- ===== src/Coins/Database/Sound.antt =====
-- The invariant of the coin database: under every transaction hash stands the serialization of a
-- record whose three vectors are in step. What it gives for reads, and that storing keeps it.
use rath_db.Common.{
  ℕ, suc, ◌≡◌, refl, sym, subst, ap, ◌∙◌, inl, inr, List, [], ◌∷◌, Bytes, ◌==◌, if◌then◌else◌,
  bytes_beq, bytes_beq_iff, Bool-cases, ok, arith,
}
use rath_db.Env.{Env}
use rath_db.Text.{to_string}
use rath_db.Text.RoundTrip.{to_string-injective}
use rath_db.Db.{Database, put_safely, delete_safely, get_safely, new_database}
use rath_db.Db.Laws.{
  view, view-new_database, get_safely-view, view-get_safely, view-put_safely, view-delete_safely,
}
use rath_db.Primitives.Output.{TransactionOutput}
use rath_db.Primitives.Transaction.{Transaction}
use rath_db.Coins.Columns.{Aligned}
use rath_db.Coins.Record.{
  CoinRecord, IsSound, IsText, bytes_of, empty_record, serialize-IsSound, deserialize-bytes_of,
}
use rath_db.Coins.State.{CoinDatabase, transaction_hash, read_record}
use rath_db.Coins.Database.{
  output_columns, output_record, store_one, store_to_cache_help, store_transactions_to_main_cache,
}

-- The record that stands under a hash; a missing one is a record without outputs.
pub record Holds (e : Env) (db : Database) (hash : ℕ) : Type 0 where
  pub found : CoinRecord
  pub sound : IsSound found
  pub stored : view db (to_string hash) ≡ bytes_of e.wire found

abbrev pub DbIsSound : Env → Database → Type 0
DbIsSound e db = (hash : ℕ) → Holds e db hash

pub empty_record-IsSound : IsSound empty_record
empty_record-IsSound = record { small = omega arith; aligned = tt }

pub new_database-DbIsSound : (e : Env) → DbIsSound e new_database
new_database-DbIsSound e hash = record {
  found = empty_record;
  sound = empty_record-IsSound;
  stored = view-new_database (to_string hash) ∙ sym e.wire.encode-no_coin_record;
}

-- A read of a sound database returns the record that stands there, and no read sees a change.
pub read_record-ok :
    (e : Env) (hash : ℕ) (db : Database) (h : Holds e db hash)
    → read_record e hash db ≡ ok (h.found, (get_safely (to_string hash) db).1)
unfolding read_record
read_record-ok e hash db h =
    rw (get_safely-view (to_string hash) db, h.stored, deserialize-bytes_of e.wire h.found h.sound)

pub get_safely-DbIsSound :
    (e : Env) (key : Bytes) (db : Database) → DbIsSound e db → DbIsSound e (get_safely key db).1
get_safely-DbIsSound e key db h hash = record {
  found = (h hash).found;
  sound = (h hash).sound;
  stored = view-get_safely key db (to_string hash) ∙ (h hash).stored;
}

key_eq : (h j : ℕ) → bytes_beq (to_string h) (to_string j) ≡ (h == j)
key_eq h j = ground (
  arith,
  bytes_beq_iff (to_string h) (to_string j),
  to_string-injective h j,
  ap to_string {x = h} {y = j},
)

-- The record under each hash, after one has been stored.
pub view-put_record :
    (hash : ℕ) (text : Bytes) (db : Database) (j : ℕ)
    → view (put_safely (to_string hash) text db) (to_string j)
      ≡ (if hash == j then text else view db (to_string j))
view-put_record hash text db j =
    view-put_safely (to_string hash) text db (to_string j)
    ∙ ap (λ b. if b then text else view db (to_string j)) (key_eq hash j)

pub put_safely-DbIsSound :
    (e : Env) (hash : ℕ) (r : CoinRecord) (db : Database)
    → IsSound r
    → DbIsSound e db
    → DbIsSound e (put_safely (to_string hash) (bytes_of e.wire r) db)
put_safely-DbIsSound e hash r db s h j = elim (Bool-cases (hash == j)) [
  | inl eq ↦ record {
    found = r;
    sound = s;
    stored = rw (view-put_record hash (bytes_of e.wire r) db j, eq);
  }
  | inr ne ↦ record {
    found = (h j).found;
    sound = (h j).sound;
    stored = rw (view-put_record hash (bytes_of e.wire r) db j, ne) (h j).stored;
  }
]

-- A text that `serialize` has returned may be stored.
pub put_text-DbIsSound :
    (e : Env) (hash : ℕ) (text : Bytes) (db : Database)
    → IsText e.wire text
    → DbIsSound e db
    → DbIsSound e (put_safely (to_string hash) text db)
put_text-DbIsSound e hash text db t h =
    subst (λ s. DbIsSound e (put_safely (to_string hash) s db)) (sym t.text_eq)
      (put_safely-DbIsSound e hash t.content db t.sound h)

pub delete_safely-DbIsSound :
    (e : Env) (hash : ℕ) (db : Database)
    → DbIsSound e db
    → DbIsSound e (delete_safely (to_string hash) db)
delete_safely-DbIsSound e hash db h j = elim (Bool-cases (hash == j)) [
  | inl eq ↦ record {
    found = empty_record;
    sound = empty_record-IsSound;
    stored =
        view-delete_safely (to_string hash) db (to_string j)
        ∙ rw (key_eq hash j, eq) (sym e.wire.encode-no_coin_record);
  }
  | inr ne ↦ record {
    found = (h j).found;
    sound = (h j).sound;
    stored =
        view-delete_safely (to_string hash) db (to_string j) ∙ rw (key_eq hash j, ne) (h j).stored;
  }
]

output_columns-Aligned :
    (i : ℕ) (os : List TransactionOutput)
    → Aligned
        (output_columns i os).utxo
        (output_columns i os).amounts
        (output_columns i os).public_keys
unfolding output_columns
output_columns-Aligned i [] = tt
output_columns-Aligned i (o ∷ os) = output_columns-Aligned (suc i) os

pub output_record-IsSound : (t : Transaction) → IsSound (output_record t)
unfolding output_record
output_record-IsSound t = record {
  small = omega arith;
  aligned = output_columns-Aligned 0 t.transaction_outputs;
}

-- The coin database after one transaction.
abbrev pub with_record : Env → Transaction → CoinDatabase → CoinDatabase
with_record e t cd = record cd {
  database =
      put_safely (to_string (transaction_hash e t)) (bytes_of e.wire (output_record t)) cd.database;
}

unfoldable pub after_one : Env → Transaction → CoinDatabase → CoinDatabase
after_one e t cd = store_to_cache_help e t (with_record e t cd)

store_one-ok :
    (e : Env) (t : Transaction) (cd : CoinDatabase) → store_one e t cd ≡ ok (after_one e t cd)
unfolding store_one after_one
store_one-ok e t cd = rw (serialize-IsSound e.wire _ (output_record-IsSound t))

unfoldable pub after_all : Env → List Transaction → CoinDatabase → CoinDatabase
after_all e [] cd = cd
after_all e (t ∷ ts) cd = after_all e ts (after_one e t cd)

-- Storing transactions always returns.
pub store_transactions-ok :
    (e : Env) (ts : List Transaction) (cd : CoinDatabase)
    → store_transactions_to_main_cache e ts cd ≡ ok (after_all e ts cd)
unfolding store_transactions_to_main_cache after_all
store_transactions-ok e [] cd = refl
store_transactions-ok e (t ∷ ts) cd =
    rw (store_one-ok e t cd) (store_transactions-ok e ts (after_one e t cd))

after_one-DbIsSound :
    (e : Env) (t : Transaction) (cd : CoinDatabase)
    → DbIsSound e cd.database
    → DbIsSound e (after_one e t cd).database
unfolding after_one store_to_cache_help
after_one-DbIsSound e t cd h =
    put_safely-DbIsSound e (transaction_hash e t) _ cd.database (output_record-IsSound t) h

-- Storing transactions keeps the invariant.
pub after_all-DbIsSound :
    (e : Env) (ts : List Transaction) (cd : CoinDatabase)
    → DbIsSound e cd.database
    → DbIsSound e (after_all e ts cd).database
unfolding after_all
after_all-DbIsSound e [] cd h = h
after_all-DbIsSound e (t ∷ ts) cd h = after_all-DbIsSound e ts _ (after_one-DbIsSound e t cd h)
