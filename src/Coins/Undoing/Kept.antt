-- ===== src/Coins/Undoing/Kept.antt =====
-- Taking blocks back keeps the coin database sound.
use rath_db.Common.{
  ℕ, suc, refl, List, [], ◌∷◌, Bytes, false, Option, none, some, inl, inr, Bool-cases, bytes_beq,
  bytes_eq, Ensures, Ensures-ok, Ensures-bind, Ensures-any, arith,
}
use rath_db.Common.Map.{Map, lookup, erase, lookup-erase}
use rath_db.Env.{Env}
use rath_db.Text.{to_string}
use rath_db.Db.{get, get_safely, put_safely, delete_safely}
use rath_db.Primitives.Output.{TransactionOutput}
use rath_db.Primitives.Transaction.{Transaction}
use rath_db.Primitives.Block.{Block}
use rath_db.Coins.Record.{Coin, make_coin_record, serialize-IsText}
use rath_db.Coins.Record
use rath_db.Coins.Undo.{UndoCoinRecord, UndoBlock}
use rath_db.Coins.Locator.{serialize_from_construct}
use rath_db.Coins.State.{CoinDatabase, transaction_hash}
use rath_db.Coins.Database.Sound.{
  read_record-ok, get_safely-DbIsSound, put_text-DbIsSound, delete_safely-DbIsSound,
}
use rath_db.Coins.Database.Validity.{NoneSpent, CoinsAreSound, with_database}
use rath_db.Coins.Database.Kept.{insert-NoneSpent}
use rath_db.Coins.Undoing.{
  find_index, insert_at, front, rest_of, add_to_record, add_one, add_each, add_utxo, mark_unspent,
  erase_outputs, remove_utxo, undo_records, undo_coins,
}

add_to_record-CoinsAreSound :
    (e : Env) (hash utxo amount key : ℕ) (cd : CoinDatabase)
    → CoinsAreSound e cd
    → Ensures (CoinsAreSound e) (add_to_record e hash utxo amount key cd)
unfolding add_to_record
add_to_record-CoinsAreSound e hash utxo amount key cd h =
    let r = (h.records hash).found in
    let db = (get_safely (to_string hash) cd.database).1 in
    rw (read_record-ok e hash cd.database (h.records hash)) (
      Ensures-bind _ (find_index utxo r.utxo) (Ensures-any _) λ index _.
        Ensures-bind _ (insert_at index utxo r.utxo) (Ensures-any _) λ us _.
          Ensures-bind _ (insert_at index amount r.amounts) (Ensures-any _) λ ams _.
            Ensures-bind _ (insert_at index key r.public_keys) (Ensures-any _) λ ks _.
              Ensures-bind _ (Record.serialize e.wire (make_coin_record r.version us ams ks))
                (serialize-IsText e.wire (make_coin_record r.version us ams ks) (omega arith))
                λ text t.
                  Ensures-ok (CoinsAreSound e)
                    (with_database cd
                      (put_safely (to_string hash) text (delete_safely (to_string hash) db)))
                    (record {
                      records =
                          put_text-DbIsSound e hash text (delete_safely (to_string hash) db) t (
                            delete_safely-DbIsSound e hash db
                              (get_safely-DbIsSound e (to_string hash) cd.database h.records));
                      none_spent = h.none_spent;
                    }))

add_one-CoinsAreSound :
    (e : Env) (hash : ℕ) (o : Option Coin) (us : List ℕ) (amount : ℕ) (ks : List ℕ)
    (cd : CoinDatabase)
    → CoinsAreSound e cd
    → Ensures (CoinsAreSound e) (add_one e hash o us amount ks cd)
unfolding add_one mark_unspent
add_one-CoinsAreSound e hash (some coin) us amount ks cd h =
    Ensures-ok (CoinsAreSound e) (mark_unspent (serialize_from_construct hash amount) coin cd)
      (record {
        records = h.records;
        none_spent =
            insert-NoneSpent (serialize_from_construct hash amount)
              (record coin { is_spent = false }) cd.main_cache refl h.none_spent;
      })
add_one-CoinsAreSound e hash none us amount ks cd h =
    Ensures-bind _ (front us) (Ensures-any _) λ utxo _.
      Ensures-bind _ (front ks) (Ensures-any _)
        λ key _. add_to_record-CoinsAreSound e hash utxo amount key cd h

add_each-CoinsAreSound :
    (e : Env) (hash : ℕ) (us ams ks : List ℕ) (cd : CoinDatabase)
    → CoinsAreSound e cd
    → Ensures (CoinsAreSound e) (add_each e hash us ams ks cd)
unfolding add_each
add_each-CoinsAreSound e hash us [] ks cd h = Ensures-ok (CoinsAreSound e) cd h
add_each-CoinsAreSound e hash us (amount ∷ ams) ks cd h =
    Ensures-bind _
      (add_one e hash (lookup (serialize_from_construct hash amount) cd.main_cache) us amount ks cd)
      (add_one-CoinsAreSound e hash (lookup (serialize_from_construct hash amount) cd.main_cache) us
        amount ks cd h)
      λ cd' h'. add_each-CoinsAreSound e hash (rest_of us) ams (rest_of ks) cd' h'

add_utxo-CoinsAreSound :
    (e : Env) (r : UndoCoinRecord) (hash : ℕ) (cd : CoinDatabase)
    → CoinsAreSound e cd
    → Ensures (CoinsAreSound e) (add_utxo e r hash cd)
unfolding add_utxo get get_safely
add_utxo-CoinsAreSound e r hash cd h =
    let db = (get (to_string hash) cd.database).1 in
    let d = get_safely-DbIsSound e (to_string hash) cd.database h.records in
    let fresh = make_coin_record r.version r.utxo r.amounts r.public_keys in
    elim (Bool-cases (bytes_beq (get (to_string hash) cd.database).0 [])) [
      | inl missing ↦ rw missing (
          Ensures-bind _ (Record.serialize e.wire fresh)
            (serialize-IsText e.wire fresh (omega arith))
            λ text t.
              Ensures-ok (CoinsAreSound e) (with_database cd (put_safely (to_string hash) text db))
                (record {
                  records = put_text-DbIsSound e hash text db t d;
                  none_spent = h.none_spent;
                }))
      | inr there ↦ rw there (
          add_each-CoinsAreSound e hash r.utxo r.amounts r.public_keys (with_database cd db)
            (record { records = d; none_spent = h.none_spent }))
    ]

erase_outputs-NoneSpent :
    (hash i : ℕ) (os : List TransactionOutput) (cache : Map Bytes Coin)
    → NoneSpent cache
    → NoneSpent (erase_outputs hash i os cache)
unfolding erase_outputs
erase_outputs-NoneSpent hash i [] cache h = h
erase_outputs-NoneSpent hash i (o ∷ os) cache h =
    erase_outputs-NoneSpent hash (suc i) os (erase (serialize_from_construct hash i) cache)
      λ k c found. ground (arith, h k c, lookup-erase (serialize_from_construct hash i) k cache)

remove_utxo-CoinsAreSound :
    (e : Env) (t : Transaction) (cd : CoinDatabase)
    → CoinsAreSound e cd
    → CoinsAreSound e (remove_utxo e t cd)
unfolding remove_utxo
remove_utxo-CoinsAreSound e t cd h = record {
  records = delete_safely-DbIsSound e (transaction_hash e t) cd.database h.records;
  none_spent =
      erase_outputs-NoneSpent (transaction_hash e t) 0 t.transaction_outputs cd.main_cache
        h.none_spent;
}

undo_records-CoinsAreSound :
    (e : Env) (rs : List UndoCoinRecord) (hs : List ℕ) (ts : List Transaction) (cd : CoinDatabase)
    → CoinsAreSound e cd
    → Ensures (CoinsAreSound e) (undo_records e rs hs ts cd)
unfolding undo_records
undo_records-CoinsAreSound e [] hs ts cd h = Ensures-ok (CoinsAreSound e) cd h
undo_records-CoinsAreSound e (r ∷ rs) [] ts cd h = record { at = λ c k. cc }
undo_records-CoinsAreSound e (r ∷ rs) (hash ∷ hs) [] cd h = record { at = λ c k. cc }
undo_records-CoinsAreSound e (r ∷ rs) (hash ∷ hs) (t ∷ ts) cd h =
    Ensures-bind _ (add_utxo e r hash cd) (add_utxo-CoinsAreSound e r hash cd h) λ cd' h'.
      undo_records-CoinsAreSound e rs hs ts (remove_utxo e t cd')
        (remove_utxo-CoinsAreSound e t cd' h')

pub undo_coins-CoinsAreSound :
    (e : Env) (us : List UndoBlock) (bs : List Block) (cd : CoinDatabase)
    → CoinsAreSound e cd
    → Ensures (CoinsAreSound e) (undo_coins e us bs cd)
unfolding undo_coins
undo_coins-CoinsAreSound e [] bs cd h = Ensures-ok (CoinsAreSound e) cd h
undo_coins-CoinsAreSound e (u ∷ us) [] cd h = record { at = λ c k. cc }
undo_coins-CoinsAreSound e (u ∷ us) (b ∷ bs) cd h =
    Ensures-bind _ (undo_records e u.undo_coin_records u.transaction_hashes b.transactions cd)
      (undo_records-CoinsAreSound e u.undo_coin_records u.transaction_hashes b.transactions cd h)
      λ cd' h'. undo_coins-CoinsAreSound e us bs cd' h'
