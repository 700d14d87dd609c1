-- ===== src/Db/Laws.antt =====
-- The store as a total function from keys to values, with the empty string for a missing key:
-- this is all that its clients can see.
use rath_db.Common.{
  ◌≡◌, refl, ap, ◌∙◌, List, [], ◌∷◌, Bytes, Option, none, some, if◌then◌else◌, bytes_beq,
  bytes_beq_iff, bytes_eq, arith,
}
use rath_db.Common.Map.{lookup, lookup-insert, lookup-erase}
use rath_db.Db.{
  HashTableWriteOperation, delete, put, BatchOperation, Batch, Database, new_database, at_key, get,
  get_safely, apply_operation, write_all, batch_write_safely, put_safely, delete_safely,
}

abbrev pub or_empty : Option Bytes → Bytes
or_empty none = []
or_empty (some v) = v

-- The value that a read of the key returns.
unfoldable pub view : Database → Bytes → Bytes
view db k = or_empty (lookup k db.store)

pub view-new_database : (k : Bytes) → view new_database k ≡ []
unfolding view new_database lookup
view-new_database k = refl

at_key-view :
    (k : Bytes) (o : Option Bytes) (db : Database)
    → lookup k db.store ≡ o
    → (at_key k o db).0 ≡ view db k
unfolding at_key view
at_key-view k none db e = rw e
at_key-view k (some v) db e = rw e

view-at_key :
    (k : Bytes) (o : Option Bytes) (db : Database) (j : Bytes)
    → lookup k db.store ≡ o
    → view (at_key k o db).1 j ≡ view db j
unfolding at_key view
view-at_key k none db j e = ground (
  arith,
  bytes_beq_iff k j,
  lookup-insert k j [] db.store,
  ap (λ k. lookup k db.store) {x = k} {y = j},
)
view-at_key k (some v) db j e = refl

pub get-view : (k : Bytes) (db : Database) → (get k db).0 ≡ view db k
unfolding get
get-view k db = at_key-view k (lookup k db.store) db refl

pub view-get : (k : Bytes) (db : Database) (j : Bytes) → view (get k db).1 j ≡ view db j
unfolding get
view-get k db j = view-at_key k (lookup k db.store) db j refl

pub get_safely-view : (k : Bytes) (db : Database) → (get_safely k db).0 ≡ view db k
unfolding get_safely
get_safely-view k db = at_key-view k (lookup k db.store) db refl

pub view-get_safely :
    (k : Bytes) (db : Database) (j : Bytes) → view (get_safely k db).1 j ≡ view db j
unfolding get_safely
view-get_safely k db j = view-at_key k (lookup k db.store) db j refl

pub view-put_safely :
    (k v : Bytes) (db : Database) (j : Bytes)
    → view (put_safely k v db) j ≡ (if bytes_beq k j then v else view db j)
unfolding view put_safely
view-put_safely k v db j = rw (lookup-insert k j v db.store) (ground arith)

pub view-delete_safely :
    (k : Bytes) (db : Database) (j : Bytes)
    → view (delete_safely k db) j ≡ (if bytes_beq k j then [] else view db j)
unfolding view delete_safely
view-delete_safely k db j = rw (lookup-erase k j db.store) (ground arith)

-- What one operation of a batch makes of the value of a key.
abbrev pub effect : BatchOperation → Bytes → Bytes → Bytes
effect o k old =
    if bytes_beq o.key k then (elim o.operation [ delete ↦ [] | put ↦ o.value ]) else old

-- The last operation of a batch on the key decides its value.
abbrev pub effects : List BatchOperation → Bytes → Bytes → Bytes
effects [] k old = old
effects (o ∷ os) k old = effects os k (effect o k old)

view-apply_operation :
    (op : HashTableWriteOperation) (key value : Bytes) (db : Database) (k : Bytes)
    → view (apply_operation op key value db) k
      ≡ effect (record { operation = op; key = key; value = value }) k (view db k)
unfolding view apply_operation
view-apply_operation delete key value db k = rw (lookup-erase key k db.store) (ground arith)
view-apply_operation put key value db k = rw (lookup-insert key k value db.store) (ground arith)

view-write_all :
    (os : List BatchOperation) (db : Database) (k : Bytes)
    → view (write_all os db) k ≡ effects os k (view db k)
unfolding write_all
view-write_all [] db k = refl
view-write_all (o ∷ os) db k =
    view-write_all os (apply_operation o.operation o.key o.value db) k
    ∙ ap (effects os k) (view-apply_operation o.operation o.key o.value db k)

-- After a batch has been written, the value of every key is what the operations of the batch, in
-- their order, make of its value before.
pub view-batch_write_safely :
    (b : Batch) (db : Database) (k : Bytes)
    → view (batch_write_safely b db) k ≡ effects b.batch k (view db k)
unfolding batch_write_safely
view-batch_write_safely b db k = view-write_all b.batch db k
