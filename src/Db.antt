-- ===== src/Db.antt =====
-- core/include/db/db.h and core/src/db/db.cpp: the string-to-string store. A method that writes
-- returns the new store; `_store[key]` of a missing key adds the empty string, also in the reads.
-- The mutex makes each `_safely` method one step, which is what a function is here.
pub mod Laws
use rath_db.Common.{List, [], ◌∷◌, ◌++◌, Bytes, Option, none, some, bytes_eq}
use rath_db.Common.Map.{Map, lookup, insert, erase}

pub data HashTableWriteOperation : Type 0 where
  delete put : HashTableWriteOperation

pub record BatchOperation : Type 0 where
  pub operation : HashTableWriteOperation
  pub key : Bytes
  pub value : Bytes

-- The constructor.
abbrev pub make_batch_operation : HashTableWriteOperation → Bytes → Bytes → BatchOperation
make_batch_operation op k v = record { operation = op; key = k; value = v }

-- The operations in the order in which they were pushed.
pub record Batch : Type 0 where
  pub batch : List BatchOperation

-- The constructor.
abbrev pub empty_batch : Batch
empty_batch = record { batch = [] }

unfoldable pub batch_delete : Bytes → Batch → Batch
batch_delete key b = record { batch = b.batch ++ make_batch_operation delete key [] ∷ [] }

unfoldable pub batch_put : Bytes → Bytes → Batch → Batch
batch_put key value b = record { batch = b.batch ++ make_batch_operation put key value ∷ [] }

pub record Database : Type 0 where
  pub store : Map Bytes Bytes

unfoldable pub new_database : Database
new_database = record { store = [] }

-- `_store[key]` with a value of the entry: a missing key is added with the empty string.
at_key : Bytes → Option Bytes → Database → Bytes × Database
at_key key none db = ([], record { store = insert key [] db.store })
at_key key (some value) db = (value, db)

unfoldable pub get : Bytes → Database → Bytes × Database
unfolding at_key
get key db = at_key key (lookup key db.store) db

unfoldable pub get_safely : Bytes → Database → Bytes × Database
unfolding at_key
get_safely key db = at_key key (lookup key db.store) db

apply_operation : HashTableWriteOperation → Bytes → Bytes → Database → Database
apply_operation delete key value db = record { store = erase key db.store }
apply_operation put key value db = record { store = insert key value db.store }

write_all : List BatchOperation → Database → Database
unfolding apply_operation
write_all [] db = db
write_all (o ∷ os) db = write_all os (apply_operation o.operation o.key o.value db)

unfoldable pub batch_write_safely : Batch → Database → Database
unfolding write_all
batch_write_safely b db = write_all b.batch db

unfoldable pub batch_read : List Bytes → Database → List Bytes × Database
unfolding get
batch_read [] db = ([], db)
batch_read (k ∷ ks) db =
    let (v, db') = get k db in let (vs, db'') = batch_read ks db' in (v ∷ vs, db'')

unfoldable pub batch_read_safely : List Bytes → Database → List Bytes × Database
unfolding get
batch_read_safely [] db = ([], db)
batch_read_safely (k ∷ ks) db =
    let (v, db') = get k db in let (vs, db'') = batch_read_safely ks db' in (v ∷ vs, db'')

unfoldable pub put_safely : Bytes → Bytes → Database → Database
put_safely key value db = record { store = insert key value db.store }

unfoldable pub delete_safely : Bytes → Database → Database
delete_safely key db = record { store = erase key db.store }
