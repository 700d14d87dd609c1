-- ===== src/BlockInfo/Laws.antt =====
-- The block records that a client sees, after a record has been stored.
use rath_db.Common.{
  ℕ, ◌≡◌, ap, inl, inr, Option, none, some, [], bytes_beq, bytes_beq_iff, if◌then◌else◌, Bool-cases,
  arith, ◌==◌,
}
use rath_db.Proto.{Wire}
use rath_db.Text.{to_string}
use rath_db.Text.RoundTrip.{to_string-injective}
use rath_db.Db.Laws.{view, view-new_database, view-put_safely, get_safely-view, view-get_safely}
use rath_db.BlockInfo.{
  BlockInfoDatabase, new_block_info_database, store_block_record, read_record, get_block_record,
}
use rath_db.BlockInfo.Record.{
  BlockRecord, serialize, RecordInRange, deserialize-serialize_block_record, serialize-ne-empty,
}

-- What `get_block_record` returns for a hash.
unfoldable pub find_record : Wire → BlockInfoDatabase → ℕ → Option BlockRecord
unfolding read_record
find_record w db hash = read_record w (view db.database (to_string hash))

pub get_block_record-find :
    (w : Wire) (hash : ℕ) (db : BlockInfoDatabase)
    → (get_block_record w hash db).0 ≡ find_record w db hash
unfolding get_block_record find_record
get_block_record-find w hash db = ap (read_record w) (get_safely-view (to_string hash) db.database)

-- A read changes what no hash is found under.
pub find-get_block_record :
    (w : Wire) (hash : ℕ) (db : BlockInfoDatabase) (j : ℕ)
    → find_record w (get_block_record w hash db).1 j ≡ find_record w db j
unfolding get_block_record find_record
find-get_block_record w hash db j =
    ap (read_record w) (view-get_safely (to_string hash) db.database (to_string j))

key_eq : (h j : ℕ) → bytes_beq (to_string h) (to_string j) ≡ (h == j)
key_eq h j = ground (
  arith,
  bytes_beq_iff (to_string h) (to_string j),
  to_string-injective h j,
  ap to_string {x = h} {y = j},
)

read-serialize :
    (w : Wire) (r : BlockRecord) → RecordInRange r → read_record w (serialize w r) ≡ some r
unfolding read_record
read-serialize w r h = elim (Bool-cases (bytes_beq (serialize w r) [])) [
  | inl e ↦ absurd (serialize-ne-empty w r ((bytes_beq_iff _ _).0 e))
  | inr e ↦ rw e (ap some (deserialize-serialize_block_record w r h))
]

-- After a block record in range has been stored under a hash, that hash is found with this record,
-- and every other hash is found with what it was found with before.
pub find-store_block_record :
    (w : Wire) (hash : ℕ) (r : BlockRecord) (db : BlockInfoDatabase) (j : ℕ)
    → RecordInRange r
    → find_record w (store_block_record w hash r db) j
      ≡ (if hash == j then some r else find_record w db j)
unfolding find_record store_block_record
find-store_block_record w hash r db j h =
    rw (view-put_safely (to_string hash) (serialize w r) db.database (to_string j), key_eq hash j)
      (elim (Bool-cases (hash == j)) [ inl e ↦ rw e (read-serialize w r h) | inr e ↦ rw e ])

pub find-new : (w : Wire) (j : ℕ) → find_record w new_block_info_database j ≡ none
unfolding find_record new_block_info_database
find-new w j = rw (view-new_database (to_string j))
