-- ===== src/BlockInfo.antt =====
-- core/include/block_info_database and core/src/block_info_database: block records by block hash.
pub mod Record
pub mod Laws
use rath_db.Common.{ℕ, Bytes, [], Bool, true, false, Option, none, some, bytes_beq, if◌then◌else◌}
use rath_db.Proto.{Wire}
use rath_db.Text.{to_string}
use rath_db.Db.{Database, new_database, put_safely, get_safely}
use Record.{BlockRecord}
use Record

pub record BlockInfoDatabase : Type 0 where
  pub database : Database

unfoldable pub new_block_info_database : BlockInfoDatabase
new_block_info_database = record { database = new_database }

unfoldable pub store_block_record : Wire → ℕ → BlockRecord → BlockInfoDatabase → BlockInfoDatabase
store_block_record w hash r db = record db {
  database = put_safely (to_string hash) (Record.serialize w r) db.database;
}

-- `none` is the null pointer, which stands for the empty string.
read_record : Wire → Bytes → Option BlockRecord
read_record w serial = if bytes_beq serial [] then none else some (Record.deserialize w serial)

unfoldable pub get_block_record :
    Wire → ℕ → BlockInfoDatabase → Option BlockRecord × BlockInfoDatabase
unfolding read_record
get_block_record w block_hash db =
    let (serial, database') = get_safely (to_string block_hash) db.database in
    (read_record w serial, record db { database = database' })
