-- ===== src/Examples/Records.antt =====
-- The round trips, tried on concrete values.
use rath_db.Common.{ℕ, ◌≡◌, refl, ok, ◌>>=◌, arith, some, if◌then◌else◌, ◌==◌, ◌%◌}
use rath_db.Proto.Sample.{sample_wire}
use rath_db.Primitives.Block
use rath_db.Primitives.RoundTrip.{deserialize-serialize_block}
use rath_db.Coins.Undo as CoinsUndo
use rath_db.Coins.Record as CoinsRecord
use rath_db.Coins.Locator
use rath_db.Coins.Locator.{make_locator}
use rath_db.BlockInfo.Record as BlockInfoRecord
use rath_db.BlockInfo.{new_block_info_database, store_block_record}
use rath_db.BlockInfo.Laws.{find_record, find-store_block_record}
use rath_db.Text.{to_string, stoul}
use rath_db.Text.RoundTrip.{stoul-to_string}
use rath_db.Examples.Data.{small_block, small_undo_block, coin_record, block_record}

deserialize-serialize_block_example :
    Block.deserialize sample_wire (Block.serialize sample_wire small_block) ≡ small_block
deserialize-serialize_block_example =
    deserialize-serialize_block sample_wire small_block
      (omega arith, ((omega arith, (omega arith, tt)), tt))

deserialize-serialize_undo_block_example :
    (CoinsUndo.serialize sample_wire small_undo_block >>= CoinsUndo.deserialize sample_wire)
    ≡ ok small_undo_block
deserialize-serialize_undo_block_example =
    CoinsUndo.deserialize-serialize_undo_block sample_wire small_undo_block
      (record { small = omega arith; aligned = tt }, tt)

deserialize-serialize_coin_record_example :
    (CoinsRecord.serialize sample_wire coin_record >>= CoinsRecord.deserialize sample_wire)
    ≡ ok coin_record
deserialize-serialize_coin_record_example =
    CoinsRecord.deserialize-serialize_coin_record sample_wire coin_record
      (record { small = omega arith; aligned = tt })

deserialize-serialize_locator_example :
    Locator.deserialize (Locator.serialize (make_locator 1234 7)) ≡ ok (make_locator 1234 7)
deserialize-serialize_locator_example =
    Locator.deserialize-serialize_locator (make_locator 1234 7) (omega arith) (omega arith)

serialize_from_construct-injective_example :
    (◌≡◌ {A = ℕ} 12 12) × (◌≡◌ {A = ℕ} (300 % 256) (44 % 256))
serialize_from_construct-injective_example =
    Locator.serialize_from_construct-injective 12 300 12 44
      (unfold Locator.serialize_from_construct in refl)

stoul-to_string_example : stoul (to_string 1203) ≡ some 1203
stoul-to_string_example = stoul-to_string 1203

find-store_block_record_example :
    find_record sample_wire
      (store_block_record sample_wire 9 block_record new_block_info_database)
      9
    ≡ (if 9 == 9 then some block_record else find_record sample_wire new_block_info_database 9)
find-store_block_record_example =
    find-store_block_record sample_wire 9 block_record new_block_info_database 9 (record {
      header = omega arith;
      block_start = omega arith;
      block_end = omega arith;
      undo_start = omega arith;
      undo_end = omega arith;
    })

deserialize-serialize_block_record_example :
    BlockInfoRecord.deserialize sample_wire (BlockInfoRecord.serialize sample_wire block_record)
    ≡ block_record
deserialize-serialize_block_record_example =
    BlockInfoRecord.deserialize-serialize_block_record sample_wire block_record (record {
      header = omega arith;
      block_start = omega arith;
      block_end = omega arith;
      undo_start = omega arith;
      undo_end = omega arith;
    })
