-- ===== src/Coins/Database/Flush.antt =====
-- `CoinDatabase::flush_main_cache`: the loop ends only on an empty cache.
use rath_db.Common.{ℕ, zero, suc, ◌≡◌, ◌≢◌, [], ◌∷◌, Bytes, ok, >>=-eq-ok}
use rath_db.Common.Map.{Map}
use rath_db.Env.{Env}
use rath_db.Db.{Database}
use rath_db.Coins.Record.{Coin}
use rath_db.Coins.State.{CoinDatabase}
use rath_db.Coins.Database.{flush_round, flush_loop, flush_main_cache}

flush_loop-never :
    (e : Env) (fuel : ℕ) (key : Bytes) (coin : Coin) (cache : Map Bytes Coin) (db db' : Database)
    → flush_loop e fuel ((key, coin) ∷ cache) db ≢ ok db'
unfolding flush_loop
flush_loop-never e zero key coin cache db db' h = cc
flush_loop-never e (suc fuel) key coin cache db db' h =
    let (db'', _, r) = >>=-eq-ok (flush_round e key coin db) _ h in
    flush_loop-never e fuel key coin cache db'' db' r

-- The flush of a cache that holds an entry returns with no amount of fuel.
pub flush_main_cache-never :
    (e : Env) (fuel : ℕ) (cd cd' : CoinDatabase) (key : Bytes) (coin : Coin)
    (cache : Map Bytes Coin)
    → cd.main_cache ≡ (key, coin) ∷ cache
    → flush_main_cache e fuel cd ≢ ok cd'
unfolding flush_main_cache
flush_main_cache-never e fuel cd cd' key coin cache h k =
    let (db, r, _) = >>=-eq-ok (flush_loop e fuel cd.main_cache cd.database) _ k in
    flush_loop-never e fuel key coin cache cd.database db (rw h at r)

-- On an empty cache the flush returns at once, with the cache size reset.
pub flush_main_cache-empty :
    (e : Env) (fuel : ℕ) (cd : CoinDatabase)
    → cd.main_cache ≡ []
    → flush_main_cache e fuel cd ≡ ok (record cd { main_cache = []; main_cache_size = 0 })
unfolding flush_main_cache flush_loop
flush_main_cache-empty e fuel cd h = rw h
