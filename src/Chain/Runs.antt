-- ===== src/Chain/Runs.antt =====
-- Runs of the chain: what can become of it by blocks and transactions in any order.
use rath_db.Common.{ok_inj, ℕ, ◌≡◌, sym, subst, ◌∙◌, Bool, List, ok}
use rath_db.Env.{Env}
use rath_db.Primitives.Transaction.{Transaction}
use rath_db.Primitives.Block.{Block}
use rath_db.Writer.FileSystem.{Disk}
use rath_db.Coins.State.{CoinDatabase}
use rath_db.Coins.Validation.{validate_block}
use rath_db.Coins.Database.Validity.{
  CoinsAreSound, with_database, with_database-CoinsAreSound, validate_block-total,
}
use rath_db.Chain.{Chain}
use rath_db.Chain.Handle.{new_chain, handle_block, handle_transaction}
use rath_db.Chain.Handle.Sound.{
  ChainIsSound, handle_block-ChainIsSound, handle_transaction-ChainIsSound,
}
use rath_db.Chain.Handle.Returns.{new_chain-returns}

-- One call of the chain's interface that completes.
pub data Step (e : Env) (c c' : Chain) : Type 0 where
  block : (fuel : ℕ) (b : Block) → handle_block e fuel b c ≡ ok c' → Step e c c'
  transaction : (t : Transaction) → handle_transaction e t c ≡ ok c' → Step e c c'

-- From the constructor on.
pub data Reach (e : Env) : Chain → Type 0 where
  constructed :
      {c : Chain} (fuel branching : ℕ) (disk : Disk)
      → new_chain e fuel branching disk ≡ ok c
      → Reach e c
  next : {c c' : Chain} → Reach e c → Step e c c' → Reach e c'

Step-ChainIsSound : (e : Env) (c c' : Chain) → Step e c c' → ChainIsSound e c → ChainIsSound e c'
Step-ChainIsSound e c c' (block fuel b r) h = (handle_block-ChainIsSound e fuel b c h).at c' r
Step-ChainIsSound e c c' (transaction t r) h = (handle_transaction-ChainIsSound e t c).at c' r

-- In every chain that the constructor and calls of `handle_block` and `handle_transaction` that
-- complete lead to, forks included, the coin database is sound: under every transaction hash stands
-- a record whose three vectors are in step, and no coin of the cache is marked as spent.
pub Reach-ChainIsSound : (e : Env) {c : Chain} → Reach e c → ChainIsSound e c
Reach-ChainIsSound e (constructed fuel branching disk r) =
    let (c, r', ends) = new_chain-returns e fuel branching disk in
    subst (ChainIsSound e) (ok_inj (sym r' ∙ r)) ends.sound_now
Reach-ChainIsSound e (next {c} {c'} run step) =
    Step-ChainIsSound e c c' step (Reach-ChainIsSound e run)

-- In every chain that is reached from the constructor by calls that complete, the validation of any
-- transactions returns a verdict and leaves the coin database sound.
pub validate_block-Reach :
    (e : Env) (ts : List Transaction) {c : Chain}
    → Reach e c
    → (valid : Bool) × (cd : CoinDatabase) × (validate_block e ts c.coin_database ≡ ok (valid, cd))
      × CoinsAreSound e cd
validate_block-Reach e ts {c} run =
    let h = Reach-ChainIsSound e run in
    let (valid, db, r, d) = validate_block-total e ts c.coin_database h in
    (
      valid,
      with_database c.coin_database db,
      r,
      with_database-CoinsAreSound e c.coin_database db h d,
    )
