-- ===== src/Env.antt =====
-- What the components of the database take from outside: the byte format of the messages, the hash
-- function of the crypto component, which they call as `RathCrypto::hash`, and what an array on the
-- stack holds before it is written.
use rath_db.Common.{ℕ, Bytes}
use rath_db.Proto.{Wire}

pub record Env : Type 0 where
  pub wire : Wire
  pub hash : Bytes → ℕ
  pub uninit : ℕ → ℕ
