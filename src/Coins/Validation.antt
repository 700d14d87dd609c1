-- ===== src/Coins/Validation.antt =====
-- The methods of `CoinDatabase` that validate transactions and blocks, and that look up what an input
-- spends. A method of C++ type `bool` whose control can run off its end returns an `Option Bool`,
-- `none` where no `return` was reached: the caller that branches on such a value has undefined
-- behaviour.
use rath_db.Common.{
  ℕ, Bool, true, false, List, [], ◌∷◌, Option, none, some, ◌==◌, ◌||◌, if◌then◌else◌, nat_eq,
  bytes_eq, Outcome, ok, undefined, ◌>>=◌,
}
use rath_db.Common.Map.{lookup}
use rath_db.Env.{Env}
use rath_db.Primitives.Input.{TransactionInput}
use rath_db.Primitives.Transaction.{Transaction}
use rath_db.Coins.Record.{Coin}
use rath_db.Coins.State.{CoinDatabase, read_record, input_locator}

-- `std::find` over the indexes, as a test.
unfoldable pub mem_index : ℕ → List ℕ → Bool
mem_index i [] = false
mem_index i (u ∷ us) = u == i || mem_index i us

unfoldable pub validate_record :
    Env → TransactionInput → CoinDatabase → Outcome (Option Bool × CoinDatabase)
unfolding mem_index
validate_record e t cd = do
  found ← read_record e t.reference_transaction_hash cd.database
  ok (some (mem_index t.utxo_index found.0.utxo), record cd { database = found.1 })

unfoldable pub validate_found :
    Env → TransactionInput → Option Coin → CoinDatabase → Outcome (Option Bool × CoinDatabase)
unfolding validate_record
validate_found e t (some coin) cd = ok (if coin.is_spent then none else some true, cd)
validate_found e t none cd = validate_record e t cd

-- A coin in the cache that is spent reaches no `return`.
unfoldable pub validate_transaction_input :
    Env → TransactionInput → CoinDatabase → Outcome (Option Bool × CoinDatabase)
unfolding validate_found
validate_transaction_input e t cd = validate_found e t (lookup (input_locator t) cd.main_cache) cd

-- The branch on a result.
unfoldable pub branch : Option Bool → Outcome Bool
branch none = undefined
branch (some b) = ok b

unfoldable pub validate_inputs :
    Env → List TransactionInput → CoinDatabase → Outcome (Bool × CoinDatabase)
unfolding branch
validate_inputs e [] cd = ok (true, cd)
validate_inputs e (t ∷ ts) cd = do
  result ← validate_transaction_input e t cd
  valid ← branch result.0
  let rest = validate_inputs e ts result.1
  if valid then rest else ok (false, result.1)

unfoldable pub validate_transaction :
    Env → Transaction → CoinDatabase → Outcome (Bool × CoinDatabase)
unfolding validate_inputs
validate_transaction e t cd = elim t.transaction_inputs [
  | [] ↦ ok (false, cd)
  | i ∷ is ↦ validate_inputs e (i ∷ is) cd
]

unfoldable pub validate_all : Env → List Transaction → CoinDatabase → Outcome (Bool × CoinDatabase)
validate_all e [] cd = ok (true, cd)
validate_all e (t ∷ ts) cd = do
  result ← validate_transaction e t cd
  let rest = validate_all e ts result.1
  if result.0 then rest else ok (false, result.1)

unfoldable pub validate_block :
    Env → List Transaction → CoinDatabase → Outcome (Bool × CoinDatabase)
unfolding validate_all
validate_block e [] cd = ok (false, cd)
validate_block e (t ∷ ts) cd = validate_all e (t ∷ ts) cd

-- The search for the index, and the amount and the key at its position.
unfoldable pub match_utxo : ℕ → List ℕ → List ℕ → List ℕ → Outcome (ℕ × ℕ)
match_utxo i [] ams ks = ok (0, 0)
match_utxo i (u ∷ us) (a ∷ ams) (k ∷ ks) =
    let rest = match_utxo i us ams ks in if u == i then ok (a, k) else rest
match_utxo i (u ∷ us) ams ks = undefined

unfoldable pub match_found :
    Env → TransactionInput → Option Coin → CoinDatabase → Outcome ((ℕ × ℕ) × CoinDatabase)
unfolding match_utxo
match_found e t (some coin) cd =
    ok ((coin.transaction_output.amount, coin.transaction_output.public_key), cd)
match_found e t none cd = do
  found ← read_record e t.reference_transaction_hash cd.database
  pair ← match_utxo t.utxo_index found.0.utxo found.0.amounts found.0.public_keys
  ok (pair, record cd { database = found.1 })

unfoldable pub return_matching_utxo :
    Env → TransactionInput → CoinDatabase → Outcome ((ℕ × ℕ) × CoinDatabase)
unfolding match_found
return_matching_utxo e t cd = match_found e t (lookup (input_locator t) cd.main_cache) cd
