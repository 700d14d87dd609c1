-- ===== src/Primitives/RoundTrip.antt =====
-- Serialization of the primitives and the copies of them, for values in the range of their types.
use rath_db.Common.{◌<◌, ◌≡◌, refl, ap, ◌∙◌, List, [], ◌∷◌, map, All, arith}
use rath_db.Proto.{Wire}
use rath_db.Primitives.Input
use rath_db.Primitives.Input.{TransactionInput}
use rath_db.Primitives.Output
use rath_db.Primitives.Output.{TransactionOutput}
use rath_db.Primitives.Transaction
use rath_db.Primitives.Transaction.{Transaction}
use rath_db.Primitives.Header
use rath_db.Primitives.Header.{BlockHeader}
use rath_db.Primitives.Block
use rath_db.Primitives.Block.{Block}

-- The fields of type `uint8_t` are below 2 ^ 8.
abbrev pub InputInRange : TransactionInput → Type 0
InputInRange t = t.utxo_index < 256

abbrev pub TransactionInRange : Transaction → Type 0
TransactionInRange t = (t.version < 256) × All InputInRange t.transaction_inputs

abbrev pub HeaderInRange : BlockHeader → Type 0
HeaderInRange h = h.version < 256

abbrev pub BlockInRange : Block → Type 0
BlockInRange b = HeaderInRange b.block_header × All TransactionInRange b.transactions

pub map-eq_self {ℓ κ} :
    {A : Type ℓ} (P : A → Type κ) (f : A → A)
    → ((a : A) → P a → f a ≡ a)
    → (xs : List A) → All P xs
    → map f xs ≡ xs
map-eq_self P f h [] _ = refl
map-eq_self P f h (x ∷ xs) (p, ps) = cc (h x p, map-eq_self P f h xs ps)

map-map-eq_self {ℓ κ μ} :
    {A : Type ℓ} {B : Type κ} (P : A → Type μ) (f : A → B) (g : B → A)
    → ((a : A) → P a → g (f a) ≡ a)
    → (xs : List A) → All P xs
    → map g (map f xs) ≡ xs
map-map-eq_self P f g h [] _ = refl
map-map-eq_self P f g h (x ∷ xs) (p, ps) = cc (h x p, map-map-eq_self P f g h xs ps)

abbrev AnyOutput : TransactionOutput → Type 0
AnyOutput t = Unit {0}

any_outputs : (ts : List TransactionOutput) → All AnyOutput ts
any_outputs [] = tt
any_outputs (t ∷ ts) = (tt, any_outputs ts)

input_lem : (t : TransactionInput) → InputInRange t → Input.of_message (Input.message t) ≡ t
unfolding Input.of_message Input.message
input_lem t h = ground arith

output_lem : (t : TransactionOutput) → AnyOutput t → Output.of_message (Output.message t) ≡ t
unfolding Output.of_message Output.message
output_lem t _ = refl

pub transaction_lem :
    (t : Transaction) → TransactionInRange t → Transaction.of_message (Transaction.message t) ≡ t
unfolding Transaction.of_message Transaction.message
transaction_lem t (v, ins) = ground (
  arith,
  map-map-eq_self InputInRange Input.message Input.of_message input_lem t.transaction_inputs ins,
  map-map-eq_self AnyOutput Output.message Output.of_message output_lem t.transaction_outputs
      (any_outputs t.transaction_outputs),
)

pub deserialize-serialize_input :
    (w : Wire) (t : TransactionInput)
    → InputInRange t
    → Input.deserialize w (Input.serialize w t) ≡ t
unfolding Input.deserialize Input.serialize
deserialize-serialize_input w t h =
    ap Input.of_message (w.transaction_input.parse-encode (Input.message t)) ∙ input_lem t h

pub deserialize-serialize_output :
    (w : Wire) (t : TransactionOutput) → Output.deserialize w (Output.serialize w t) ≡ t
unfolding Output.deserialize Output.serialize
deserialize-serialize_output w t =
    ap Output.of_message (w.transaction_output.parse-encode (Output.message t))

pub deserialize-serialize_transaction :
    (w : Wire) (t : Transaction)
    → TransactionInRange t
    → Transaction.deserialize w (Transaction.serialize w t) ≡ t
unfolding Transaction.deserialize Transaction.serialize
deserialize-serialize_transaction w t h =
    ap Transaction.of_message (w.transaction.parse-encode (Transaction.message t))
    ∙ transaction_lem t h

header_lem : (h : BlockHeader) → HeaderInRange h → Header.of_message (Header.message h) ≡ h
unfolding Header.of_message Header.message
header_lem h v = ground arith

pub deserialize-serialize_header :
    (w : Wire) (h : BlockHeader) → HeaderInRange h → Header.deserialize w (Header.serialize w h) ≡ h
unfolding Header.deserialize Header.serialize
deserialize-serialize_header w h v =
    ap Header.of_message (w.block_header.parse-encode (Header.message h)) ∙ header_lem h v

block_lem : (b : Block) → BlockInRange b → Block.of_message (Block.message b) ≡ b
unfolding Block.of_message Block.message
block_lem b (v, ts) = ground (
  arith,
  map-map-eq_self TransactionInRange Transaction.message Transaction.of_message transaction_lem
      b.transactions ts,
)

-- A block whose one-byte fields are in range is read back from its serialization unchanged, with
-- its header, and its transactions with their inputs and outputs in order.
pub deserialize-serialize_block :
    (w : Wire) (b : Block) → BlockInRange b → Block.deserialize w (Block.serialize w b) ≡ b
unfolding Block.deserialize Block.serialize
deserialize-serialize_block w b h =
    ap Block.of_message (w.block.parse-encode (Block.message b)) ∙ block_lem b h
