-- ===== src/Chain/Lengths.antt =====
-- How many blocks the walks of the chain return, and what they leave as it was.
use mathlib.Core.List.{reverse-cons}
use rath_db.Common.{
  ℕ, zero, suc, ◌-◌, ◌≤◌, ◌≡◌, refl, ap, ◌∙◌, subst, List, [], ◌∷◌, reverse, length, length-append,
  ltb, Option, none, some, Bool-cases, inl, inr, ok, Ensures, Ensures-ok, Ensures-bind, Ensures-any,
  arith,
}
use rath_db.Env.{Env}
use rath_db.Primitives.Block.{Block}
use rath_db.BlockInfo.Record.{BlockRecord}
use rath_db.Coins.Undo.{UndoBlock}
use rath_db.Chain.{
  Chain, get_record, read_found, read_undo_found, get_block, get_undo_block, get_last_block_hash,
  follow,
}
use rath_db.Chain.Active.{active_loop, at_least_one, at_most, get_active_chain}
use rath_db.Chain.Fork.{queue_loop, get_undo_blocks_queue}

pub length-reverse {ℓ} : {A : Type ℓ} (xs : List A) → length (reverse xs) ≡ length xs
length-reverse [] = refl
length-reverse (x ∷ xs) =
    omega
      (arith, ap length (reverse-cons x xs), length-append (reverse xs) (x ∷ []), length-reverse xs)

-- The heights of the active chain and the coin database are not touched.
pub record SameHeights (c c' : Chain) : Type 0 where
  pub length_kept : c'.active_chain_length ≡ c.active_chain_length
  pub branching_kept : c'.branching_height ≡ c.branching_height
  pub coins_kept : c'.coin_database ≡ c.coin_database

pub SameHeights-refl : (c : Chain) → SameHeights c c
SameHeights-refl c = record { length_kept = refl; branching_kept = refl; coins_kept = refl }

pub SameHeights-trans : {a b c : Chain} → SameHeights a b → SameHeights b c → SameHeights a c
SameHeights-trans p q = record {
  length_kept = q.length_kept ∙ p.length_kept;
  branching_kept = q.branching_kept ∙ p.branching_kept;
  coins_kept = q.coins_kept ∙ p.coins_kept;
}

pub get_record-SameHeights :
    (e : Env) (hash : ℕ) (c : Chain) → SameHeights c (get_record e hash c).1
unfolding get_record
get_record-SameHeights e hash c = record {
  length_kept = refl;
  branching_kept = refl;
  coins_kept = refl;
}

read_found-same :
    (e : Env) (o : Option BlockRecord) (c : Chain) (b : Option Block) (c' : Chain)
    → read_found e o c ≡ ok (b, c')
    → c ≡ c'
unfolding read_found
read_found-same e none c b c' h = cc
read_found-same e (some r) c b c' h = ground arith

read_undo_found-same :
    (e : Env) (o : Option BlockRecord) (c : Chain) (b : Option UndoBlock) (c' : Chain)
    → read_undo_found e o c ≡ ok (b, c')
    → c ≡ c'
unfolding read_undo_found
read_undo_found-same e none c b c' h = cc
read_undo_found-same e (some r) c b c' h = ground arith

pub get_block-SameHeights :
    (e : Env) (hash : ℕ) (c : Chain) → Ensures (λ r. SameHeights c r.1) (get_block e hash c)
unfolding get_block
get_block-SameHeights e hash c = record {
  at = λ r h.
      subst (SameHeights c)
        (read_found-same e (get_record e hash c).0 (get_record e hash c).1 r.0 r.1 h)
        (get_record-SameHeights e hash c);
}

pub get_undo_block-SameHeights :
    (e : Env) (hash : ℕ) (c : Chain) → Ensures (λ r. SameHeights c r.1) (get_undo_block e hash c)
unfolding get_undo_block
get_undo_block-SameHeights e hash c = record {
  at = λ r h.
      subst (SameHeights c)
        (read_undo_found-same e (get_record e hash c).0 (get_record e hash c).1 r.0 r.1 h)
        (get_record-SameHeights e hash c);
}

-- A walk returns at most one block for each round.
active_loop-le :
    (e : Env) (rounds height end hash : ℕ) (c : Chain)
    → Ensures (λ r. length r.0 ≤ rounds) (active_loop e rounds height end hash c)
unfolding active_loop
active_loop-le e zero height end hash c = Ensures-ok _ _ (omega arith)
active_loop-le e (suc rounds) height end hash c =
    Ensures-bind _ (get_block e hash c) (Ensures-any _) λ found _.
      Ensures-bind _ (follow found.0) (Ensures-any _) λ block _.
        Ensures-bind _
          (active_loop e rounds (height - 1) end block.block_header.previous_block_hash found.1)
          (active_loop-le e rounds (height - 1) end block.block_header.previous_block_hash found.1)
          λ rest le. Ensures-ok _ _ (ground arith)

pub get_active_chain-le :
    (e : Env) (start end : ℕ) (c : Chain)
    → Ensures
        (λ r. length r.0 ≤ suc c.active_chain_length - at_least_one start)
        (get_active_chain e start end c)
unfolding get_active_chain
get_active_chain-le e start end c = elim (Bool-cases (ltb end start)) [
  | inl y ↦ rw y (
      Ensures-ok (λ r. length r.0 ≤ suc c.active_chain_length - at_least_one start) ([], _)
        (omega arith))
  | inr n ↦ rw n (
      Ensures-bind _
        (active_loop e (suc c.active_chain_length - at_least_one start) c.active_chain_length
          (at_most c.active_chain_length end) (get_last_block_hash e c)
          (get_record e (get_last_block_hash e c) c).1)
        (active_loop-le e (suc c.active_chain_length - at_least_one start) c.active_chain_length
          (at_most c.active_chain_length end) (get_last_block_hash e c)
          (get_record e (get_last_block_hash e c) c).1)
        λ walked le.
          Ensures-ok (λ r. length r.0 ≤ suc c.active_chain_length - at_least_one start)
            (reverse walked.0, walked.1) (omega (arith, length-reverse walked.0)))
]

queue_loop-length :
    (e : Env) (rounds hash : ℕ) (c : Chain)
    → Ensures (λ r. (length r.0 ≡ rounds) × SameHeights c r.1) (queue_loop e rounds hash c)
unfolding queue_loop
queue_loop-length e zero hash c = Ensures-ok _ _ (refl, SameHeights-refl c)
queue_loop-length e (suc rounds) hash c =
    Ensures-bind _ (get_undo_block e hash c) (get_undo_block-SameHeights e hash c) λ undo s.
      Ensures-bind _ (get_block e hash undo.1) (get_block-SameHeights e hash undo.1) λ found s'.
        Ensures-bind _ (follow found.0) (Ensures-any _) λ block _.
          Ensures-bind _ (queue_loop e rounds block.block_header.previous_block_hash found.1)
            (queue_loop-length e rounds block.block_header.previous_block_hash found.1)
            λ rest p. Ensures-ok _ _ (ap suc p.0, SameHeights-trans s (SameHeights-trans s' p.1))

-- If the queue of undo blocks is returned, it has one undo block more than there are heights above
-- the branching height, and the length of the active chain, the branching height and the coin
-- database are kept.
pub get_undo_blocks_queue-length :
    (e : Env) (branching : ℕ) (c : Chain)
    → Ensures
        (λ r. (length r.0 ≡ suc (c.active_chain_length - branching)) × SameHeights c r.1)
        (get_undo_blocks_queue e branching c)
unfolding get_undo_blocks_queue
get_undo_blocks_queue-length e branching c =
    Ensures-bind _ (get_undo_block e (get_last_block_hash e c) c) (get_undo_block-SameHeights e _ c)
      λ undo s.
        Ensures-bind _ (queue_loop e _ _ undo.1) (queue_loop-length e _ _ undo.1)
          λ rest p. Ensures-ok _ _ (ap suc p.0, SameHeights-trans s p.1)
