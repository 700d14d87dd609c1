-- ===== src/Chain/Frames.antt =====
-- The walks of the chain leave the coin database alone.
use rath_db.Common.{
  ℕ, zero, suc, ◌-◌, ◌≡◌, refl, ◌∙◌, List, [], ◌∷◌, ◌++◌, reverse, ltb, leb, Bool-cases, inl, inr,
  Option, none, some, Ensures, Ensures-ok, Ensures-bind, Ensures-any,
}
use rath_db.Env.{Env}
use rath_db.Primitives.Block.{Block}
use rath_db.Chain.{Chain, get_record, get_block, get_last_block_hash, follow}
use rath_db.Chain.Active.{active_loop, at_least_one, at_most, get_active_chain}
use rath_db.Chain.Fork.{mem_hash, ancestor_found, fork_loop, fork_from, get_forked_blocks_stack}
use rath_db.Chain.Lengths.{
  SameHeights, SameHeights-refl, SameHeights-trans, get_record-SameHeights, get_block-SameHeights,
}

active_loop-SameHeights :
    (e : Env) (rounds height end hash : ℕ) (c : Chain)
    → Ensures (λ r. SameHeights c r.1) (active_loop e rounds height end hash c)
unfolding active_loop
active_loop-SameHeights e zero height end hash c =
    Ensures-ok (λ r. SameHeights c r.1) ([], c) (SameHeights-refl c)
active_loop-SameHeights e (suc rounds) height end hash c =
    Ensures-bind _ (get_block e hash c) (get_block-SameHeights e hash c) λ found s.
      Ensures-bind _ (follow found.0) (Ensures-any _) λ block _.
        Ensures-bind _
          (active_loop e rounds (height - 1) end block.block_header.previous_block_hash found.1)
          (active_loop-SameHeights e rounds (height - 1) end block.block_header.previous_block_hash
            found.1)
          λ rest s'. elim (Bool-cases (leb (height - 1) end)) [
            | inl y ↦ rw y (
                Ensures-ok (λ r. SameHeights c r.1) (block ∷ rest.0, rest.1)
                  (SameHeights-trans s s'))
            | inr n ↦ rw n (Ensures-ok (λ r. SameHeights c r.1) rest (SameHeights-trans s s'))
          ]

pub get_active_chain-SameHeights :
    (e : Env) (start end : ℕ) (c : Chain)
    → Ensures (λ r. SameHeights c r.1) (get_active_chain e start end c)
unfolding get_active_chain
get_active_chain-SameHeights e start end c =
    let hash = get_last_block_hash e c in
    let s = get_record-SameHeights e hash c in
    elim (Bool-cases (ltb end start)) [
      | inl y ↦ rw y (Ensures-ok (λ r. SameHeights c r.1) ([], c) (SameHeights-refl c))
      | inr n ↦ rw n (
          Ensures-bind _
            (active_loop e (suc c.active_chain_length - at_least_one start) c.active_chain_length
              (at_most c.active_chain_length end) hash (get_record e hash c).1)
            (active_loop-SameHeights e (suc c.active_chain_length - at_least_one start)
              c.active_chain_length (at_most c.active_chain_length end) hash
              (get_record e hash c).1)
            λ walked s'.
              Ensures-ok (λ r. SameHeights c r.1) (reverse walked.0, walked.1)
                (SameHeights-trans s s'))
    ]

-- The coin database is kept; the branching height is not.
abbrev pub SameCoins : Chain → List Block × Chain → Type 0
SameCoins c r = r.1.coin_database ≡ c.coin_database

ancestor_found-SameCoins :
    (e : Env) (hash : ℕ) (stack : List Block) (c : Chain)
    → Ensures (SameCoins c) (ancestor_found e hash stack c)
unfolding ancestor_found
ancestor_found-SameCoins e hash stack c =
    Ensures-bind _ (follow (get_record e hash c).0) (Ensures-any _) λ r _.
      Ensures-ok (SameCoins c)
        (reverse stack, record (get_record e hash c).1 { branching_height = r.height })
        (get_record-SameHeights e hash c).coins_kept

fork_loop-SameCoins :
    (e : Env) (rounds hash : ℕ) (stack : List Block) (c : Chain)
    → Ensures (SameCoins c) (fork_loop e rounds hash stack c)
unfolding fork_loop
fork_loop-SameCoins e zero hash stack c = Ensures-ok (SameCoins c) ([], c) refl
fork_loop-SameCoins e (suc rounds) hash stack c =
    elim (Bool-cases (mem_hash hash c.last_five_hashes)) [
      | inl near ↦ rw near (ancestor_found-SameCoins e hash stack c)
      | inr far ↦ rw far (
          Ensures-bind _ (get_block e hash c) (get_block-SameHeights e hash c) λ found s.
            Ensures-bind _ (follow found.0) (Ensures-any _) λ block _. record {
              at = λ r h.
                  (fork_loop-SameCoins e rounds block.block_header.previous_block_hash
                      (stack ++ block ∷ []) found.1).at
                    r h
                  ∙ s.coins_kept;
            })
    ]

fork_from-SameCoins :
    (e : Env) (o : Option Block) (c : Chain) → Ensures (SameCoins c) (fork_from e o c)
unfolding fork_from
fork_from-SameCoins e none c = Ensures-ok (SameCoins c) ([], c) refl
fork_from-SameCoins e (some b) c =
    fork_loop-SameCoins e 5 b.block_header.previous_block_hash (b ∷ []) c

pub get_forked_blocks_stack-SameCoins :
    (e : Env) (hash : ℕ) (c : Chain) → Ensures (SameCoins c) (get_forked_blocks_stack e hash c)
unfolding get_forked_blocks_stack
get_forked_blocks_stack-SameCoins e hash c =
    Ensures-bind _ (get_block e hash c) (get_block-SameHeights e hash c) λ found s. record {
      at = λ r h. (fork_from-SameCoins e found.0 found.1).at r h ∙ s.coins_kept;
    }
