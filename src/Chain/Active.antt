-- ===== src/Chain/Active.antt =====
-- `Chain::get_active_chain` and `Chain::get_active_chain_hashes`: both walk back from the last block
-- by the hash of the previous one. The height falls by one in each round down to `start`, which is
-- at least 1, so the rounds are counted here.
use rath_db.Common.{
  ℕ, zero, suc, ◌-◌, List, [], ◌∷◌, reverse, ltb, leb, ◌==◌, if◌then◌else◌, Outcome, ok, ◌>>=◌,
}
use rath_db.Env.{Env}
use rath_db.Primitives.Block.{Block}
use rath_db.Chain.{Chain, get_record, get_block, get_last_block_hash, follow}

-- The newest block comes first, as it is pushed last in the reversed result.
unfoldable pub active_loop : Env → ℕ → ℕ → ℕ → ℕ → Chain → Outcome (List Block × Chain)
active_loop e zero height end previous_hash c = ok ([], c)
active_loop e (suc rounds) height end previous_hash c = do
  found ← get_block e previous_hash c
  block ← follow found.0
  rest ← active_loop e rounds (height - 1) end block.block_header.previous_block_hash found.1
  ok (if leb (height - 1) end then (block ∷ rest.0, rest.1) else rest)

abbrev pub at_least_one : ℕ → ℕ
at_least_one start = if start == 0 then 1 else start

abbrev pub at_most : ℕ → ℕ → ℕ
at_most limit end = if ltb limit end then limit else end

unfoldable pub get_active_chain : Env → ℕ → ℕ → Chain → Outcome (List Block × Chain)
unfolding active_loop
get_active_chain e start end c =
    let (_, c') = get_record e (get_last_block_hash e c) c in
    let height = c.active_chain_length in
    if ltb end start then ok ([], c) else (do
      walked ←
          active_loop e (suc height - at_least_one start) height (at_most height end)
            (get_last_block_hash e c) c'
      ok (reverse walked.0, walked.1))

-- The variable `hash` of the loop's body hides the one outside, which is never changed: every round
-- reads the last block again.
unfoldable pub hashes_loop : Env → ℕ → ℕ → ℕ → ℕ → Chain → Outcome (List ℕ × Chain)
hashes_loop e zero height end hash c = ok ([], c)
hashes_loop e (suc rounds) height end hash c = do
  found ← get_block e hash c
  block ← follow found.0
  rest ← hashes_loop e rounds (height - 1) end hash found.1
  ok (if leb (height - 1) end then (hash ∷ rest.0, rest.1) else rest)

unfoldable pub get_active_chain_hashes : Env → ℕ → ℕ → Chain → Outcome (List ℕ × Chain)
unfolding hashes_loop
get_active_chain_hashes e start end c =
    let height = c.active_chain_length in
    if ltb end start then ok ([], c) else (do
      walked ←
          hashes_loop e (suc height - at_least_one start) height (at_most height end)
            (get_last_block_hash e c) c
      ok (reverse walked.0, walked.1))
