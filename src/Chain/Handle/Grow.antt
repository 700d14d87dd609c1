-- ===== src/Chain/Handle/Grow.antt =====
-- The active chain as it is read back, after `Chain::handle_block` has extended it.
use rath_db.Common.{ℕ, ◌≡◌, ◌≢◌, subst, sym, List, [], ◌∷◌}
use rath_db.Env.{Env}
use rath_db.Primitives.Block.{Block}
use rath_db.Chain.{Chain, block_hash, get_last_block_hash}
use rath_db.Chain.Lookup.{HasBlock, Linked}
use rath_db.Chain.Handle.Extend.{Extended}

-- The hash is none of those under which the blocks of a chain are found.
abbrev pub IsNew : ℕ → ℕ → List Block → Type 0
IsNew new hash [] = Unit {0}
IsNew new hash (b ∷ bs) = (new ≢ hash) × IsNew new b.block_header.previous_block_hash bs

pub Linked-kept :
    (e : Env) (b : Block) (c c' : Chain) (hash : ℕ) (bs : List Block)
    → ((at : ℕ) (other : Block)
        → block_hash e b ≢ at
        → HasBlock e c at other
        → HasBlock e c' at other)
    → IsNew (block_hash e b) hash bs
    → Linked e c hash bs
    → Linked e c' hash bs
Linked-kept e b c c' hash [] kept new h = tt
Linked-kept e b c c' hash (other ∷ bs) kept (ne, new) (h, hs) = (
  kept hash other ne h,
  Linked-kept e b c c' other.block_header.previous_block_hash bs kept new hs,
)

pub Extended-Linked :
    (e : Env) (b : Block) (c c' : Chain) (bs : List Block)
    → Extended e b c c'
    → b.block_header.previous_block_hash ≡ get_last_block_hash e c
    → IsNew (block_hash e b) (get_last_block_hash e c) bs
    → Linked e c (get_last_block_hash e c) bs
    → Linked e c' (get_last_block_hash e c') (b ∷ bs)
Extended-Linked e b c c' bs x on_top new h =
    subst (λ hash. Linked e c' hash (b ∷ bs)) (sym x.last_hash)
      (
        x.found_after,
        subst (λ hash. Linked e c' hash bs) (sym on_top)
            (Linked-kept e b c c' (get_last_block_hash e c) bs x.others_after new h),
      )
