-- ===== src/Coins/Undoing/Insertion.antt =====
-- `find_index` and the insertion of an output into the stored record.
use rath_db.Common.{
  ok_inj, ℕ, suc, ◌≤◌, ◌<◌, ◌≡◌, refl, inl, inr, List, [], ◌∷◌, ltb, Bool-cases, All, get_elem?,
  some, ok, subst, false, >>=-eq-ok, ltb→lt, take, arith,
}
use rath_db.Coins.Undoing.{find_index}

-- The position that `find_index` returns is the first whose entry is not smaller.
pub record IsFirst (utxo : ℕ) (us : List ℕ) (i : ℕ) : Type 0 where
  pub smaller : All (λ u. u < utxo) (take i us)
  pub entry : ℕ
  pub at_index : get_elem? us i ≡ some entry
  pub not_smaller : utxo ≤ entry

IsFirst-later :
    (utxo u : ℕ) (us : List ℕ) (k : ℕ)
    → u < utxo
    → IsFirst utxo us k
    → IsFirst utxo (u ∷ us) (suc k)
IsFirst-later utxo u us k lt f = record {
  smaller = (lt, f.smaller);
  entry = f.entry;
  at_index = f.at_index;
  not_smaller = f.not_smaller;
}

IsFirst-here : (utxo u : ℕ) (us : List ℕ) → ltb u utxo ≡ false → IsFirst utxo (u ∷ us) 0
IsFirst-here utxo u us h = record {
  smaller = tt;
  entry = u;
  at_index = refl;
  not_smaller = ground arith;
}

-- If `find_index` returns a position, it is the first whose entry is not below the index: all
-- entries before it are smaller.
pub find_index-IsFirst :
    (utxo : ℕ) (us : List ℕ) (i : ℕ) → find_index utxo us ≡ ok i → IsFirst utxo us i
unfolding find_index
find_index-IsFirst utxo [] i h = cc
find_index-IsFirst utxo (u ∷ us) i h = elim (Bool-cases (ltb u utxo)) [
  | inl lt ↦
      let (k, e, q) = >>=-eq-ok (find_index utxo us) (λ (n : ℕ). ok (suc n)) (rw lt at h) in
      subst (IsFirst utxo (u ∷ us)) (ok_inj q)
        (IsFirst-later utxo u us k (ltb→lt u utxo lt) (find_index-IsFirst utxo us k e))
  | inr ge ↦ subst (IsFirst utxo (u ∷ us)) (ok_inj (rw ge at h)) (IsFirst-here utxo u us ge)
]
