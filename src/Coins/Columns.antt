-- ===== src/Coins/Columns.antt =====
-- Three vectors that describe the same outputs: their indexes, amounts and public keys. The loops
-- run over the indexes and read the other two at the same position, which is undefined behaviour
-- where one of them is shorter; what they have beyond is dropped.
use rath_db.Common.{
  ℕ, ◌≡◌, refl, List, [], ◌∷◌, Outcome, ok, undefined, ◌>>=◌, Ensures, Ensures-ok, Ensures-bind,
}

pub record Columns : Type 0 where
  pub utxo : List ℕ
  pub amounts : List ℕ
  pub public_keys : List ℕ

abbrev pub push_front : ℕ → ℕ → ℕ → Columns → Columns
push_front u a k c = record {
  utxo = u ∷ c.utxo;
  amounts = a ∷ c.amounts;
  public_keys = k ∷ c.public_keys;
}

-- `for (i = 0; i < utxo.size(); i++)`, copying the three entries at `i`.
unfoldable pub copy_columns : List ℕ → List ℕ → List ℕ → Outcome Columns
copy_columns [] ams ks = ok (record { utxo = []; amounts = []; public_keys = [] })
copy_columns (u ∷ us) (a ∷ ams) (k ∷ ks) = do c ← copy_columns us ams ks; ok (push_front u a k c)
copy_columns (u ∷ us) ams ks = undefined

-- The three vectors have one length.
abbrev pub Aligned : List ℕ → List ℕ → List ℕ → Type 0
Aligned [] [] [] = Unit {0}
Aligned (u ∷ us) (a ∷ ams) (k ∷ ks) = Aligned us ams ks
Aligned _ _ _ = ⊥

pub copy_columns-Aligned :
    (us ams ks : List ℕ)
    → Aligned us ams ks
    → copy_columns us ams ks ≡ ok (record { utxo = us; amounts = ams; public_keys = ks })
unfolding copy_columns
copy_columns-Aligned [] [] [] h = refl
copy_columns-Aligned [] [] (k ∷ ks) h = elim h [ ]
copy_columns-Aligned [] (a ∷ ams) ks h = elim h [ ]
copy_columns-Aligned (u ∷ us) [] ks h = elim h [ ]
copy_columns-Aligned (u ∷ us) (a ∷ ams) [] h = elim h [ ]
copy_columns-Aligned (u ∷ us) (a ∷ ams) (k ∷ ks) h = rw (copy_columns-Aligned us ams ks h)

-- Whatever `copy_columns` returns is in step.
pub copy_columns-Ensures :
    (us ams ks : List ℕ)
    → Ensures (λ c. Aligned c.utxo c.amounts c.public_keys) (copy_columns us ams ks)
unfolding copy_columns
copy_columns-Ensures [] ams ks =
    Ensures-ok _ (record { utxo = []; amounts = []; public_keys = [] }) tt
copy_columns-Ensures (u ∷ us) [] ks = record { at = λ c h. cc }
copy_columns-Ensures (u ∷ us) (a ∷ ams) [] = record { at = λ c h. cc }
copy_columns-Ensures (u ∷ us) (a ∷ ams) (k ∷ ks) =
    Ensures-bind _ (copy_columns us ams ks) (copy_columns-Ensures us ams ks)
      λ c h. Ensures-ok (λ d. Aligned d.utxo d.amounts d.public_keys) (push_front u a k c) h
