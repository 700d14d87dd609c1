-- ===== src/Common/Map.antt =====
-- `std::unordered_map` as an association list: the order of the list stands for the iteration
-- order, which the standard leaves open. Keys are compared by an instance of `Eq`.
use mathlib.Core.Path.{◌≡◌, refl}
use mathlib.Core.Bool.{Bool, true, false}
use mathlib.Core.Option.{Option, none, some}
use mathlib.Core.List.{List, [], ◌∷◌}
use native.Mathlib.Omega.{arith}
use rath_db.Common.Tests.{Eq, if◌then◌else◌}

abbrev pub Map {ℓ κ} : Type ℓ → Type κ → Type (ℓ ⊔ κ)
Map K V = List (K × V)

pub beq_refl {ℓ} : {K : Type ℓ} ⦃e : Eq K⦄ (k : K) → e.beq k k ≡ true
beq_refl ⦃e⦄ k = (e.beq_iff k k).1 refl

abbrev pub is_some {ℓ} : {A : Type ℓ} → Option A → Bool
is_some none = false
is_some (some a) = true

module _ {ℓ κ} {K : Type ℓ} {V : Type κ} ⦃e : Eq K⦄ where
  unfoldable pub lookup : K → Map K V → Option V
  lookup k [] = none
  lookup k (p ∷ m) = if e.beq p.0 k then some p.1 else lookup k m

  -- `m[k] = v`: a new key goes in front.
  unfoldable pub insert : K → V → Map K V → Map K V
  insert k v [] = (k, v) ∷ []
  insert k v (p ∷ m) = if e.beq p.0 k then (k, v) ∷ m else p ∷ insert k v m

  -- `m.erase(k)`; all entries of the key, of which there is at most one in a map that was built
  -- by `insert`.
  unfoldable pub erase : K → Map K V → Map K V
  erase k [] = []
  erase k (p ∷ m) = let rest = erase k m in if e.beq p.0 k then rest else p ∷ rest

  -- `m.contains(k)`
  unfoldable pub contains : K → Map K V → Bool
  contains k m = is_some (lookup k m)

  pub lookup-insert :
      (k j : K) (v : V) (m : Map K V)
      → lookup j (insert k v m) ≡ (if e.beq k j then some v else lookup j m)
  unfolding lookup insert
  lookup-insert k j v [] = refl
  lookup-insert k j v (p ∷ m) =
      ground (arith, e.beq_iff k j, e.beq_iff p.0 k, e.beq_iff p.0 j, lookup-insert k j v m)

  pub lookup-erase :
      (k j : K) (m : Map K V) → lookup j (erase k m) ≡ (if e.beq k j then none else lookup j m)
  unfolding lookup erase
  lookup-erase k j [] = ground arith
  lookup-erase k j (p ∷ m) =
      ground (arith, e.beq_iff k j, e.beq_iff p.0 k, e.beq_iff p.0 j, lookup-erase k j m)

  pub contains-insert :
      (k j : K) (v : V) (m : Map K V)
      → contains j (insert k v m) ≡ (if e.beq k j then true else contains j m)
  unfolding contains
  contains-insert k j v m = rw (lookup-insert k j v m) (ground arith)

  pub contains-erase :
      (k j : K) (m : Map K V) → contains j (erase k m) ≡ (if e.beq k j then false else contains j m)
  unfolding contains
  contains-erase k j m = rw (lookup-erase k j m) (ground arith)
