-- ===== src/Common/Outcomes.antt =====
-- What a run of C++ code ends in. `undefined` is undefined behaviour: an index out of range, a null
-- pointer that is followed, a branch on a value that no `return` gave. `stopped` is the end of the
-- program by an exception that nothing catches or by `exit`. `out_of_fuel` is a loop that has not
-- ended within its fuel.
use mathlib.Core.Path.{◌≡◌, refl, subst}

pub data Outcome {ℓ} (A : Type ℓ) : Type ℓ where
  ok : A → Outcome A
  undefined : Outcome A
  stopped : Outcome A
  out_of_fuel : Outcome A

-- Control runs off the end of a function that has a value to return, with the state it leaves.
abbrev pub no_return {ℓ κ} : {S : Type ℓ} {A : Type κ} → S → Outcome A
no_return s = undefined

infixl 5 ◌>>=◌
abbrev pub ◌>>=◌ {ℓ κ} : {A : Type ℓ} {B : Type κ} → Outcome A → (A → Outcome B) → Outcome B
ok a >>= f = f a
undefined >>= f = undefined
stopped >>= f = stopped
out_of_fuel >>= f = out_of_fuel

pub ok_inj {ℓ} : {A : Type ℓ} {a b : A} → ◌≡◌ {A = Outcome A} (ok a) (ok b) → a ≡ b
ok_inj e = cc

-- A block that succeeds succeeds in its first step.
pub >>=-eq-ok {ℓ κ} :
    {A : Type ℓ} {B : Type κ} {last : B} (first : Outcome A) (next : A → Outcome B)
    → (first >>= next) ≡ ok last
    → (middle : A) × (first ≡ ok middle) × (next middle ≡ ok last)
>>=-eq-ok (ok middle) next h = (middle, refl, h)
>>=-eq-ok undefined next h = cc
>>=-eq-ok stopped next h = cc
>>=-eq-ok out_of_fuel next h = cc

-- What a run returns, if it returns, satisfies `P`.
pub record Ensures {ℓ κ} {A : Type ℓ} (P : A → Type κ) (m : Outcome A) : Type (ℓ ⊔ κ) where
  pub at : (a : A) → m ≡ ok a → P a

pub Ensures-ok {ℓ κ} : {A : Type ℓ} (P : A → Type κ) (a : A) → P a → Ensures P (ok a)
Ensures-ok {A} P a p = record { at = λ b e. subst P (ok_inj e) p }

pub Ensures-bind {ℓ κ μ ν} :
    {A : Type ℓ} {B : Type κ} (P : A → Type μ) {Q : B → Type ν} (m : Outcome A) {f : A → Outcome B}
    → Ensures P m
    → ((a : A) → P a → Ensures Q (f a))
    → Ensures Q (m >>= f)
Ensures-bind P (ok a) p k = k a (p.at a refl)
Ensures-bind P undefined p k = record { at = λ b e. cc }
Ensures-bind P stopped p k = record { at = λ b e. cc }
Ensures-bind P out_of_fuel p k = record { at = λ b e. cc }

pub Ensures-any {ℓ} : {A : Type ℓ} (m : Outcome A) → Ensures (λ a. Unit {0}) m
Ensures-any m = record { at = λ a e. tt }
