-- ===== src/Proto/Formats.antt =====
-- Printers and readers of values that other bytes follow, and what they are put together from.
use rath_db.Common.{
  ap, ◌+◌, ◌-◌, ◌*◌, ◌/◌, ◌%◌, ◌<◌, arith, ltb, if◌then◌else◌, lt→ltb, le→ltb, ltb→lt, Bool-cases,
  inl, inr, All, ℕ, zero, suc, ◌≡◌, refl, Bool, true, false, List, [], ◌∷◌, ◌++◌, append_assoc,
  Bytes, length,
}

-- A printer and a reader of a value that other bytes follow.
pub record Format (A : Type 0) : Type 0 where
  pub print : A → Bytes
  pub read : Bytes → A × Bytes
  pub read-print : (a : A) (rest : Bytes) → read (print a ++ rest) ≡ (a, rest)

-- The digits of a number to the base 127, the lowest first: the last one is a byte from 1 to 127, and
-- each before it one from 128 on. More fuel than digits is enough.
abbrev pub number_digits : ℕ → ℕ → Bytes
number_digits zero n = []
number_digits (suc fuel) n =
    let rest = (128 + n % 127) ∷ number_digits fuel (n / 127) in
    if ltb n 127 then suc n ∷ [] else rest

abbrev pub number_read : Bytes → ℕ × Bytes
number_read [] = (0, [])
number_read (b ∷ s) =
    let rest : ℕ × Bytes = (b - 128 + 127 * (number_read s).0, (number_read s).1) in
    if ltb b 128 then (b - 1, s) else rest

pub number_read-number_digits :
    (fuel n : ℕ) (rest : Bytes) → n < fuel → number_read (number_digits fuel n ++ rest) ≡ (n, rest)
number_read-number_digits zero n rest h = absurd (omega (arith, h))
number_read-number_digits (suc fuel) n rest h = elim (Bool-cases (ltb n 127)) [
  | inl small ↦
      rw (small, lt→ltb (suc n) 128 (omega (arith, ltb→lt n 127 small)))
        (ap (λ (k : ℕ). (k, rest)) (omega arith))
  | inr large ↦
      rw
        (
          large,
          le→ltb (128 + n % 127) 128 (omega arith),
          number_read-number_digits fuel (n / 127) rest (ground (arith, h, large)),
        )
        (ap (λ (k : ℕ). (k, rest)) (omega arith))
]

-- Every byte is one, and none is zero.
pub number_digits-IsByte : (fuel n : ℕ) → All (λ b. (0 < b) × (b < 256)) (number_digits fuel n)
number_digits-IsByte zero n = tt
number_digits-IsByte (suc fuel) n = elim (Bool-cases (ltb n 127)) [
  | inl small ↦ rw small ((omega arith, omega (arith, ltb→lt n 127 small)), tt)
  | inr large ↦ rw large ((omega arith, omega arith), number_digits-IsByte fuel (n / 127))
]

abbrev pub number : Format ℕ
number = record {
  print = λ n. number_digits (suc n) n;
  read = number_read;
  read-print = λ n rest. number_read-number_digits (suc n) n rest (omega arith);
}

module _ {A B : Type 0} (f : Format A) (g : Format B) where
  abbrev pub both_read : Bytes → (A × B) × Bytes
  both_read s = let (a, s') = f.read s in let (b, s'') = g.read s' in ((a, b), s'')

  pub both_lem :
      (p : A × B) (rest : Bytes) → both_read ((f.print p.0 ++ g.print p.1) ++ rest) ≡ (p, rest)
  both_lem p rest =
      rw (append_assoc (f.print p.0) (g.print p.1) rest)
        (cc (f.read-print p.0 (g.print p.1 ++ rest), g.read-print p.1 rest))

  abbrev pub both : Format (A × B)
  both = record { print = λ p. f.print p.0 ++ g.print p.1; read = both_read; read-print = both_lem }

module _ {A B : Type 0} (to : A → B) (from : B → A) (from-to : (a : A) → from (to a) ≡ a)
    (f : Format B) where
  pub via_lem :
      (a : A) (rest : Bytes)
      → ◌≡◌ {A = A × Bytes}
          (from (f.read (f.print (to a) ++ rest)).0, (f.read (f.print (to a) ++ rest)).1)
          (a, rest)
  via_lem a rest = rw (f.read-print (to a) rest) (cc (from-to a))

  abbrev pub via : Format A
  via = record {
    print = λ a. f.print (to a);
    read = λ s. (from (f.read s).0, (f.read s).1);
    read-print = via_lem;
  }

module _ {A : Type 0} (f : Format A) where
  abbrev pub print_all : List A → Bytes
  print_all [] = []
  print_all (x ∷ xs) = f.print x ++ print_all xs

  abbrev pub read_all : ℕ → Bytes → List A × Bytes
  read_all zero s = ([], s)
  read_all (suc n) s = let (a, s') = f.read s in let (as', s'') = read_all n s' in (a ∷ as', s'')

  pub read_all-print_all :
      (xs : List A) (rest : Bytes) → read_all (length xs) (print_all xs ++ rest) ≡ (xs, rest)
  read_all-print_all [] rest = refl
  read_all-print_all (x ∷ xs) rest =
      rw (append_assoc (f.print x) (print_all xs) rest)
        (cc (f.read-print x (print_all xs ++ rest), read_all-print_all xs rest))

  abbrev pub counted : Bytes → List A × Bytes
  counted s = let (n, s') = number_read s in read_all n s'

  pub counted_lem :
      (xs : List A) (rest : Bytes)
      → counted ((number.print (length xs) ++ print_all xs) ++ rest) ≡ (xs, rest)
  counted_lem xs rest =
      rw
        (
          append_assoc (number.print (length xs)) (print_all xs) rest,
          number.read-print (length xs) (print_all xs ++ rest),
        )
        (read_all-print_all xs rest)

  abbrev pub many : Format (List A)
  many = record {
    print = λ xs. number.print (length xs) ++ print_all xs;
    read = counted;
    read-print = counted_lem;
  }

abbrev pub of_bool : Bool → ℕ
of_bool false = 0
of_bool true = 1

abbrev pub to_bool : ℕ → Bool
to_bool zero = false
to_bool (suc n) = true

pub to_bool-of_bool : (b : Bool) → to_bool (of_bool b) ≡ b
to_bool-of_bool false = refl
to_bool-of_bool true = refl

abbrev pub flag : Format Bool
flag = via of_bool to_bool to_bool-of_bool number
