-- ===== src/Text/RoundTrip.antt =====
-- `stoul` reads back what `to_string` prints, so `to_string` is injective.
use rath_db.Common.{
  ℕ, zero, suc, ◌+◌, ◌-◌, ◌*◌, ◌/◌, ◌%◌, ◌≤◌, ◌<◌, ◌≡◌, ◌≢◌, refl, sym, ap, ◌∙◌, inl, inr, some,
  some, [], ◌∷◌, ◌++◌, Bytes, All, All-append, arith, ltb, Bool-cases, ltb→lt,
}
use rath_db.Text.{decimal, to_string, digit, scan, stoul}

abbrev pub IsDigit : ℕ → Type 0
IsDigit c = (48 ≤ c) × (c ≤ 57)

decimal-IsDigit : (f n : ℕ) → All IsDigit (decimal f n)
unfolding decimal
decimal-IsDigit zero n = tt
decimal-IsDigit (suc f) n = elim (Bool-cases (ltb n 10)) [
  | inl small ↦ rw small ((omega arith, omega (arith, ltb→lt n 10 small)), tt)
  | inr large ↦
      rw large
        (All-append IsDigit _ _ (decimal-IsDigit f (n / 10)) ((omega arith, omega arith), tt))
]

-- A printed number has digits only; so it holds no dash.
pub to_string-IsDigit : (n : ℕ) → All IsDigit (to_string n)
unfolding to_string
to_string-IsDigit n = decimal-IsDigit (suc n) n

digit_lem : (d : ℕ) → d < 10 → digit (48 + d) ≡ d
unfolding digit
digit_lem d h = ground arith

scan-append_digit :
    (acc : ℕ) (s : Bytes) (d : ℕ)
    → All IsDigit s
    → d < 10
    → scan 10 acc (s ++ (48 + d) ∷ []) ≡ scan 10 acc s * 10 + d
unfolding scan
scan-append_digit acc [] d _ h = ground (arith, digit_lem d h)
scan-append_digit acc (c ∷ s) d (hc, hs) h =
    ground (
      arith,
      ap digit (c_eq hc),
      digit_lem (c - 48),
      scan-append_digit (acc * 10 + digit c) s d hs h,
    )
  where
    c_eq : IsDigit c → c ≡ 48 + (c - 48)
    c_eq k = omega arith

scan-decimal : (f n : ℕ) → n < f → scan 10 0 (decimal f n) ≡ n
unfolding decimal
scan-decimal zero n h = absurd (omega arith)
scan-decimal (suc f) n h = elim (Bool-cases (ltb n 10)) [
  | inl small ↦ rw small (one_digit (ltb→lt n 10 small))
  | inr large ↦ rw large (
      scan-append_digit 0 (decimal f (n / 10)) (n % 10) (decimal-IsDigit f (n / 10)) (omega arith)
      ∙ many (scan-decimal f (n / 10) (ground arith)))
]
  where
    one_digit : n < 10 → scan 10 0 ((48 + n) ∷ []) ≡ n
    one_digit k = unfold scan in ground (arith, digit_lem n k)

    many : {k : ℕ} → k ≡ n / 10 → k * 10 + n % 10 ≡ n
    many e = omega arith

-- Only the number 0 is printed with a leading zero.
decimal_head :
    (f n : ℕ) → n < f → n ≢ 0 → (c : ℕ) × (s : Bytes) × (decimal f n ≡ c ∷ s) × (48 < c) × (c ≤ 57)
unfolding decimal
decimal_head zero n h k = absurd (omega arith)
decimal_head (suc f) n h k = elim (Bool-cases (ltb n 10)) [
  | inl small ↦ rw small (48 + n, [], refl, omega arith, omega (arith, ltb→lt n 10 small))
  | inr large ↦ rw large (
      let (c, s, e, lo, hi) = decimal_head f (n / 10) (ground arith) (ground arith) in
      (c, s ++ (48 + n % 10) ∷ [], ap (λ t. t ++ (48 + n % 10) ∷ []) e, lo, hi))
]

stoul_decimal :
    (n c : ℕ) (s t : Bytes) → t ≡ c ∷ s → 48 < c → c ≤ 57 → scan 10 0 t ≡ n → stoul t ≡ some n
unfolding stoul
stoul_decimal n c s t e lo hi h = rw e (ground (arith, ap (scan 10 0) e))

-- `std::stoul` in base 0 reads back every number that `std::to_string` prints.
pub stoul-to_string : (n : ℕ) → stoul (to_string n) ≡ some n
unfolding to_string
stoul-to_string zero = unfold stoul in refl
stoul-to_string (suc n) =
    let (c, s, e, lo, hi) = decimal_head (suc (suc n)) (suc n) (omega arith) (λ k. ground arith) in
    stoul_decimal (suc n) c s _ e lo hi (scan-decimal (suc (suc n)) (suc n) (omega arith))

some_inj : {a b : ℕ} → some a ≡ some b → a ≡ b
some_inj h = cc

pub to_string-injective : (a b : ℕ) → to_string a ≡ to_string b → a ≡ b
to_string-injective a b h = some_inj (sym (stoul-to_string a) ∙ (ap stoul h ∙ stoul-to_string b))
