-- ===== src/Text.antt =====
-- The text functions of the C++ library that the sources call: `std::to_string` of an unsigned
-- number, and `std::stoul(s, nullptr, 0)`, which chooses the base by the prefix of the text.
pub mod RoundTrip
use rath_db.Common.{
  ℕ, zero, suc, ◌+◌, ◌-◌, ◌*◌, ◌/◌, ◌%◌, Bool, true, false, ◌&&◌, ◌||◌, Option, none, some, List,
  [], ◌∷◌, ◌++◌, Bytes, ltb, leb, ◌==◌, if◌then◌else◌,
}

-- The decimal digits of `n`, the highest first; more fuel than digits is enough.
decimal : ℕ → ℕ → Bytes
decimal zero n = []
decimal (suc fuel) n =
    let rest = decimal fuel (n / 10) ++ (b'0' + n % 10) ∷ [] in
    if ltb n 10 then (b'0' + n) ∷ [] else rest

-- `std::to_string(n)`.
unfoldable pub to_string : ℕ → Bytes
unfolding decimal
to_string n = decimal (suc n) n

-- The value of a character as a digit; 16 and more for a character that is no digit.
digit : ℕ → ℕ
digit c =
    if leb b'0' c && leb c b'9'
    then c - b'0'
    else if leb b'a' c && leb c b'f'
    then c - b'a' + 10
    else if leb b'A' c && leb c b'F'
    then c - b'A' + 10
    else 16

-- Reads digits of the base up to the first character that is none.
scan : ℕ → ℕ → Bytes → ℕ
scan base acc [] = acc
scan base acc (c ∷ s) =
    let rest = scan base (acc * base + digit c) s in if ltb (digit c) base then rest else acc

-- At least one digit has to be there, else `std::invalid_argument` is thrown.
scan_some : ℕ → Bytes → Option ℕ
scan_some base [] = none
scan_some base (c ∷ s) = if ltb (digit c) base then some (scan base 0 (c ∷ s)) else none

-- After a leading zero: `0x` and a hexadecimal digit, or octal.
prefixed : Bytes → Option ℕ
prefixed [] = some 0
prefixed (c ∷ []) = some (scan 8 0 (c ∷ []))
prefixed (x ∷ d ∷ s) =
    if (x == b'x' || x == b'X') && ltb (digit d) 16
    then some (scan 16 0 (d ∷ s))
    else some (scan 8 0 (x ∷ d ∷ s))

-- `std::stoul(s, nullptr, 0)`; `none` is `std::invalid_argument`. The texts that reach it here have
-- neither leading blanks nor a sign, which are not modelled, and are too short to overflow.
unfoldable pub stoul : Bytes → Option ℕ
unfolding digit scan scan_some prefixed
stoul [] = none
stoul (c ∷ s) = if c == b'0' then prefixed s else scan_some 10 (c ∷ s)
