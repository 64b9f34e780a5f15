-- ===== src/Common/Number.antt =====
-- Decimal text: `parseInt(s, 10)` and `String(n)` for natural `n`.
use hackathon.Common.{
  ℕ, zero, suc, ◌+◌, ◌-◌, ◌*◌, ◌/◌, ◌%◌, ◌≤◌, ◌<◌, length, Bool, true, false, [], ◌∷◌, ◌++◌, ◌≡◌,
  ◌≢◌, refl, arith, Str, ltb, ◌==◌, if◌then◌else◌, is_space, is_digit, drop_while, take_while,
  Option, none, some, ◌∙◌, All,
}

-- `negsuc n` is -(n + 1).
pub data ℤ : Type 0 where
  pos : ℕ → ℤ
  negsuc : ℕ → ℤ

unfoldable pub digits_value : ℕ → Str → ℕ
digits_value acc [] = acc
digits_value acc (c ∷ s) = digits_value (acc * 10 + (c - b'0')) s

-- The digits after the sign; with none of them the result is NaN, here `none`.
parse_digits : Bool → Str → Option ℤ
unfolding take_while digits_value
parse_digits negative s = elim (take_while is_digit s) [
  | [] ↦ none
  | c ∷ ds ↦
      let n = digits_value 0 (c ∷ ds) in
      some (if negative then elim n [ zero ↦ pos 0 | suc m ↦ negsuc m ] else pos n)
]

parse_signed : Str → Option ℤ
unfolding parse_digits
parse_signed [] = none
parse_signed (c ∷ s) =
    if c == b'-'
    then parse_digits true s
    else if c == b'+'
    then parse_digits false s
    else parse_digits false (c ∷ s)

-- `Number.parseInt(s, 10)` before rounding to a double: exact below 2 ^ 53.
unfoldable pub parse_int : Str → Option ℤ
unfolding parse_signed drop_while is_space
parse_int s = parse_signed (drop_while is_space s)

-- `String(n)`. `n` rounds are enough fuel.
decimal_from : ℕ → ℕ → Str → Str
decimal_from zero n acc = (b'0' + n % 10) ∷ acc
decimal_from (suc f) n acc =
    let rest = decimal_from f (n / 10) ((b'0' + n % 10) ∷ acc) in
    if ltb n 10 then (b'0' + n % 10) ∷ acc else rest

unfoldable pub decimal : ℕ → Str
unfolding decimal_from
decimal n = decimal_from n n []

abbrev pub AreDigits : Str → Type 0
AreDigits = All (λ c. is_digit c ≡ true)

digits_value-decimal_from :
    (f n : ℕ) (s : Str) → n ≤ f → digits_value 0 (decimal_from f n s) ≡ digits_value n s
unfolding digits_value decimal_from
digits_value-decimal_from zero n s h = ground arith
digits_value-decimal_from (suc f) n s h =
    ground (arith, digits_value-decimal_from f (n / 10) ((b'0' + n % 10) ∷ s))

decimal_from-AreDigits : (f n : ℕ) (s : Str) → AreDigits s → AreDigits (decimal_from f n s)
unfolding decimal_from
decimal_from-AreDigits zero n s h = ground arith
decimal_from-AreDigits (suc f) n s h =
    ground (arith, decimal_from-AreDigits f (n / 10) ((b'0' + n % 10) ∷ s))

decimal_from-ne-nil : (f n c : ℕ) (s : Str) → decimal_from f n (c ∷ s) ≢ []
unfolding decimal_from
decimal_from-ne-nil zero n c s = cc
decimal_from-ne-nil (suc f) n c s =
    ground (arith, decimal_from-ne-nil f (n / 10) (b'0' + n % 10) (c ∷ s))

pub decimal-AreDigits : (n : ℕ) → AreDigits (decimal n)
unfolding decimal
decimal-AreDigits n = decimal_from-AreDigits n n [] tt

pub decimal-ne-nil : (n : ℕ) → decimal n ≢ []
unfolding decimal
decimal-ne-nil zero = cc
decimal-ne-nil (suc n) = ground (arith, decimal_from-ne-nil n (suc n / 10) (b'0' + suc n % 10) [])

pub digits_value-decimal : (n : ℕ) → digits_value 0 (decimal n) ≡ n
unfolding decimal
digits_value-decimal n =
    digits_value-decimal_from n n [] (omega arith) ∙ unfold digits_value in refl

-- 10 to the power of the argument.
abbrev pub power : ℕ → ℕ
power zero = 1
power (suc k) = 10 * power k

tenth : (m n : ℕ) → n < 10 * m → n / 10 < m
tenth m n h = omega arith

length-decimal_from :
    (k f n : ℕ) (s : Str) → n < power (suc k) → length (decimal_from f n s) ≤ suc (k + length s)
unfolding decimal_from
length-decimal_from k zero n s h = omega arith
length-decimal_from zero (suc f) n s h = ground arith
length-decimal_from (suc k) (suc f) n s h =
    ground
      (arith, length-decimal_from k f (n / 10) ((b'0' + n % 10) ∷ s) (tenth (power (suc k)) n h))

pub length-decimal : (k n : ℕ) → n < power (suc k) → length (decimal n) ≤ suc k
unfolding decimal
length-decimal k n h = omega (arith, length-decimal_from k n n [] h)

-- The text does not begin with a digit.
abbrev pub IsNoDigit : Str → Type 0
IsNoDigit [] = Unit
IsNoDigit (c ∷ s) = is_digit c ≡ false

take_while-digits :
    (ds rest : Str) → AreDigits ds → IsNoDigit rest → take_while is_digit (ds ++ rest) ≡ ds
unfolding take_while
take_while-digits [] [] h k = refl
take_while-digits [] (c ∷ rest) h k = rw k
take_while-digits (d ∷ ds) rest h k = rw (h.0, take_while-digits ds rest h.1 k)

-- Digits are read up to the first unit that is none.
pub parse_int_digits :
    (ds rest : Str)
    → AreDigits ds
    → ds ≢ []
    → IsNoDigit rest
    → parse_int (ds ++ rest) ≡ some (pos (digits_value 0 ds))
unfolding parse_int
parse_int_digits [] rest h ne k = absurd (ne refl)
parse_int_digits (d ∷ ds) rest h ne k = ground (arith, take_while-digits (d ∷ ds) rest h k)
