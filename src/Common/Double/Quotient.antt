-- ===== src/Common/Double/Quotient.antt =====
-- Quotients of whole numbers as JavaScript doubles, and `toFixed`. A quotient stands in units of
-- 2 ^ -65, in which one of at least 2 ^ -11 keeps two digits more than its 53: behind these, a last
-- digit says whether anything was cut off.
use hackathon.Common.{ℕ, ◌+◌, ◌*◌, ◌/◌, ◌%◌, ◌^◌, ◌≤◌, ◌<◌, arith, ◌==◌, if◌then◌else◌}
use hackathon.Common.Double.{to_double}
use hackathon.Common.Double.Rounding.{to_double_near}

-- `n / d`, at least 2 ^ -11.
unfoldable pub double_quotient : ℕ → ℕ → ℕ
double_quotient n d = to_double (2 * (n * 2 ^ 64 / d) + (if n * 2 ^ 64 % d == 0 then 0 else 1))

-- The whole number `k` for which `k / scale` is nearest to a quotient, the larger one of two: the
-- digits of `toFixed`, where `scale` is 10 to the power of their count.
unfoldable pub fixed_digits : ℕ → ℕ → ℕ
fixed_digits scale x = (2 * (x * scale) + 2 ^ 65) / 2 ^ 66

double_quotient-near :
    (n : ℕ)
    → n < 1000000
    → (2000 * double_quotient n 1000 ≤ n * 2 ^ 66 + 2 ^ 34)
      × (n * 2 ^ 66 ≤ 2000 * double_quotient n 1000 + 2 ^ 34)
unfolding double_quotient
double_quotient-near n small =
    let last = if n * 2 ^ 64 % 1000 == 0 then 0 else 1 in
    let m = 2 * (n * 2 ^ 64 / 1000) + last in
    let one : last ≤ 1 = ground arith in
    let near = to_double_near 22 m (omega arith) in (omega (arith, near.0), omega (arith, near.1))

-- A number of thousandths below 1000 is shown with one digit behind the point that is off by at
-- most half of its unit.
pub fixed_tenths-near :
    (n : ℕ)
    → n < 1000000
    → (100 * fixed_digits 10 (double_quotient n 1000) ≤ n + 50)
      × (n ≤ 100 * fixed_digits 10 (double_quotient n 1000) + 50)
unfolding fixed_digits
fixed_tenths-near n small =
    let (above, below) = double_quotient-near n small in
    (omega (arith, above, below), omega (arith, above, below))
