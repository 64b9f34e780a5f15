-- ===== src/Common/Double.antt =====
-- Whole numbers as JavaScript doubles: the nearest multiple of the unit in the last place, ties to
-- an even significand. Values of 2 ^ 1024 and above, which become `Infinity`, do not occur.
pub mod Rounding
pub mod Quotient
use hackathon.Common.{
  ℕ, zero, suc, ◌+◌, ◌*◌, ◌/◌, ◌%◌, ◌^◌, ◌<◌, ◌≡◌, refl, arith, ltb, if◌then◌else◌,
}

-- The unit in the last place of a number with 53 significant bits. `n` rounds are enough fuel.
pub ulp_from : ℕ → ℕ → ℕ
ulp_from zero n = 1
ulp_from (suc f) n = let wider = 2 * ulp_from f (n / 2) in if ltb n (2 ^ 53) then 1 else wider

unfoldable pub ulp : ℕ → ℕ
unfolding ulp_from
ulp n = ulp_from n n

pub half_even : ℕ → ℕ → ℕ
half_even n u =
    if ltb (2 * (n % u)) u
    then n / u * u
    else if ltb u (2 * (n % u))
    then (n / u + 1) * u
    else (n / u + n / u % 2) * u

unfoldable pub to_double : ℕ → ℕ
unfolding half_even
to_double n = half_even n (ulp n)

ulp_exact : (n : ℕ) → n < 2 ^ 53 → ulp n ≡ 1
unfolding ulp
ulp_exact zero h = refl
ulp_exact (suc n) h = ground arith

pub to_double_exact : (n : ℕ) → n < 2 ^ 53 → to_double n ≡ n
unfolding to_double
to_double_exact n h = rw (ulp_exact n h) (ground arith)
