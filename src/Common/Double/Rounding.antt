-- ===== src/Common/Double/Rounding.antt =====
-- Bounds on the rounding of whole numbers to doubles.
use native.Mathlib.Nat.{mul-le-mul_right, div-add-mod, mod-lt}
use hackathon.Common.{ℕ, zero, suc, ◌+◌, ◌*◌, ◌/◌, ◌%◌, ◌^◌, ◌≤◌, ◌<◌, ◌≡◌, arith, ◌⊎◌, inl, inr}
use hackathon.Common.Double.{ulp, ulp_from, half_even, to_double}

twice : (k : ℕ) → 2 ^ suc k ≡ 2 * 2 ^ k
twice k = omega arith

pub lt_or_le : (m n : ℕ) → (m < n) ⊎ (n ≤ m)
lt_or_le zero zero = inr (omega arith)
lt_or_le zero (suc n) = inl (omega arith)
lt_or_le (suc m) zero = inr (omega arith)
lt_or_le (suc m) (suc n) = elim (lt_or_le m n) [
  | inl h ↦ inl (omega (arith, h))
  | inr h ↦ inr (omega (arith, h))
]

ulp_from-below : (f n : ℕ) → n < 2 ^ 53 → ulp_from (suc f) n ≡ 1
unfolding ulp_from
ulp_from-below f n h = ground arith

ulp_from-above : (f n : ℕ) → 2 ^ 53 ≤ n → ulp_from (suc f) n ≡ 2 * ulp_from f (n / 2)
unfolding ulp_from
ulp_from-above f n h = ground arith

-- The unit in the last place divides every power of two that is not below it.
ulp_from-divides :
    (k f n : ℕ)
    → n ≤ f
    → n < 2 ^ 53 * 2 ^ k
    → (q : ℕ) × (q * ulp_from f n ≡ 2 ^ k) × (0 < ulp_from f n)
unfolding ulp_from
ulp_from-divides k zero n h small = (2 ^ k, omega arith, omega arith)
ulp_from-divides zero (suc f) n h small =
    let e = ulp_from-below f n (omega (arith, small)) in (1, omega (arith, e), omega (arith, e))
ulp_from-divides (suc k) (suc f) n h small = elim (lt_or_le n (2 ^ 53)) [
  | inl under ↦
      let e = ulp_from-below f n under in (2 ^ suc k, rw e (omega arith), omega (arith, e))
  | inr big ↦
      let (q, e, some_) = ulp_from-divides k f (n / 2) (omega arith) (omega (arith, twice k)) in
      let wider = ulp_from-above f n big in
      (q, rw wider (omega (arith, e, twice k)), omega (arith, wider, some_))
]

quotient_least : (n u q : ℕ) → 0 < u → q * u ≤ n → q ≤ n / u
quotient_least n u q some_ h = elim (lt_or_le (n / u) q) [
  | inr le ↦ le
  | inl gt ↦ absurd (
      omega (
        arith,
        mul-le-mul_right {m = suc (n / u)} {n = q} u (omega arith),
        div-add-mod n u,
        mod-lt n some_,
      ))
]

-- Above a multiple of the unit the quotient is less, or there is nothing to round.
quotient_most : (n u q : ℕ) → 0 < u → n ≤ q * u → (suc (n / u) ≤ q) ⊎ ((n % u ≡ 0) × (n / u ≡ q))
quotient_most n u q some_ h = elim (lt_or_le (n / u) q) [
  | inl lt ↦ inl (omega arith)
  | inr ge ↦ inr (
    omega (arith, mul-le-mul_right u ge, div-add-mod n u),
    elim (lt_or_le q (n / u)) [
      | inr le ↦ omega arith
      | inl gt ↦
          absurd (
            omega
              (arith, mul-le-mul_right {m = suc q} {n = n / u} u (omega arith), div-add-mod n u))
    ],
  )
]

half_even_least : (n u q : ℕ) → 0 < u → q * u ≤ n → q * u ≤ half_even n u
unfolding half_even
half_even_least n u q some_ h =
    let le = mul-le-mul_right u (quotient_least n u q some_ h) in ground (arith, le)

half_even_most : (n u q : ℕ) → 0 < u → n ≤ q * u → half_even n u ≤ q * u
unfolding half_even
half_even_most n u q some_ h = elim (quotient_most n u q some_ h) [
  | inl lt ↦
      let le = mul-le-mul_right u lt in
      let even = mul-le-mul_right {m = n / u % 2} {n = 1} u (omega arith) in
      ground (arith, le, even)
  | inr (flat, e) ↦ ground (arith, flat, e)
]

half_even_near :
    (n u : ℕ) → 0 < u → (2 * half_even n u ≤ 2 * n + u) × (2 * n ≤ 2 * half_even n u + u)
unfolding half_even
half_even_near n u some_ =
    let even = mul-le-mul_right {m = n / u % 2} {n = 1} u (omega arith) in
    ground (arith, div-add-mod n u, mod-lt n some_, even)

ulp-divides : (k n : ℕ) → n < 2 ^ 53 * 2 ^ k → (q : ℕ) × (q * ulp n ≡ 2 ^ k) × (0 < ulp n)
unfolding ulp
ulp-divides k n small = ulp_from-divides k n n (omega arith) small

-- A number of at most 53 + k bits is rounded within any bounds that are multiples of 2 ^ k.
pub to_double_least : (k a n : ℕ) → n < 2 ^ 53 * 2 ^ k → a * 2 ^ k ≤ n → a * 2 ^ k ≤ to_double n
unfolding to_double
to_double_least k a n small h =
    let (q, e, some_) = ulp-divides k n small in
    let same : a * 2 ^ k ≡ a * q * ulp n = rw (← e) (omega arith) in
    rw same (half_even_least n (ulp n) (a * q) some_ (omega arith))

pub to_double_most : (k a n : ℕ) → n < 2 ^ 53 * 2 ^ k → n ≤ a * 2 ^ k → to_double n ≤ a * 2 ^ k
unfolding to_double
to_double_most k a n small h =
    let (q, e, some_) = ulp-divides k n small in
    let same : a * 2 ^ k ≡ a * q * ulp n = rw (← e) (omega arith) in
    rw same (half_even_most n (ulp n) (a * q) some_ (omega arith))

factor_le : (q u p : ℕ) → q * u ≡ p → 0 < p → u ≤ p
factor_le zero u p e h = absurd (omega arith)
factor_le (suc q) u p e h = omega arith

-- It is off by at most 2 ^ k / 2.
pub to_double_near :
    (k n : ℕ)
    → n < 2 ^ 53 * 2 ^ k
    → (2 * to_double n ≤ 2 * n + 2 ^ k) × (2 * n ≤ 2 * to_double n + 2 ^ k)
unfolding to_double
to_double_near k n small =
    let (q, e, some_) = ulp-divides k n small in
    let (above, below) = half_even_near n (ulp n) some_ in
    let wide : ulp n ≤ 2 ^ k = factor_le q (ulp n) (2 ^ k) e (omega arith) in
    (omega arith, omega arith)
