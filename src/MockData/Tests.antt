-- ===== src/MockData/Tests.antt =====
-- web/src/lib/mockData.js at concrete draws.
use hackathon.Common.{ℕ, ◌*◌, ◌%◌, ◌-◌, ◌^◌, some, ◌≡◌, refl, arith, codes, length}
use hackathon.Common.Double.{to_double, ulp}
use hackathon.Common.Number.{decimal}
use hackathon.MockData.{
  critical, error, debug, random_level, weighted_random, random_below, pick, hosts,
}
use hackathon.MockData.Histogram.{bucket_base, share_of, generate_histogram_data}
use hackathon.MockData.Order.{AreDraws}

abbrev some_draws : ℕ → ℕ
some_draws n = n * 123456789012345 % 2 ^ 53

some_draws-AreDraws : AreDraws some_draws
some_draws-AreDraws n = omega arith

-- The levels at the first and the last draw, and around the first bound.
level_bounds :
    (random_level 0 ≡ critical)
    × (random_level 180143985094819 ≡ critical)
    × (random_level 180143985094820 ≡ error)
    × (random_level (2 ^ 53 - 1) ≡ debug)
unfolding weighted_random to_double ulp
level_bounds = (refl, refl, refl, refl)

last_host : pick hosts (2 ^ 53 - 1) ≡ some (codes "gateway")
unfolding pick random_below to_double ulp
last_host = refl

-- A quarter of an hour in half minutes.
histogram_length : length (generate_histogram_data decimal some_draws 15 1 1700000000000) ≡ 30
unfolding generate_histogram_data
histogram_length = refl

highest_base :
    (bucket_base (2 ^ 53 - 1) (2 ^ 52) ≡ 16000 * 2 ^ 53)
    × (share_of (16000 * 2 ^ 53) 187349744498612640 (2 ^ 52) ≡ 5200)
unfolding bucket_base share_of to_double ulp
highest_base = (refl, refl)
