-- ===== src/MockData/Histogram.antt =====
-- `generateHistogramData` of web/src/lib/mockData.js.
use hackathon.Common.{
  ℕ, zero, suc, ◌+◌, ◌-◌, ◌*◌, ◌/◌, ◌^◌, List, [], ◌∷◌, Str, ltb, take, drop, if◌then◌else◌,
}
use hackathon.Common.Double.{to_double}

pub record Bucket : Type 0 where
  pub time : Str
  pub critical : ℕ
  pub error : ℕ
  pub warn : ℕ
  pub info : ℕ
  pub debug : ℕ

-- `Math.floor(base * share * Math.random())`, for a base in units of 2 ^ -53 and a share in units of
-- 2 ^ -58.
unfoldable pub share_of : ℕ → ℕ → ℕ → ℕ
share_of base share k = to_double (to_double (base * share) * k) / 2 ^ 164

-- `base`, in units of 2 ^ -53. The first draw is above 0.85 at a spike.
unfoldable pub bucket_base : ℕ → ℕ → ℕ
bucket_base spike k =
    if ltb 244995819728954976 (32 * spike)
    then to_double (to_double (k * 8000) + 12000 * 2 ^ 53)
    else to_double (to_double (k * 4000) + 2000 * 2 ^ 53)

-- `label` is `t.toISOString().substr(11, 5)`.
abbrev pub time_label : Str → Str
time_label s = take 5 (drop 11 s)

module _ (iso : ℕ → Str) (draws : ℕ → ℕ) where
  -- The bucket that begins `i` intervals before `now`, with its draws from the place `d` on.
  unfoldable pub bucket : ℕ → ℕ → ℕ → ℕ → Bucket
  unfolding share_of bucket_base
  bucket now interval_ms i d =
      let base = bucket_base (draws d) (draws (d + 1)) in
      record {
        time = time_label (iso (now - i * interval_ms));
        critical = share_of base 5764607523034235 (draws (d + 2));
        error = share_of base 23058430092136940 (draws (d + 3));
        warn = share_of base 28823037615171176 (draws (d + 4));
        info = share_of base 187349744498612640 (draws (d + 5));
        debug = share_of base 43234556422756760 (draws (d + 6));
      }

  pub buckets_from : ℕ → ℕ → ℕ → ℕ → List Bucket
  unfolding bucket
  buckets_from now interval_ms zero d = []
  buckets_from now interval_ms (suc i) d =
      bucket now interval_ms i d ∷ buckets_from now interval_ms i (d + 7)

  -- For an interval of `halves` half minutes, at least one, that `minutes` may not fill, at
  -- `Date.now()`.
  unfoldable pub generate_histogram_data : ℕ → ℕ → ℕ → List Bucket
  unfolding buckets_from
  generate_histogram_data minutes halves now =
      buckets_from now (halves * 30000) ((2 * minutes + (halves - 1)) / halves) 0
