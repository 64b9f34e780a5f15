-- ===== src/MockData/Order.antt =====
-- `generateInitialLogs` of web/src/lib/mockData.js: the newest log comes first.
use hackathon.Common.{
  ℕ, zero, suc, ◌+◌, ◌-◌, ◌*◌, ◌^◌, ◌≤◌, ◌<◌, List, [], ◌∷◌, ◌++◌, ◌≡◌, ◌≢◌, refl, ap, ◌∙◌, arith,
  Str, length, length-append, reverse, reverse-cons, All, All-append, drop,
}
use hackathon.Common.Double.{to_double}
use hackathon.Common.Double.Rounding.{to_double_least, to_double_most, to_double_near}
use hackathon.Common.Number.{digits_value, digits_value-decimal}
use hackathon.MockData.{MockLog, initial_time, initial_log, initial_from, generate_initial_logs}

-- The draws are below 1.
abbrev pub AreDraws : (ℕ → ℕ) → Type 0
AreDraws draws = (n : ℕ) → draws n < 2 ^ 53

-- The log `i` has its time in the first 200 ms of its 300.
initial_time-bounds :
    (draws : ℕ → ℕ) (base i : ℕ)
    → AreDraws draws
    → base + i * 300 + 200 < 2 ^ 53
    → ((base + i * 300) * 2 ^ 53 ≤ initial_time draws base i)
      × (initial_time draws base i ≤ (base + i * 300 + 200) * 2 ^ 53)
unfolding initial_time
initial_time-bounds draws base i below small =
    let k = draws (8 * i) in
    let fits : k * 200 < 2 ^ 53 * 2 ^ 53 = omega (arith, below (8 * i)) in
    let spread = to_double_most 53 200 (k * 200) fits (omega (arith, below (8 * i))) in
    let n = (base + i * 300) * 2 ^ 53 + to_double (k * 200) in
    (
      to_double_least 53 (base + i * 300) n (omega (arith, spread)) (omega arith),
      to_double_most 53 (base + i * 300 + 200) n (omega (arith, spread)) (omega (arith, spread)),
    )

-- Nanoseconds of times that are 100 ms apart.
nano-increases :
    (t u : ℕ)
    → t + 100 * 2 ^ 53 ≤ u
    → u < 2 ^ 43 * 2 ^ 53
    → to_double (t * 1000000) < to_double (u * 1000000)
nano-increases t u apart small = omega (
  arith,
  to_double_near 63 (t * 1000000) (omega arith),
  to_double_near 63 (u * 1000000) (omega arith),
)

pub record IsNewer (x y : MockLog) : Type 0 where
  pub later : y.timestamp_ns < x.timestamp_ns
  pub other_id : x.id ≢ y.id

abbrev pub NewestFirst : List MockLog → Type 0
NewestFirst [] = Unit
NewestFirst (x ∷ xs) = All (IsNewer x) xs × NewestFirst xs

NewestFirst-append :
    (xs : List MockLog) (y : MockLog)
    → NewestFirst xs
    → All (λ x. IsNewer x y) xs
    → NewestFirst (xs ++ y ∷ [])
NewestFirst-append [] y h k = (tt, tt)
NewestFirst-append (x ∷ xs) y (h, hs) (k, ks) =
    (All-append (IsNewer x) xs (y ∷ []) h (k, tt), NewestFirst-append xs y hs ks)

pub All-reverse : (P : MockLog → Type 0) (xs : List MockLog) → All P xs → All P (reverse xs)
All-reverse P [] h = tt
All-reverse P (x ∷ xs) (h, hs) =
    rw (reverse-cons x xs) (All-append P (reverse xs) (x ∷ []) (All-reverse P xs hs) (h, tt))

length-reverse : (xs : List MockLog) → length (reverse xs) ≡ length xs
length-reverse [] = refl
length-reverse (x ∷ xs) =
    rw (reverse-cons x xs) (omega (arith, length-append (reverse xs) (x ∷ []), length-reverse xs))

module _ (iso : ℕ → Str) (draws : ℕ → ℕ) (below : AreDraws draws) where
  initial_log-IsNewer :
      (base i j : ℕ)
      → i < j
      → base + j * 300 + 200 < 2 ^ 43
      → IsNewer (initial_log iso draws base j) (initial_log iso draws base i)
  unfolding initial_log
  initial_log-IsNewer base i j lt small =
      let (_, first) = initial_time-bounds draws base i below (omega arith) in
      let (least, most) = initial_time-bounds draws base j below (omega arith) in
      record {
        later = nano-increases _ _ (omega arith) (omega arith);
        other_id = λ e.
            let same = ap (λ s. digits_value 0 (drop 9 s)) e in
            omega (arith, same, digits_value-decimal i, digits_value-decimal j);
      }

  later_logs :
      (base n i j : ℕ)
      → i < j
      → base + (j + n) * 300 < 2 ^ 43
      → All (λ x. IsNewer x (initial_log iso draws base i)) (initial_from iso draws base n j)
  unfolding initial_from
  later_logs base zero i j lt small = tt
  later_logs base (suc n) i j lt small = (
    initial_log-IsNewer base i j lt (omega arith),
    later_logs base n i (suc j) (omega arith) (omega arith),
  )

  reverse-NewestFirst :
      (base n i : ℕ)
      → base + (i + n) * 300 < 2 ^ 43
      → NewestFirst (reverse (initial_from iso draws base n i))
  unfolding initial_from
  reverse-NewestFirst base zero i small = tt
  reverse-NewestFirst base (suc n) i small =
      let rest = initial_from iso draws base n (suc i) in
      rw (reverse-cons (initial_log iso draws base i) rest) (
        NewestFirst-append (reverse rest) (initial_log iso draws base i)
          (reverse-NewestFirst base n (suc i) (omega arith))
          (All-reverse _ rest (later_logs base n i (suc i) (omega arith) (omega arith))))

  length-initial_from : (base n i : ℕ) → length (initial_from iso draws base n i) ≡ n
  unfolding initial_from
  length-initial_from base zero i = refl
  length-initial_from base (suc n) i = ap suc (length-initial_from base n (suc i))

  pub initial_logs-NewestFirst :
      (count now : ℕ)
      → count * 300 ≤ now
      → now < 2 ^ 43
      → (length (generate_initial_logs iso draws count now) ≡ count)
        × NewestFirst (generate_initial_logs iso draws count now)
  unfolding generate_initial_logs
  initial_logs-NewestFirst count now begins small =
      let base = now - count * 300 in
      (
        length-reverse (initial_from iso draws base count 0) ∙ length-initial_from base count 0,
        reverse-NewestFirst base count 0 (omega arith),
      )
