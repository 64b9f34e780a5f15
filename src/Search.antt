-- ===== src/Search.antt =====
-- server/src/controllers/queryController.js: `handleSearch`, and web/src/lib/api.js, its client.
-- JavaScript's doubles, which hold the times, are the parameter `Numbers`.
pub mod Laws
pub mod Client
pub mod Tests
use hackathon.Common.{
  ℕ, ◌+◌, Bool, true, false, not, ◌||◌, Option, none, some, List, [], ◌∷◌, ◌≡◌, Str, codes, ltb,
  if◌then◌else◌, length,
}
use hackathon.Common.Number.{ℤ, pos, negsuc, parse_int}
use hackathon.Engine.{LogEntry, QueryRequest, QueryResponse, Reply, failed, answered}

-- What the handler uses of doubles. The laws: multiplying by 1e6 and truncating keeps the order,
-- rounding included, and does not make a number negative.
pub record Numbers : Type 1 where
  pub Num : Type 0
  pub number : Str → Num  -- `Number(text)`
  pub of_ms : ℕ → Num  -- the value of `Date.now()`
  pub zero : Num
  pub is_finite : Num → Bool
  pub lt : Num → Num → Bool
  pub nano : Num → Num  -- `Math.trunc(x * 1e6)`
  pub nano_mono :
      (a b : Num)
      → is_finite a ≡ true
      → is_finite b ≡ true
      → lt b a ≡ false
      → lt (nano b) (nano a) ≡ false
  pub nano_nonneg : (a : Num) → is_finite a ≡ true → lt a zero ≡ false → lt (nano a) zero ≡ false

-- `req.query`: `none` is a parameter that is not given. One that is given twice is not modelled.
pub record SearchQuery : Type 0 where
  pub term : Option Str
  pub start_time : Option Str
  pub end_time : Option Str
  pub limit : Option Str

-- The status and the body of a response.
pub data Answer : Type 0 where
  bad_request : Answer
  bad_gateway : (details : Str) → Answer
  found : (count : ℕ) (total_found : Str) (logs : List LogEntry) → Answer

-- What the handler does before it returns: it answers, or it asks the engine.
pub data Handled (Time : Type 0) : Type 0 where
  responds : Answer → Handled Time
  asks : QueryRequest Time → Handled Time

abbrev pub or_default {ℓ} : {A : Type ℓ} → Option A → A → A
or_default none d = d
or_default (some a) d = a

-- `parsedLimit`, where the limit defaults to 100.
abbrev pub parsed_limit : Option Str → Option ℤ
parsed_limit none = some (pos 100)
parsed_limit (some text) = parse_int text

-- The limit, if it is an integer from 1 to 5000.
unfoldable pub valid_limit : Option ℤ → Option ℕ
valid_limit none = none
valid_limit (some (negsuc n)) = none
valid_limit (some (pos n)) = if ltb n 1 || ltb 5000 n then none else some n

module _ (numbers : Numbers) where
  open numbers use {Num, number, of_ms, zero, is_finite, lt, nano}

  abbrev pub time_or : Option Str → Num → Num
  time_or none d = d
  time_or (some text) d = number text

  unfoldable pub handle_search : SearchQuery → ℕ → Handled Num
  unfolding valid_limit
  handle_search q now =
      let start_ms = time_or q.start_time zero in
      let end_ms = time_or q.end_time (of_ms now) in
      let times_bad =
        not (is_finite start_ms)
        || not (is_finite end_ms)
        || lt start_ms zero
        || lt end_ms start_ms in
      if times_bad then responds bad_request else elim (valid_limit (parsed_limit q.limit)) [
        | none ↦ responds bad_request
        | some n ↦ asks (record {
          term = or_default q.term [];
          start_time_nano = nano start_ms;
          end_time_nano = nano end_ms;
          limit = n;
        })
      ]

-- The callback of `client.Query`. `logs` and `total_found` have defaults, so `??` and `||` never
-- fall back.
unfoldable pub answer_search : Reply → Answer
answer_search (failed message) = bad_gateway message
answer_search (answered r) = elim r.error [
  | [] ↦ found (length r.logs) r.total_found r.logs
  | c ∷ s ↦ bad_gateway (c ∷ s)
]
