-- ===== src/MockData/Drawn.antt =====
-- What `generateLog` and `generateInitialLogs` of web/src/lib/mockData.js draw.
use native.Mathlib.Nat.{mul-le-mul_right}
use hackathon.Common.{
  ℕ, zero, suc, ◌+◌, ◌-◌, ◌*◌, ◌^◌, ◌≤◌, ◌<◌, Option, none, some, List, [], ◌∷◌, ◌≡◌, refl, arith,
  Str, length, get_elem?, All, inl, inr, ◌⊎◌,
}
use hackathon.Common.Double.Rounding.{to_double_near}
use hackathon.MockData.{
  MockLog, MockLevel, critical, error, warn, info, debug, hosts, apps, envs, messages, pick,
  random_below, generate_log, initial_log, initial_from, generate_initial_logs,
}
use hackathon.MockData.Order.{AreDraws, NewestFirst, All-reverse, initial_logs-NewestFirst}

-- Rounding does not reach the end of the range.
random_below-bound : (j n k : ℕ) → n ≤ 2 ^ j → 2 ^ j < 2 * n → k < 2 ^ 53 → random_below n k < n
unfolding random_below
random_below-bound j n k most least below =
    let product = mul-le-mul_right {m = suc k} {n = 2 ^ 53} n (omega arith) in
    let near = to_double_near j (k * n) (omega (arith, product)) in omega (arith, near.0, product)

pub IsIn : Str → List Str → Type 0
IsIn x [] = ⊥
IsIn x (y ∷ ys) = (x ≡ y) ⊎ IsIn x ys

abbrev pub IsOneOf : List Str → Option Str → Type 0
IsOneOf xs none = ⊥
IsOneOf xs (some x) = IsIn x xs

IsIn-IsOneOf : (y : Str) (xs : List Str) (o : Option Str) → IsOneOf xs o → IsOneOf (y ∷ xs) o
unfolding IsIn
IsIn-IsOneOf y xs none h = elim h [ ]
IsIn-IsOneOf y xs (some x) h = inr h

get_elem?-IsOneOf : (xs : List Str) (i : ℕ) → i < length xs → IsOneOf xs (get_elem? xs i)
unfolding IsIn
get_elem?-IsOneOf [] i h = absurd (omega arith)
get_elem?-IsOneOf (x ∷ xs) zero h = inl refl
get_elem?-IsOneOf (x ∷ xs) (suc i) h =
    IsIn-IsOneOf x xs (get_elem? xs i) (get_elem?-IsOneOf xs i (omega arith))

pick-IsOneOf :
    (j : ℕ) (xs : List Str) (k : ℕ)
    → length xs ≤ 2 ^ j
    → 2 ^ j < 2 * length xs
    → k < 2 ^ 53
    → IsOneOf xs (pick xs k)
unfolding pick
pick-IsOneOf j xs k most least below =
    get_elem?-IsOneOf xs (random_below (length xs) k)
      (random_below-bound j (length xs) k most least below)

message-IsOneOf :
    (level : MockLevel) (k : ℕ) → k < 2 ^ 53 → IsOneOf (messages level) (pick (messages level) k)
unfolding messages
message-IsOneOf critical k h = pick-IsOneOf 2 (messages critical) k (omega arith) (omega arith) h
message-IsOneOf error k h = pick-IsOneOf 3 (messages error) k (omega arith) (omega arith) h
message-IsOneOf warn k h = pick-IsOneOf 3 (messages warn) k (omega arith) (omega arith) h
message-IsOneOf info k h = pick-IsOneOf 3 (messages info) k (omega arith) (omega arith) h
message-IsOneOf debug k h = pick-IsOneOf 3 (messages debug) k (omega arith) (omega arith) h

-- A log of the tables: its message is one of its level, and its numbers are in their ranges.
pub record IsDrawn (l : MockLog) : Type 0 where
  pub host : IsOneOf hosts l.host
  pub app : IsOneOf apps l.app
  pub env : IsOneOf envs l.env
  pub message : IsOneOf (messages l.level) l.message
  pub pid : (1 ≤ l.meta.pid) × (l.meta.pid ≤ 32768)
  pub facility : l.meta.facility < 24

module _ (iso : ℕ → Str) (draws : ℕ → ℕ) (below : AreDraws draws) where
  host-IsOneOf : (n : ℕ) → IsOneOf hosts (pick hosts (draws n))
  host-IsOneOf n = pick-IsOneOf 3 hosts (draws n) (omega arith) (omega arith) (below n)

  app-IsOneOf : (n : ℕ) → IsOneOf apps (pick apps (draws n))
  app-IsOneOf n = pick-IsOneOf 3 apps (draws n) (omega arith) (omega arith) (below n)

  env-IsOneOf : (n : ℕ) → IsOneOf envs (pick envs (draws n))
  env-IsOneOf n = pick-IsOneOf 2 envs (draws n) (omega arith) (omega arith) (below n)

  pid-bound : (n : ℕ) → random_below 32768 (draws n) < 32768
  pid-bound n = random_below-bound 15 32768 (draws n) (omega arith) (omega arith) (below n)

  facility-bound : (n : ℕ) → random_below 24 (draws n) < 24
  facility-bound n = random_below-bound 5 24 (draws n) (omega arith) (omega arith) (below n)

  initial_log-IsDrawn : (base i : ℕ) → IsDrawn (initial_log iso draws base i)
  unfolding initial_log
  initial_log-IsDrawn base i = record {
    host = host-IsOneOf (8 * i + 2);
    app = app-IsOneOf (8 * i + 3);
    env = env-IsOneOf (8 * i + 4);
    message = message-IsOneOf _ (draws (8 * i + 6)) (below (8 * i + 6));
    pid = (omega arith, omega (arith, pid-bound (8 * i + 5)));
    facility = facility-bound (8 * i + 7);
  }

  initial_from-IsDrawn : (base n i : ℕ) → All IsDrawn (initial_from iso draws base n i)
  unfolding initial_from
  initial_from-IsDrawn base zero i = tt
  initial_from-IsDrawn base (suc n) i =
      (initial_log-IsDrawn base i, initial_from-IsDrawn base n (suc i))

  pub generate_log-IsDrawn :
      (now counter : ℕ) → IsDrawn (generate_log iso draws (λ l. l) now counter).0
  unfolding generate_log
  generate_log-IsDrawn now counter = record {
    host = host-IsOneOf 1;
    app = app-IsOneOf 2;
    env = env-IsOneOf 3;
    message = message-IsOneOf _ (draws 6) (below 6);
    pid = (omega arith, omega (arith, pid-bound 4));
    facility = facility-bound 5;
  }

  -- Whatever is drawn, the initial logs are as many as asked for, each later than those behind it
  -- and with an id of its own, and each is of the tables: host, app and environment are some of
  -- theirs, the message is one of its level's, the process id is from 1 to 32768 and the facility
  -- below 24. They begin in 1970 or later, and `now` is below 2 ^ 43 ms. Sums and products of
  -- doubles are rounded.
  pub initial_logs-AreDrawn :
      (count now : ℕ)
      → count * 300 ≤ now
      → now < 2 ^ 43
      → (length (generate_initial_logs iso draws count now) ≡ count)
        × NewestFirst (generate_initial_logs iso draws count now)
        × All IsDrawn (generate_initial_logs iso draws count now)
  unfolding generate_initial_logs
  initial_logs-AreDrawn count now begins small =
      let (counted, newest) = initial_logs-NewestFirst iso draws below count now begins small in
      (counted, newest, All-reverse IsDrawn _ (initial_from-IsDrawn (now - count * 300) count 0))
