-- ===== src/MockData.antt =====
-- web/src/lib/mockData.js. `Math.random()` is k / 2 ^ 53, as browsers have it: the calls of a
-- function draw the numbers k one after the other from `draws`. Doubles stand in units of a power
-- of two, in which they are whole, and every operation rounds as doubles do. `iso` is
-- `new Date(ms).toISOString()`, which drops the fraction of `ms`.
mod Tables
pub mod Histogram
pub mod Order
pub mod Drawn
pub mod Tests
use hackathon.Common.{
  ℕ, zero, suc, ◌+◌, ◌-◌, ◌*◌, ◌/◌, ◌%◌, ◌^◌, Bool, true, false, Option, none, some, List, [], ◌∷◌,
  ◌++◌, Str, codes, ltb, ◌==◌, length, get_elem?, take, drop, reverse, if◌then◌else◌,
}
use hackathon.Common.Double.{to_double}
use hackathon.Common.Number.{decimal}
unfoldable pub use Tables.*

-- `weights[i]` in units of 2 ^ -58. A missing weight makes the sum NaN, so that no test holds.
weighted_from {ℓ} : {A : Type ℓ} → ℕ → ℕ → A → List A → List ℕ → A
weighted_from r sum last [] ws = last
weighted_from r sum last (x ∷ xs) [] = last
weighted_from r sum last (x ∷ xs) (w ∷ ws) =
    let next = to_double (sum + w) in
    let rest = weighted_from r next last xs ws in if ltb r next then x else rest

abbrev last_of {ℓ} : {A : Type ℓ} → A → List A → A
last_of x [] = x
last_of x (y ∷ ys) = last_of y ys

-- `weightedRandom` of the items `x ∷ xs` for the draw k.
unfoldable pub weighted_random {ℓ} : {A : Type ℓ} → A → List A → List ℕ → ℕ → A
unfolding weighted_from
weighted_random x xs weights k = weighted_from (32 * k) 0 (last_of x xs) (x ∷ xs) weights

abbrev pub random_level : ℕ → MockLevel
random_level k = weighted_random critical (error ∷ warn ∷ info ∷ debug ∷ []) level_weights k

-- `Math.floor(Math.random() * n)`
unfoldable pub random_below : ℕ → ℕ → ℕ
random_below n k = to_double (k * n) / 2 ^ 53

-- `items[Math.floor(Math.random() * items.length)]`, which is `undefined` out of range.
unfoldable pub pick : List Str → ℕ → Option Str
unfolding random_below
pick items k = get_elem? items (random_below (length items) k)

-- `${s}`
abbrev pub shown_text : Option Str → Str
shown_text none = codes "undefined"
shown_text (some s) = s

pub record MockMeta : Type 0 where
  pub pid : ℕ
  pub facility : ℕ
  pub stream : Str
  pub path : Str
  pub status : ℕ

-- `timestamp_ns` is in units of 2 ^ -53.
pub record MockLog : Type 0 where
  pub id : Str
  pub timestamp_ns : ℕ
  pub timestamp : Str
  pub level : MockLevel
  pub host : Option Str
  pub app : Option Str
  pub env : Option Str
  pub message : Option Str
  pub meta : MockMeta

abbrev pub status_of : MockLevel → ℕ
status_of critical = 500
status_of error = 500
status_of warn = 429
status_of info = 200
status_of debug = 500

abbrev pub meta_of : MockLevel → Option Str → Option Str → ℕ → ℕ → MockMeta
meta_of level app env pid facility = record {
  pid = pid;
  facility = facility;
  stream = shown_text app ++ b'/' ∷ shown_text env;
  path = codes "/var/log/" ++ (shown_text app ++ codes ".log");
  status = status_of level;
}

-- `ts` of the log `i`, which has the draws from 8 i on, in units of 2 ^ -53.
unfoldable pub initial_time : (ℕ → ℕ) → ℕ → ℕ → ℕ
initial_time draws base_time i =
    to_double ((base_time + i * 300) * 2 ^ 53 + to_double (draws (8 * i) * 200))

module _ (iso : ℕ → Str) (draws : ℕ → ℕ) where
  -- `generateLog` at `Date.now()`, with the spread of `overrides` as a function on the log. The
  -- counter of ids is passed on.
  unfoldable pub generate_log : (MockLog → MockLog) → ℕ → ℕ → MockLog × ℕ
  unfolding weighted_random pick random_below messages
  generate_log overrides now log_id_counter =
      let level = random_level (draws 0) in
      let app = pick apps (draws 2) in
      let env = pick envs (draws 3) in
      (
        overrides (record {
          id = codes "log-" ++ (decimal now ++ b'-' ∷ decimal log_id_counter);
          timestamp_ns = to_double (now * 1000000) * 2 ^ 53;
          timestamp = iso now;
          level = level;
          host = pick hosts (draws 1);
          app = app;
          env = env;
          message = pick (messages level) (draws 6);
          meta =
              meta_of level app env (random_below 32768 (draws 4) + 1) (random_below 24 (draws 5));
        }),
        suc log_id_counter,
      )

  unfoldable pub initial_log : ℕ → ℕ → MockLog
  unfolding weighted_random pick random_below messages initial_time
  initial_log base_time i =
      let ts = initial_time draws base_time i in
      let level = random_level (draws (8 * i + 1)) in
      let app = pick apps (draws (8 * i + 3)) in
      let env = pick envs (draws (8 * i + 4)) in
      record {
        id = codes "log-init-" ++ decimal i;
        timestamp_ns = to_double (ts * 1000000);
        timestamp = iso (ts / 2 ^ 53);
        level = level;
        host = pick hosts (draws (8 * i + 2));
        app = app;
        env = env;
        message = pick (messages level) (draws (8 * i + 6));
        meta =
            meta_of level app env (random_below 32768 (draws (8 * i + 5)) + 1)
              (random_below 24 (draws (8 * i + 7)));
      }

  pub initial_from : ℕ → ℕ → ℕ → List MockLog
  unfolding initial_log
  initial_from base_time zero i = []
  initial_from base_time (suc n) i = initial_log base_time i ∷ initial_from base_time n (suc i)

  -- `generateInitialLogs` at `Date.now()`, for times that do not begin before 1970.
  unfoldable pub generate_initial_logs : ℕ → ℕ → List MockLog
  unfolding initial_from
  generate_initial_logs count now = reverse (initial_from (now - count * 300) count 0)
