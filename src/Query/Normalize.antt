-- ===== src/Query/Normalize.antt =====
-- web/src/lib/queryParser.js: `normalizeLogEntry`.
-- Times are a parameter, `Times`: the conversion of nanoseconds to dates in doubles.
mod Patterns
pub mod Severity
pub mod Syslog
pub mod Bsd
pub mod Rfc3164
pub mod Ids
use hackathon.Common.{
  ℕ, ◌+◌, ◌/◌, ◌%◌, Bool, true, false, not, ◌&&◌, ◌||◌, Option, none, some, List, [], ◌∷◌, ◌++◌,
  Str, codes, is_space, is_word, is_digit, ◌==◌, leb, if◌then◌else◌, filter, all, or_else, str_eq,
}
use hackathon.Common.Double.{to_double}
use hackathon.Common.Number.{decimal, digits_value}
use hackathon.Regex.{
  Regex, Cursor, unit, start, end, seq, alt, star, group, plus, lazy_plus, optional, ◌▹◌, is_unit,
  no_unit, any_unit, exec, text_of, group?, empty,
}
pub use Patterns.*

pub data Level : Type 0 where
  critical error warn info debug trace : Level

pub data MetaValue : Type 0 where
  text : Str → MetaValue
  number : ℕ → MetaValue

abbrev pub Meta : Type 0
Meta = List (Str × MetaValue)

-- An entry as the engine or the bridge sends it. A field that is absent is the empty string.
pub record RawEntry : Type 0 where
  pub timestamp_nano : Str
  pub message : Str
  pub id : Str
  pub timestamp : Str
  pub host : Str
  pub app : Str
  pub env : Str
  pub meta : Meta

pub record DisplayLog : Type 0 where
  pub id : Str
  pub timestamp : Str
  pub level : Level
  pub host : Str
  pub app : Str
  pub env : Str
  pub message : Str
  pub meta : Meta

-- `Number(timestamp_nano)` with what is done to it. `is_truthy` is false at 0 and NaN.
pub record Times : Type 1 where
  pub Num : Type 0
  pub number_of : Str → Num
  pub is_truthy : Num → Bool
  pub show : Num → Str  -- `${n}`
  pub iso_of_nano : Num → Str  -- `new Date(Math.floor(n / 1_000_000)).toISOString()`
  pub iso_now : ℕ → Str  -- `new Date().toISOString()` at `Date.now()`

-- `SEV_KEYWORDS`
abbrev pub sev_keywords : List (Str × Level)
sev_keywords =
    (codes "critical", critical)
    ∷ (codes "fatal", critical)
    ∷ (codes "error", error)
    ∷ (codes "err", error)
    ∷ (codes "warn", warn)
    ∷ (codes "warning", warn)
    ∷ (codes "debug", debug)
    ∷ (codes "dbg", debug)
    ∷ (codes "trace", trace)
    ∷ []

-- `PRI_TO_SEV[pri & 7]`, for a whole number `pri`.
unfoldable pub pri_to_sev : ℕ → Level
pri_to_sev pri =
    let bits = pri % 8 in
    if leb bits 2
    then critical
    else if bits == 3
    then error
    else if bits == 4
    then warn
    else if leb bits 6
    then info
    else debug

-- `toLowerCase`, as far as the keywords can tell: other letters become no letter of theirs, but
-- for the dotted capital I, whose small form has a dot behind the i that no keyword has.
abbrev pub to_lower : ℕ → ℕ
to_lower c = if leb b'A' c && leb c b'Z' then c + 32 else c

unfoldable pub lower : Str → Str
lower [] = []
lower (c ∷ s) = to_lower c ∷ lower s

unfoldable pub starts_with : Str → Str → Bool
starts_with [] s = true
starts_with (k ∷ ks) [] = false
starts_with (k ∷ ks) (c ∷ s) = k == c && starts_with ks s

-- `s.includes(k)`
unfoldable pub includes : Str → Str → Bool
includes k [] = starts_with k []
includes k (c ∷ s) = starts_with k (c ∷ s) || includes k s

unfoldable pub detect : List (Str × Level) → Str → Level
detect [] s = info
detect ((k, sev) ∷ ks) s = if includes k s then sev else detect ks s

-- Assignment of a property of an object.
pub put : Meta → Str → MetaValue → Meta
put [] k v = (k, v) ∷ []
put ((j, w) ∷ m) k v = if str_eq j k then (j, v) ∷ m else (j, w) ∷ put m k v

pub spread : Meta → Meta → Meta
unfolding put
spread m [] = m
spread m ((k, v) ∷ rest) = spread (put m k v) rest

abbrev pub dash_or : Str → Str → Str
dash_or s d = if str_eq s (codes "-") then d else s

-- `parseInt` of digits, as a double.
unfoldable pub pri_of : Str → ℕ
pri_of digits = to_double (digits_value 0 digits)

abbrev pub priority_meta : Str → Str → Str → Meta
priority_meta pid digits raw =
    (codes "pid", text pid)
    ∷ (codes "facility", number (pri_of digits / 8))
    ∷ (codes "raw", text raw)
    ∷ []

abbrev pub or_dash : Option Str → Str
or_dash none = codes "-"
or_dash (some s) = s

abbrev pub matched_or : Option Cursor → Str → Str
matched_or none d = d
matched_or (some m) d = text_of 1 m

unfoldable pub from_5424 : Str → Str → Str → Cursor → DisplayLog
from_5424 id timestamp raw m = record {
  id = id;
  timestamp = timestamp;
  level = pri_to_sev (pri_of (text_of 1 m));
  host = dash_or (text_of 2 m) (codes "unknown");
  app = dash_or (text_of 3 m) (codes "syslog");
  env = codes "prod";
  message = text_of 5 m;
  meta = priority_meta (text_of 4 m) (text_of 1 m) raw;
}

unfoldable pub from_3164 : Str → Str → Str → Cursor → DisplayLog
from_3164 id timestamp raw m = record {
  id = id;
  timestamp = timestamp;
  level = pri_to_sev (pri_of (text_of 1 m));
  host = text_of 2 m;
  app = text_of 3 m;
  env = codes "prod";
  message = text_of 5 m;
  meta = priority_meta (or_dash (group? 4 m)) (text_of 1 m) raw;
}

unfoldable pub from_plain : Str → Str → RawEntry → DisplayLog
from_plain id timestamp e = record {
  id = id;
  timestamp = timestamp;
  level = detect sev_keywords (lower e.message);
  host = or_else e.host (matched_or (exec host_token e.message) (codes "unknown"));
  app = matched_or (exec app_prefix e.message) (or_else e.app (codes "engine"));
  env = or_else e.env (codes "prod");
  message = e.message;
  meta = spread ((codes "raw", text e.message) ∷ []) e.meta;
}

unfoldable pub from_message : Str → Str → RawEntry → DisplayLog
from_message id timestamp e = elim (exec rfc5424 e.message) [
  | some m ↦ from_5424 id timestamp e.message m
  | none ↦ elim (exec rfc3164 e.message) [
    | some m ↦ from_3164 id timestamp e.message m
    | none ↦ from_plain id timestamp e
  ]
]

module _ (times : Times) where
  open times use {number_of, is_truthy, show, iso_of_nano, iso_now}

  unfoldable pub timestamp_of : RawEntry → ℕ → Str
  timestamp_of e now = elim e.timestamp_nano [
    | [] ↦ or_else e.timestamp (iso_now now)
    | c ∷ s ↦
        let ts = number_of (c ∷ s) in
        if is_truthy ts then iso_of_nano ts else or_else e.timestamp (iso_now now)
  ]

  abbrev pub nano_text : Str → ℕ → Str
  nano_text [] now = decimal now
  nano_text (c ∷ s) now = show (number_of (c ∷ s))

  unfoldable pub id_of : RawEntry → ℕ → ℕ → Str
  id_of e index now =
      or_else e.id (codes "grpc-" ++ (nano_text e.timestamp_nano now ++ (b'-' ∷ decimal index)))

  -- At `Date.now()`, which is read up to twice in one call and taken as one value here.
  unfoldable pub normalize_log_entry : RawEntry → ℕ → ℕ → DisplayLog
  normalize_log_entry e index now = from_message (id_of e index now) (timestamp_of e now) e
