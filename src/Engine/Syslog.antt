-- ===== src/Engine/Syslog.antt =====
-- engine/internal/ingestion/parser.go. An `int` is an integer: a priority has at most four
-- characters.
pub mod Laws
use mathlib.Core.Option
use hackathon.Common.{
  ℕ, zero, suc, ◌+◌, ◌-◌, ◌*◌, ◌/◌, ◌%◌, ◌^◌, Bool, true, false, ◌&&◌, Option, none, some, List, [],
  ◌∷◌, length, get_elem?, take, drop, ltb, leb, ◌==◌, is_digit, drop_while, if◌then◌else◌,
}
use hackathon.Common.Number.{ℤ, pos, negsuc}
use hackathon.Engine.Keys.{Bytes, index_byte}

abbrev pub neg : ℕ → ℤ
neg zero = pos 0
neg (suc n) = negsuc n

-- `p >> 3` and `p & 7`, on two's complements.
unfoldable pub shift_right3 : ℤ → ℤ
shift_right3 (pos n) = pos (n / 8)
shift_right3 (negsuc n) = negsuc (n / 8)

unfoldable pub low3 : ℤ → ℤ
low3 (pos n) = pos (n % 8)
low3 (negsuc n) = pos (7 - n % 8)

-- `uint64(i)` of a number that an `int` holds.
unfoldable pub uint64 : ℤ → ℕ
uint64 (pos n) = n % 2 ^ 64
uint64 (negsuc n) = 2 ^ 64 - 1 - n % 2 ^ 64

pub record ParsedLog : Type 0 where
  pub priority : ℤ
  pub facility : ℤ
  pub severity : ℤ
  pub timestamp_nano : ℕ
  pub hostname : Bytes
  pub message : Bytes

-- The digits of a number behind those of `n`.
unfoldable pub digits_value : ℕ → Bytes → Option ℕ
digits_value n [] = some n
digits_value n (c ∷ s) = if is_digit c then digits_value (n * 10 + (c - b'0')) s else none

unfoldable pub unsigned : Bytes → Option ℕ
unfolding digits_value
unsigned [] = none
unsigned (c ∷ s) = digits_value 0 (c ∷ s)

-- `strconv.Atoi` of a few characters, with `none` for an error.
unfoldable pub atoi : Bytes → Option ℤ
unfolding unsigned
atoi [] = none
atoi (c ∷ s) =
    if c == b'-'
    then Option.map neg (unsigned s)
    else if c == b'+'
    then Option.map pos (unsigned s)
    else Option.map pos (unsigned (c ∷ s))

-- `bytes.TrimLeft(data, " ")`
unfoldable pub trim_left : Bytes → Bytes
unfolding drop_while
trim_left data' = drop_while (λ c. c == b' ') data'

unfoldable pub with_priority : Option ℤ → ParsedLog → ParsedLog
unfolding shift_right3 low3
with_priority none res = res
with_priority (some pri_val) res = record res {
  priority = pri_val;
  facility = shift_right3 pri_val;
  severity = low3 pri_val;
}

-- The PRI prefix of data that begins with '<', and what is behind it.
unfoldable pub read_pri_at : Option ℕ → Bytes → ParsedLog → ParsedLog × Bytes
unfolding with_priority atoi
read_pri_at none packet res = (res, packet)
read_pri_at (some end_pri) packet res =
    if leb 2 end_pri && leb end_pri 5
    then (with_priority (atoi (take (end_pri - 1) (drop 1 packet))) res, drop (suc end_pri) packet)
    else (res, packet)

unfoldable pub read_pri : Bytes → ParsedLog → ParsedLog × Bytes
unfolding read_pri_at index_byte
read_pri [] res = (res, [])
read_pri (c ∷ s) res =
    if c == b'<' then read_pri_at (index_byte b'>' (c ∷ s)) (c ∷ s) res else (res, c ∷ s)

abbrev pub is_space_at : ℕ → Bytes → Bool
is_space_at i packet = elim (get_elem? packet i) [ none ↦ false | some c ↦ c == b' ' ]

-- `Mmm dd hh:mm:ss`
unfoldable pub skip_timestamp : Bytes → Bytes
skip_timestamp packet =
    if ltb 16 (length packet)
      && is_space_at 3 packet
      && is_space_at 6 packet
      && is_space_at 15 packet
    then drop 16 packet
    else packet

unfoldable pub read_host_at : Option ℕ → Bytes → ParsedLog → ParsedLog
unfolding trim_left
read_host_at none packet res = record res { message = packet }
read_host_at (some space_idx) packet res = record res {
  hostname = take space_idx packet;
  message = trim_left (drop (suc space_idx) packet);
}

unfoldable pub read_host : Bytes → ParsedLog → ParsedLog
unfolding read_host_at index_byte
read_host packet res = read_host_at (index_byte b' ' packet) packet res

-- `res` at its start, with `time.Now().UnixNano()`.
abbrev pub default_log : ℕ → ParsedLog
default_log now = record {
  priority = pos 0;
  facility = pos 1;
  severity = pos 6;
  timestamp_nano = now;
  hostname = [];
  message = [];
}

-- What is behind the priority.
unfoldable pub read_rest : ParsedLog × Bytes → ParsedLog
unfolding skip_timestamp read_host trim_left
read_rest (res, packet) = read_host (trim_left (skip_timestamp (trim_left packet))) res

-- `ParseSyslogRFC3164`
unfoldable pub parse_syslog : ℕ → Bytes → ParsedLog
unfolding read_pri read_rest
parse_syslog now [] = default_log now
parse_syslog now (c ∷ s) = read_rest (read_pri (c ∷ s) (default_log now))
