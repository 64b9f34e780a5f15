-- ===== src/Engine/Syslog/Laws.antt =====
-- `ParseSyslogRFC3164` of engine/internal/ingestion/parser.go on lines of RFC 3164.
use mathlib.Core.Option
use hackathon.Common.{
  ℕ, zero, suc, ◌+◌, ◌-◌, ◌*◌, ◌/◌, ◌%◌, ◌≤◌, ◌<◌, ◌≢◌, true, some, [], ◌∷◌, ◌++◌, ◌≡◌, refl, ap,
  sym, ◌∙◌, arith, append_assoc, length-append, length, drop, All, leb, ◌&&◌, drop_while,
}
use hackathon.Engine.Keys.{Bytes, index_byte}
use hackathon.Engine.Keys.RoundTrip.{take-front, drop-behind}
use hackathon.Common.Number.{pos}
use hackathon.Engine.Syslog.{
  ParsedLog, digits_value, unsigned, atoi, trim_left, with_priority, read_pri_at, read_pri,
  skip_timestamp, is_space_at, read_host_at, read_host, default_log, read_rest, parse_syslog,
}

-- Bytes that are not `b`.
abbrev pub IsNot : ℕ → ℕ → Type 0
IsNot b c = c ≢ b

index_byte-behind :
    (b : ℕ) (s t : Bytes) → All (IsNot b) s → index_byte b (s ++ b ∷ t) ≡ some (length s)
unfolding index_byte
index_byte-behind b [] t h = ground arith
index_byte-behind b (c ∷ s) t h = ground (arith, index_byte-behind b s t h.1)

digits_plain : (n : ℕ) (ds : Bytes) (v : ℕ) → digits_value n ds ≡ some v → All (IsNot b'>') ds
unfolding digits_value
digits_plain n [] v e = tt
digits_plain n (c ∷ ds) v e = (ground arith, digits_plain (n * 10 + (c - b'0')) ds v (ground arith))

atoi-digits : (ds : Bytes) (v : ℕ) → ds ≢ [] → digits_value 0 ds ≡ some v → atoi ds ≡ some (pos v)
unfolding atoi unsigned digits_value
atoi-digits [] v some_digits e = absurd (some_digits refl)
atoi-digits (c ∷ ds) v some_digits e = ground arith

-- A text that does not begin with a space.
abbrev pub IsTrimmed : Bytes → Type 0
IsTrimmed [] = Unit
IsTrimmed (c ∷ s) = c ≢ b' '

trim_left-IsTrimmed : (s : Bytes) → IsTrimmed s → trim_left s ≡ s
unfolding trim_left drop_while
trim_left-IsTrimmed [] h = refl
trim_left-IsTrimmed (c ∷ s) h = ground arith

space_behind : (n : ℕ) (s t : Bytes) → length s ≡ n → is_space_at n (s ++ b' ' ∷ t) ≡ true
space_behind zero [] t e = refl
space_behind zero (c ∷ s) t e = absurd (omega arith)
space_behind (suc n) [] t e = absurd (omega arith)
space_behind (suc n) (c ∷ s) t e = space_behind n s t (omega arith)

-- The time stamp of a line.
abbrev pub stamp_of : Bytes → Bytes → Bytes → Bytes
stamp_of month day time = (month ++ b' ' ∷ day) ++ b' ' ∷ time

skip_true :
    (packet : Bytes)
    → is_space_at 3 packet ≡ true
    → is_space_at 6 packet ≡ true
    → is_space_at 15 packet ≡ true
    → 16 < length packet
    → skip_timestamp packet ≡ drop 16 packet
unfolding skip_timestamp
skip_true packet third sixth last long = ground arith

length_some : (s : Bytes) → s ≢ [] → 0 < length s
length_some [] h = absurd (h refl)
length_some (c ∷ s) h = omega arith

skip_timestamp-stamp :
    (month day time rest : Bytes)
    → length month ≡ 3
    → length day ≡ 2
    → length time ≡ 8
    → rest ≢ []
    → skip_timestamp (stamp_of month day time ++ b' ' ∷ rest) ≡ rest
unfolding skip_timestamp
skip_timestamp-stamp month day time rest hm hd ht more =
    let packet = stamp_of month day time ++ b' ' ∷ rest in
    let date = month ++ b' ' ∷ day in
    let front_date : length date ≡ 6 = omega (arith, length-append {0} month (b' ' ∷ day)) in
    let front : length (stamp_of month day time) ≡ 15 =
      omega (arith, length-append {0} date (b' ' ∷ time), front_date) in
    let regroup : packet ≡ date ++ b' ' ∷ (time ++ b' ' ∷ rest) =
      append_assoc date (b' ' ∷ time) (b' ' ∷ rest) in
    let third : is_space_at 3 packet ≡ true =
      ap (is_space_at 3) (regroup ∙ append_assoc month (b' ' ∷ day) _)
      ∙ space_behind 3 month _ hm in
    let sixth : is_space_at 6 packet ≡ true =
      ap (is_space_at 6) regroup ∙ space_behind 6 date (time ++ b' ' ∷ rest) front_date in
    let last : is_space_at 15 packet ≡ true =
      space_behind 15 (stamp_of month day time) rest front in
    let long : length packet ≡ 16 + length rest =
      omega (arith, length-append {0} (stamp_of month day time) (b' ' ∷ rest), front) in
    let dropped : drop 16 packet ≡ rest =
      ap (λ n. drop (suc n) packet) (sym front) ∙ drop-behind (stamp_of month day time) b' ' rest in
    skip_true packet third sixth last (omega (arith, length_some rest more)) ∙ dropped

ne_of_length : (s : Bytes) → 1 ≤ length s → s ≢ []
ne_of_length [] h = absurd (omega arith)
ne_of_length (c ∷ s) h = cc

ne_front : (s t : Bytes) → s ≢ [] → s ++ b' ' ∷ t ≢ []
ne_front [] t h = cc
ne_front (c ∷ s) t h = cc

IsTrimmed-front : (s t : Bytes) → s ≢ [] → All (IsNot b' ') s → IsTrimmed (s ++ b' ' ∷ t)
IsTrimmed-front [] t h plain = absurd (h refl)
IsTrimmed-front (c ∷ s) t h plain = plain.0

IsTrimmed-stamp :
    (month day time rest : Bytes)
    → length month ≡ 3
    → IsTrimmed month
    → IsTrimmed (stamp_of month day time ++ b' ' ∷ rest)
IsTrimmed-stamp [] day time rest h trimmed = absurd (omega arith)
IsTrimmed-stamp (c ∷ month) day time rest h trimmed = trimmed

module _ (pri : ℕ) (digits host message : Bytes) where
  -- What the parser makes of a priority, a host and a message.
  abbrev pub parsed_as : ℕ → ParsedLog
  parsed_as now = record {
    priority = pos pri;
    facility = pos (pri / 8);
    severity = pos (pri % 8);
    timestamp_nano = now;
    hostname = host;
    message = message;
  }

  index_byte-pri :
      (line : Bytes)
      → All (IsNot b'>') digits
      → index_byte b'>' (b'<' ∷ (digits ++ b'>' ∷ line)) ≡ some (suc (length digits))
  unfolding index_byte
  index_byte-pri line plain = ap (Option.map suc) (index_byte-behind b'>' digits line plain)

  read_pri_at-digits :
      (line : Bytes) (res : ParsedLog)
      → digits_value 0 digits ≡ some pri
      → 1 ≤ length digits
      → length digits ≤ 4
      → read_pri_at (some (suc (length digits))) (b'<' ∷ (digits ++ b'>' ∷ line)) res
        ≡ (with_priority (some (pos pri)) res, line)
  unfolding read_pri_at
  read_pri_at-digits line res value some_digits few =
      let count : suc (length digits) - 1 ≡ length digits = omega arith in
      let fits : (leb 2 (suc (length digits)) && leb (suc (length digits)) 5) ≡ true =
        ground arith in
      rw (
        fits,
        count,
        take-front digits (b'>' ∷ line),
        drop-behind digits b'>' line,
        atoi-digits digits pri (ne_of_length digits some_digits) value,
      )

  read_pri-digits :
      (now : ℕ) (line : Bytes)
      → digits_value 0 digits ≡ some pri
      → 1 ≤ length digits
      → length digits ≤ 4
      → parse_syslog now (b'<' ∷ (digits ++ b'>' ∷ line))
        ≡ read_rest (with_priority (some (pos pri)) (default_log now), line)
  unfolding parse_syslog read_pri
  read_pri-digits now line value some_digits few =
      ap (λ found. read_rest (read_pri_at found (b'<' ∷ (digits ++ b'>' ∷ line)) (default_log now)))
        (index_byte-pri line (digits_plain 0 digits pri value))
      ∙ ap read_rest (read_pri_at-digits line (default_log now) value some_digits few)

  rest_lem :
      (month day time : Bytes) (res : ParsedLog)
      → length month ≡ 3
      → length day ≡ 2
      → length time ≡ 8
      → IsTrimmed month
      → host ≢ []
      → All (IsNot b' ') host
      → IsTrimmed message
      → read_rest (res, stamp_of month day time ++ b' ' ∷ (host ++ b' ' ∷ message))
        ≡ record res { hostname = host; message = message }
  unfolding read_rest read_host read_host_at
  rest_lem month day time res hm hd ht trimmed named plain start =
      let line = host ++ b' ' ∷ message in
      ground (
        arith,
        trim_left-IsTrimmed (stamp_of month day time ++ b' ' ∷ line)
            (IsTrimmed-stamp month day time line hm trimmed),
        skip_timestamp-stamp month day time line hm hd ht (ne_front host message named),
        trim_left-IsTrimmed line (IsTrimmed-front host message named plain),
        index_byte-behind b' ' host message plain,
        take-front host (b' ' ∷ message),
        drop-behind host b' ' message,
        trim_left-IsTrimmed message start,
      )

  -- A line of RFC 3164, `<PRI>Mmm dd hh:mm:ss HOST MESSAGE` with a priority of one to four digits,
  -- is taken apart into its parts: the facility is the eighth of the priority and the severity the
  -- rest. The date and time are dropped for the time of the call. The month does not begin with a
  -- space, the host has none and is not empty, and the message does not begin with one.
  pub parse_syslog-line :
      (now : ℕ) (month day time : Bytes)
      → digits_value 0 digits ≡ some pri
      → 1 ≤ length digits
      → length digits ≤ 4
      → length month ≡ 3
      → length day ≡ 2
      → length time ≡ 8
      → IsTrimmed month
      → host ≢ []
      → All (IsNot b' ') host
      → IsTrimmed message
      → parse_syslog now
          (b'<' ∷ (digits ++ b'>' ∷ (stamp_of month day time ++ b' ' ∷ (host ++ b' ' ∷ message))))
        ≡ parsed_as now
  unfolding with_priority
  parse_syslog-line now month day time value some_digits few hm hd ht trimmed named plain start =
      read_pri-digits now (stamp_of month day time ++ b' ' ∷ (host ++ b' ' ∷ message)) value
        some_digits few
      ∙ rest_lem month day time (with_priority (some (pos pri)) (default_log now)) hm hd ht trimmed
          named plain start
