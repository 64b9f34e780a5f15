-- ===== src/Query/Normalize/Rfc3164.antt =====
-- `normalizeLogEntry` of web/src/lib/queryParser.js on an RFC 3164 line: the two patterns in turn.
use hackathon.Common.{
  ℕ, suc, ◌/◌, ◌^◌, ◌<◌, true, false, Option, none, some, List, [], ◌∷◌, ◌++◌, ◌≡◌, ◌≢◌, refl, ap,
  ◌∙◌, arith, Str, All, codes, is_space, is_digit, append-nil,
}
use hackathon.Common.Number.{decimal, decimal-AreDigits, decimal-ne-nil, AreDigits}
use hackathon.Regex.Anchor.{exec-start_fails, star_from-All}
use hackathon.Regex.Fails.{Stops, matches-unit_fails}
use hackathon.Regex.First.{exec_from-First}
use hackathon.Regex.Scan.{exec_lem}
use hackathon.Regex.{
  Regex, Cursor, cursor, capture, capture_all, each, unit, star, group, plus, end, ◌▹◌, any_unit,
  exec, matches, is_unit,
}
use hackathon.Query.Normalize.{
  RawEntry, DisplayLog, spaces, field, rfc5424, rfc3164, from_3164, from_message, pri_to_sev,
  or_dash, text, number,
}
use hackathon.Query.Normalize.Syslog.{pri_of-decimal}
use hackathon.Query.Normalize.Bsd.{
  BsdHeader, IsBsdHeader, write_3164, bsd_text, bsd_groups, First-bsd,
}

-- The part of the other pattern behind the priority.
abbrev other_part : Regex
other_part =
    spaces
    ▹ field
    ▹ spaces
    ▹ group 2 field
    ▹ spaces
    ▹ group 3 field
    ▹ spaces
    ▹ group 4 field
    ▹ spaces
    ▹ field
    ▹ spaces
    ▹ field
    ▹ spaces
    ▹ group 5 (star any_unit)
    ▹ end

abbrev version_part : Regex
version_part = unit (is_unit b'>') ▹ unit (is_unit b'1') ▹ other_part

month-Stops :
    (month rest : Str)
    → month ≢ []
    → Stops (is_unit b'1') month
    → Stops (is_unit b'1') (month ++ rest)
month-Stops [] rest ne h = absurd (ne refl)
month-Stops (c ∷ w) rest ne h = h

version_part-fails :
    (at : ℕ) (s : Str) (g : List (ℕ × Str))
    → Stops (is_unit b'1') s
    → matches version_part (cursor at (b'>' ∷ s) g) ≡ []
unfolding matches each
version_part-fails at s g h = rw (matches-unit_fails (is_unit b'1') other_part (suc at) s g h) refl

each-capture_fails :
    (n : ℕ) (m : Cursor) (f : Cursor → List Cursor) (ts : List Cursor)
    → All (λ t. f (capture n m t) ≡ []) ts
    → each (capture_all n m ts) f ≡ []
unfolding each capture_all
each-capture_fails n m f [] h = refl
each-capture_fails n m f (t ∷ ts) (h, hs) = rw h (each-capture_fails n m f ts hs)

digit_not_closing : (x : ℕ) → is_digit x ≡ true → is_unit b'>' x ≡ false
digit_not_closing x h = ground arith

-- However many digits the priority is given, what stands behind them is no version 1.
priority-fails :
    (c : ℕ) (w s : Str)
    → AreDigits (c ∷ w)
    → Stops (is_unit b'1') s
    → matches
        (unit (is_unit b'<') ▹ group 1 (plus is_digit) ▹ version_part)
        (cursor 0 (b'<' ∷ c ∷ (w ++ b'>' ∷ s)) [])
      ≡ []
unfolding matches each
priority-fails c w s (dc, dw) h =
    let m = cursor 1 (c ∷ (w ++ b'>' ∷ s)) [] in
    let tried =
      star_from-All (λ t. matches version_part (capture 1 m t) ≡ []) is_digit 2 w (b'>' ∷ s) []
        (λ x at rest d.
          matches-unit_fails (is_unit b'>') (unit (is_unit b'1') ▹ other_part) at (x ∷ rest) _
            (digit_not_closing x d))
        (version_part-fails _ s _ h) dw refl in
    simp (dc, append-nil) (each-capture_fails 1 m (matches version_part) _ tried)

exec_5424-none :
    (digits : Str) (h : BsdHeader) (msg : Str)
    → digits ≢ []
    → AreDigits digits
    → IsBsdHeader h
    → exec rfc5424 (b'<' ∷ (digits ++ bsd_text h msg)) ≡ none
exec_5424-none [] h msg ne digits ok = absurd (ne refl)
exec_5424-none (c ∷ w) h msg ne digits ok =
    exec-start_fails _ b'<' _
      (priority-fails c w _ digits (month-Stops h.month _ ok.month_word.0 ok.month_not_1))

exec_bsd :
    (digits : Str) (h : BsdHeader) (msg : Str)
    → digits ≢ []
    → AreDigits digits
    → IsBsdHeader h
    → Stops is_space msg
    → (at : ℕ) × (exec rfc3164 (b'<' ∷ (digits ++ bsd_text h msg))
        ≡ some (cursor at [] (bsd_groups digits h msg)))
exec_bsd [] h msg ne digits ok clear = absurd (ne refl)
exec_bsd (c ∷ w) h msg ne digits ok clear =
    let (at, found) = First-bsd c w h msg digits ok clear in
    let line = c ∷ (w ++ bsd_text h (msg ++ [])) in
    (
      at,
      rw append-nil at (exec_lem rfc3164 (b'<' ∷ line) ∙ exec_from-First rfc3164 0 b'<' line found),
    )

abbrev bsd_log : Str → Str → ℕ → BsdHeader → Str → Str → DisplayLog
bsd_log id timestamp pri h msg raw = record {
  id = id;
  timestamp = timestamp;
  level = pri_to_sev pri;
  host = h.host;
  app = h.app;
  env = codes "prod";
  message = msg;
  meta =
      (codes "pid", text (or_dash h.pid))
      ∷ (codes "facility", number (pri / 8))
      ∷ (codes "raw", text raw)
      ∷ [];
}

from_3164-pid :
    (id timestamp raw : Str) (at pri : ℕ) (month day clock host app : Str) (pid : Option Str)
    (msg : Str)
    → pri < 2 ^ 53
    → let h : BsdHeader = record {
      month = month;
      day = day;
      clock = clock;
      host = host;
      app = app;
      pid = pid;
    } in
      from_3164 id timestamp raw (cursor at [] (bsd_groups (decimal pri) h msg))
      ≡ bsd_log id timestamp pri h msg raw
unfolding from_3164
from_3164-pid id timestamp raw at pri month day clock host app none msg small =
    rw (pri_of-decimal pri small)
from_3164-pid id timestamp raw at pri month day clock host app (some w) msg small =
    rw (pri_of-decimal pri small)

-- An RFC 3164 line `<PRI>MONTH DAY TIME HOST APP[PID]: MSG`, with or without a process id, is
-- taken apart into the parts that it was written from, and not as an RFC 5424 line: the level by
-- the low three bits of the priority and the facility by the rest, the host, the app, the process
-- id or `-`, and the message. The month is a word that does not begin with 1, the host and the
-- app have no white space, the app no colon or opening bracket, the message does not begin with
-- white space, and the priority is below 2 ^ 53.
pub normalize_3164 :
    (id timestamp : Str) (e : RawEntry) (pri : ℕ) (h : BsdHeader) (msg : Str)
    → e.message ≡ write_3164 pri h msg
    → pri < 2 ^ 53
    → IsBsdHeader h
    → Stops is_space msg
    → from_message id timestamp e ≡ record {
      id = id;
      timestamp = timestamp;
      level = pri_to_sev pri;
      host = h.host;
      app = h.app;
      env = codes "prod";
      message = msg;
      meta =
          (codes "pid", text (or_dash h.pid))
          ∷ (codes "facility", number (pri / 8))
          ∷ (codes "raw", text e.message)
          ∷ [];
    }
unfolding from_message
normalize_3164 id timestamp e pri h msg line small ok clear =
    let digits = decimal-AreDigits pri in
    let other = exec_5424-none (decimal pri) h msg (decimal-ne-nil pri) digits ok in
    let (at, found) = exec_bsd (decimal pri) h msg (decimal-ne-nil pri) digits ok clear in
    let not_5424 : exec rfc5424 e.message ≡ none = ap (exec rfc5424) line ∙ other in
    let there : exec rfc3164 e.message ≡ some (cursor at [] (bsd_groups (decimal pri) h msg)) =
      ap (exec rfc3164) line ∙ found in
    rw (not_5424, there, from_message)
      (from_3164-pid id timestamp e.message at pri h.month h.day h.clock h.host h.app h.pid msg
        small)
