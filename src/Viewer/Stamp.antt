-- ===== src/Viewer/Stamp.antt =====
-- `formatTimestamp` of web/src/components/LogViewer.jsx. `new Date` is a parameter: the fields of
-- the date in UTC, or none for a text that is no date, whose fields are NaN.
use hackathon.Common.{
  ℕ, zero, suc, ◌+◌, ◌-◌, ◌≤◌, ◌<◌, Option, none, some, [], ◌∷◌, ◌++◌, ◌≡◌, refl, arith, Str, codes,
  length, length-append, ap, ◌≢◌,
}
use hackathon.Common.Number.{decimal, length-decimal, power}

-- `month` counts from 0, as `getUTCMonth` does.
pub record UtcDate : Type 0 where
  pub month : ℕ
  pub day : ℕ
  pub hours : ℕ
  pub minutes : ℕ
  pub seconds : ℕ
  pub milliseconds : ℕ

zeros : ℕ → Str → Str
zeros zero s = s
zeros (suc n) s = b'0' ∷ zeros n s

-- `padStart(width, '0')`
unfoldable pub pad_start : ℕ → Str → Str
unfolding zeros
pad_start width s = zeros (width - length s) s

unfoldable pub stamp : UtcDate → Str
unfolding pad_start
stamp d =
    pad_start 2 (decimal (d.month + 1))
    ++ (codes "-"
        ++ (pad_start 2 (decimal d.day)
            ++ (codes " "
                ++ (pad_start 2 (decimal d.hours)
                    ++ (codes ":"
                        ++ (pad_start 2 (decimal d.minutes)
                            ++ (codes ":"
                                ++ (pad_start 2 (decimal d.seconds)
                                    ++ (codes "."
                                        ++ (pad_start 3 (decimal d.milliseconds)
                                            ++ codes "Z"))))))))))

unfoldable pub format_timestamp : (Str → Option UtcDate) → Str → Str
unfolding stamp
format_timestamp date_of [] = codes "—"
format_timestamp date_of (c ∷ s) = elim (date_of (c ∷ s)) [
  | none ↦ codes "NaN-NaN NaN:NaN:NaN.NaNZ"
  | some d ↦ stamp d
]

length-zeros : (n : ℕ) (s : Str) → length (zeros n s) ≡ n + length s
unfolding zeros
length-zeros zero s = omega arith
length-zeros (suc n) s = omega (arith, length-zeros n s)

length-pad_start : (width : ℕ) (s : Str) → length s ≤ width → length (pad_start width s) ≡ width
unfolding pad_start
length-pad_start width s h = omega (arith, length-zeros (width - length s) s)

padded : (k n : ℕ) → n < power (suc k) → length (pad_start (suc k) (decimal n)) ≡ suc k
padded k n h = length-pad_start (suc k) (decimal n) (length-decimal k n h)

pub record IsDate (d : UtcDate) : Type 0 where
  pub month : d.month < 12
  pub day : d.day ≤ 31
  pub hours : d.hours < 24
  pub minutes : d.minutes < 60
  pub seconds : d.seconds < 60
  pub milliseconds : d.milliseconds < 1000

part : (s t : Str) (n m : ℕ) → length s ≡ n → length t ≡ m → length (s ++ t) ≡ n + m
part s t n m h k = omega (arith, length-append s t)

length-stamp : (d : UtcDate) → IsDate d → length (stamp d) ≡ 19
unfolding stamp
length-stamp d h =
    let month = padded 1 (d.month + 1) (omega (arith, h.month)) in
    let day = padded 1 d.day (omega (arith, h.day)) in
    let hours = padded 1 d.hours (omega (arith, h.hours)) in
    let minutes = padded 1 d.minutes (omega (arith, h.minutes)) in
    let seconds = padded 1 d.seconds (omega (arith, h.seconds)) in
    let ms = padded 2 d.milliseconds (omega (arith, h.milliseconds)) in
    part _ _ 2 17 month (
      ap suc (
        part _ _ 2 14 day (
          ap suc (
            part _ _ 2 11 hours (
              ap suc (
                part _ _ 2 8 minutes
                  (ap suc (part _ _ 2 5 seconds (ap suc (part _ _ 3 1 ms refl))))))))))

-- A text that the calendar reads as a date is shown as 19 units, so that the column's entries have
-- one width.
pub length-format_timestamp :
    (date_of : Str → Option UtcDate) (s : Str) {d : UtcDate}
    → s ≢ []
    → date_of s ≡ some d
    → IsDate d
    → length (format_timestamp date_of s) ≡ 19
unfolding format_timestamp
length-format_timestamp date_of [] filled e h = absurd (filled refl)
length-format_timestamp date_of (c ∷ s) {d} filled e h = rw (e, format_timestamp) (length-stamp d h)
