-- ===== src/Query/Normalize/Bsd.antt =====
-- `normalizeLogEntry` of web/src/lib/queryParser.js on an RFC 3164 line.
use hackathon.Common.{
  ℕ, suc, Bool, true, false, Option, none, some, List, [], ◌∷◌, ◌++◌, ◌≡◌, ◌≢◌, refl, arith, Str,
  All, codes, is_space, is_digit, is_word,
}
use hackathon.Common.Number.{decimal, AreDigits}
use hackathon.Regex.Fails.{Stops, at_after, matches-unit_fails}
use hackathon.Regex.First.{First, First-unit, First-seq, First-plus, captures, First-start}
use hackathon.Regex.Lazy.{First-lazy, First-alt_left, First-alt_right, First-empty}
use hackathon.Regex.{
  Regex, Cursor, cursor, start, end, star, group, plus, lazy_plus, optional, unit, ◌▹◌, any_unit,
  matches, is_unit, each,
}
use hackathon.Query.Normalize.{no_space, spaces, rfc3164, is_clock}
use hackathon.Query.Normalize.Syslog.{IsField, take_field, First-spaces, First-message}

-- A run of units of a class, not empty.
abbrev pub IsRun : (ℕ → Bool) → Str → Type 0
IsRun p w = (w ≢ []) × All (λ c. p c ≡ true) w

abbrev InName : ℕ → Type 0
InName c = (is_unit b'[' c ≡ false) × (is_unit b':' c ≡ false)

pub record BsdHeader : Type 0 where
  pub month : Str
  pub day : Str
  pub clock : Str
  pub host : Str
  pub app : Str
  pub pid : Option Str

abbrev IsPid : Option Str → Type 0
IsPid none = Unit
IsPid (some w) = IsRun is_digit w

pub record IsBsdHeader (h : BsdHeader) : Type 0 where
  pub month_word : IsRun is_word h.month
  pub month_not_1 : Stops (is_unit b'1') h.month
  pub day_digits : IsRun is_digit h.day
  pub clock_digits : IsRun is_clock h.clock
  pub host_field : IsField h.host
  pub app_field : IsField h.app
  pub app_name : All InName h.app
  pub pid_digits : IsPid h.pid

-- `[PID]`, or nothing.
abbrev pub pid_text : Option Str → Str → Str
pid_text none rest = rest
pid_text (some w) rest = b'[' ∷ (w ++ b']' ∷ rest)

abbrev pub bsd_text : BsdHeader → Str → Str
bsd_text h rest =
    b'>'
    ∷ (h.month
        ++ b' '
          ∷ (h.day
              ++ b' '
                ∷ (h.clock
                    ++ b' ' ∷ (h.host ++ b' ' ∷ (h.app ++ pid_text h.pid (codes ": " ++ rest))))))

-- `<PRI>Mmm DD HH:MM:SS HOSTNAME APP[PID]: MSG`
abbrev pub write_3164 : ℕ → BsdHeader → Str → Str
write_3164 pri h msg = b'<' ∷ (decimal pri ++ bsd_text h msg)

word_not_space : (c : ℕ) → is_word c ≡ true → is_space c ≡ false
unfolding is_word is_space
word_not_space c h = ground arith

digit_not_space : (c : ℕ) → is_digit c ≡ true → is_space c ≡ false
unfolding is_space
digit_not_space c h = ground arith

clock_not_space : (c : ℕ) → is_clock c ≡ true → is_space c ≡ false
unfolding is_space
clock_not_space c h = ground arith

run-Stops :
    (p : ℕ → Bool) (w rest : Str)
    → ((c : ℕ) → p c ≡ true → is_space c ≡ false)
    → IsRun p w
    → Stops is_space (w ++ rest)
run-Stops p [] rest apart h = absurd (h.0 refl)
run-Stops p (c ∷ w) rest apart h = apart c h.1.0

field_not_space : (c : ℕ) → no_space c ≡ true → is_space c ≡ false
field_not_space c h = ground arith

-- A run of a class and the white space behind it.
skip_run :
    (p : ℕ → Bool) (at : ℕ) (w rest : Str) (g : List (ℕ × Str)) (r : Regex) {t : Cursor}
    → p b' ' ≡ false
    → IsRun p w
    → Stops is_space rest
    → First r (cursor (suc (at_after at w)) rest g) t
    → First (plus p ▹ spaces ▹ r) (cursor at (w ++ b' ' ∷ rest) g) t
skip_run p at [] rest g r ends h clear k = absurd (h.0 refl)
skip_run p at (c ∷ w) rest g r ends h clear k =
    First-seq (plus p) (spaces ▹ r) (First-plus p at c w (b' ' ∷ rest) g h.1 ends)
      (First-seq spaces r (First-spaces (at_after at (c ∷ w)) rest g clear) k)

abbrev pid_part : Regex
pid_part = unit (is_unit b'[') ▹ group 4 (plus is_digit) ▹ unit (is_unit b']')

abbrev message_part : Regex
message_part = unit (is_unit b':') ▹ spaces ▹ group 5 (star any_unit) ▹ end

-- What stands behind the name of the app.
abbrev behind_name : Regex
behind_name = optional pid_part ▹ message_part

behind_name-fails :
    (x at : ℕ) (s : Str) (g : List (ℕ × Str))
    → InName x
    → matches behind_name (cursor at (x ∷ s) g) ≡ []
unfolding matches each
behind_name-fails x at s g (no_bracket, no_colon) = rw (no_bracket, no_colon)

abbrev pub pid_groups : Option Str → List (ℕ × Str) → List (ℕ × Str)
pid_groups none g = g
pid_groups (some w) g = (4, w) ∷ g

First-colon :
    (at : ℕ) (msg : Str) (g : List (ℕ × Str))
    → Stops is_space msg
    → (end_ : ℕ) × First message_part
        (cursor at (codes ": " ++ (msg ++ [])) g)
        (cursor end_ [] ((5, msg) ∷ g))
First-colon at msg g clear =
    (_, First-seq _ _ (First-unit _ at b':' _ g refl) (First-message (suc at) msg g clear))

First-behind :
    (at : ℕ) (pid : Option Str) (msg : Str) (g : List (ℕ × Str))
    → IsPid pid
    → Stops is_space msg
    → (end_ : ℕ) × First behind_name
        (cursor at (pid_text pid (codes ": " ++ (msg ++ []))) g)
        (cursor end_ [] ((5, msg) ∷ pid_groups pid g))
First-behind at none msg g h clear =
    let (end_, found) = First-colon at msg g clear in
    (
      end_,
      First-seq (optional pid_part) message_part
          (First-alt_right pid_part _ (matches-unit_fails (is_unit b'[') _ at _ g refl)
            (First-empty _))
          found,
    )
First-behind at (some []) msg g h clear = absurd (h.0 refl)
First-behind at (some (c ∷ w)) msg g h clear =
    let (end_, found) = First-colon _ msg ((4, c ∷ w) ∷ g) clear in
    (
      end_,
      First-seq (optional pid_part) message_part
          (First-alt_left pid_part _ (
            First-seq _ _ (First-unit _ at b'[' _ g refl) (
              First-seq _ _
                (captures 4 _ (suc at) (c ∷ w) (b']' ∷ (codes ": " ++ (msg ++ []))) g
                  (First-plus is_digit (suc at) c w _ g h.1 refl))
                (First-unit _ _ b']' _ _ refl))))
          found,
    )

First-app :
    (at : ℕ) (app : Str) (pid : Option Str) (msg : Str) (g : List (ℕ × Str))
    → IsField app
    → All InName app
    → IsPid pid
    → Stops is_space msg
    → (end_ : ℕ) × First
        (spaces ▹ group 3 (lazy_plus no_space) ▹ behind_name)
        (cursor at (b' ' ∷ (app ++ pid_text pid (codes ": " ++ (msg ++ [])))) g)
        (cursor end_ [] ((5, msg) ∷ pid_groups pid ((3, app) ∷ g)))
First-app at [] pid msg g h name numbered clear = absurd (h.0 refl)
First-app at (c ∷ w) pid msg g h name numbered clear =
    let rest = pid_text pid (codes ": " ++ (msg ++ [])) in
    let (end_, found) = First-behind _ pid msg ((3, c ∷ w) ∷ g) numbered clear in
    (
      end_,
      First-seq spaces (group 3 (lazy_plus no_space) ▹ behind_name)
          (First-spaces at (c ∷ (w ++ rest)) g (field_not_space c h.1.0))
          (First-lazy no_space 3 behind_name InName (suc at) c w rest g behind_name-fails h.1 name.1
            found),
    )

First-clock :
    (at : ℕ) (w rest : Str) (g : List (ℕ × Str)) (r : Regex) {t : Cursor}
    → IsRun is_clock w
    → First r (cursor (at_after at w) (b' ' ∷ rest) g) t
    → First (plus is_clock ▹ r) (cursor at (w ++ b' ' ∷ rest) g) t
First-clock at [] rest g r h k = absurd (h.0 refl)
First-clock at (c ∷ w) rest g r h k =
    First-seq (plus is_clock) r (First-plus is_clock at c w (b' ' ∷ rest) g h.1 refl) k

abbrev pub bsd_groups : Str → BsdHeader → Str → List (ℕ × Str)
bsd_groups digits h msg = (5, msg) ∷ pid_groups h.pid ((3, h.app) ∷ (2, h.host) ∷ (1, digits) ∷ [])

pub First-bsd :
    (c : ℕ) (w : Str) (h : BsdHeader) (msg : Str)
    → AreDigits (c ∷ w)
    → IsBsdHeader h
    → Stops is_space msg
    → (at : ℕ) × First rfc3164
        (cursor 0 (b'<' ∷ c ∷ (w ++ bsd_text h (msg ++ []))) [])
        (cursor at [] (bsd_groups (c ∷ w) h msg))
First-bsd c w h msg digits ok clear =
    let name_text = h.app ++ pid_text h.pid (codes ": " ++ (msg ++ [])) in
    let clock_text = h.clock ++ b' ' ∷ (h.host ++ b' ' ∷ name_text) in
    let (at, found) =
      First-app _ h.app h.pid msg ((2, h.host) ∷ (1, c ∷ w) ∷ []) ok.app_field ok.app_name
        ok.pid_digits clear in
    (
      at,
      First-seq start _ (First-start _ []) (
          First-seq _ _ (First-unit _ 0 b'<' _ [] refl) (
            First-seq _ _
              (captures 1 _ 1 (c ∷ w) (bsd_text h (msg ++ [])) []
                (First-plus is_digit 1 c w _ [] digits refl))
              (First-seq _ _ (First-unit _ _ b'>' _ _ refl) (
                skip_run is_word _ h.month (h.day ++ b' ' ∷ clock_text) _ _ (unfold is_word in refl)
                  ok.month_word (run-Stops is_digit h.day _ digit_not_space ok.day_digits)
                  (skip_run is_digit _ h.day clock_text _ _ refl ok.day_digits
                    (run-Stops is_clock h.clock _ clock_not_space ok.clock_digits)
                    (First-clock _ h.clock _ _ _ ok.clock_digits
                      (take_field 2 _ h.host name_text _ _ ok.host_field found))))))),
    )
