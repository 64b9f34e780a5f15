-- ===== src/Query/Normalize/Syslog.antt =====
-- `normalizeLogEntry` of web/src/lib/queryParser.js on an RFC 5424 line.
use hackathon.Common.{
  ℕ, suc, ◌/◌, ◌^◌, ◌<◌, true, some, List, [], ◌∷◌, ◌++◌, ◌≡◌, ◌≢◌, refl, ap, ◌∙◌, arith, Str, All,
  codes, is_space, is_digit, append-nil,
}
use hackathon.Common.Double.{to_double_exact}
use hackathon.Common.Number.{
  decimal, decimal-AreDigits, decimal-ne-nil, digits_value-decimal, AreDigits,
}
use hackathon.Regex.Fails.{Stops, at_after}
use hackathon.Regex.First.{
  First, First-unit, First-seq, First-star, First-plus, First-end, captures, exec_from-First,
  First-start,
}
use hackathon.Regex.Scan.{exec_lem}
use hackathon.Regex.{Regex, Cursor, cursor, start, end, star, group, ◌▹◌, any_unit, exec}
use hackathon.Query.Normalize.{
  RawEntry, no_space, spaces, field, rfc5424, from_5424, from_message, pri_to_sev, pri_of, dash_or,
  text, number,
}

-- A field of the header: not empty, with no white space.
abbrev pub IsField : Str → Type 0
IsField w = (w ≢ []) × All (λ c. no_space c ≡ true) w

pub record Header : Type 0 where
  pub time : Str
  pub host : Str
  pub app : Str
  pub proc_id : Str
  pub msg_id : Str
  pub structured : Str

pub record IsHeader (h : Header) : Type 0 where
  pub time_field : IsField h.time
  pub host_field : IsField h.host
  pub app_field : IsField h.app
  pub proc_id_field : IsField h.proc_id
  pub msg_id_field : IsField h.msg_id
  pub structured_field : IsField h.structured

-- The header behind the priority, and what follows it.
abbrev pub header_text : Header → Str → Str
header_text h rest =
    let behind_app =
      b' ' ∷ (h.proc_id ++ b' ' ∷ (h.msg_id ++ b' ' ∷ (h.structured ++ b' ' ∷ rest))) in
    codes ">1 " ++ (h.time ++ b' ' ∷ (h.host ++ b' ' ∷ (h.app ++ behind_app)))

-- `<PRI>1 TIMESTAMP HOST APP PROCID MSGID SD MSG`
abbrev pub write_5424 : ℕ → Header → Str → Str
write_5424 pri h msg = b'<' ∷ (decimal pri ++ header_text h msg)

First-field :
    (at : ℕ) (w rest : Str) (g : List (ℕ × Str))
    → IsField w
    → First field (cursor at (w ++ b' ' ∷ rest) g) (cursor (at_after at w) (b' ' ∷ rest) g)
First-field at [] rest g h = absurd (h.0 refl)
First-field at (c ∷ w) rest g h =
    First-plus no_space at c w (b' ' ∷ rest) g h.1 (unfold is_space in refl)

field-Stops : (w rest : Str) → IsField w → Stops is_space (w ++ rest)
field-Stops [] rest h = absurd (h.0 refl)
field-Stops (c ∷ w) rest h = ground (arith, h.1.0)

pub First-spaces :
    (at : ℕ) (rest : Str) (g : List (ℕ × Str))
    → Stops is_space rest
    → First spaces (cursor at (b' ' ∷ rest) g) (cursor (suc at) rest g)
First-spaces at rest g h = First-plus is_space at b' ' [] rest g (unfold is_space in refl, tt) h

-- White space and a field, which is skipped or captured, in front of the rest of a pattern.
skip_field :
    (at : ℕ) (w rest : Str) (g : List (ℕ × Str)) (r : Regex) {t : Cursor}
    → IsField w
    → First r (cursor (at_after (suc at) w) (b' ' ∷ rest) g) t
    → First (spaces ▹ field ▹ r) (cursor at (b' ' ∷ (w ++ b' ' ∷ rest)) g) t
skip_field at w rest g r h k =
    First-seq spaces (field ▹ r)
      (First-spaces at (w ++ b' ' ∷ rest) g (field-Stops w (b' ' ∷ rest) h))
      (First-seq field r (First-field (suc at) w rest g h) k)

pub take_field :
    (n at : ℕ) (w rest : Str) (g : List (ℕ × Str)) (r : Regex) {t : Cursor}
    → IsField w
    → First r (cursor (at_after (suc at) w) (b' ' ∷ rest) ((n, w) ∷ g)) t
    → First (spaces ▹ group n field ▹ r) (cursor at (b' ' ∷ (w ++ b' ' ∷ rest)) g) t
take_field n at w rest g r h k =
    First-seq spaces (group n field ▹ r)
      (First-spaces at (w ++ b' ' ∷ rest) g (field-Stops w (b' ' ∷ rest) h))
      (First-seq (group n field) r
        (captures n field (suc at) w (b' ' ∷ rest) g (First-field (suc at) w rest g h)) k)

All-any : (w : Str) → All (λ c. any_unit c ≡ true) w
All-any [] = tt
All-any (c ∷ w) = (refl, All-any w)

pub First-message :
    (at : ℕ) (msg : Str) (g : List (ℕ × Str))
    → Stops is_space msg
    → First
        (spaces ▹ group 5 (star any_unit) ▹ end)
        (cursor at (b' ' ∷ (msg ++ [])) g)
        (cursor (at_after (suc at) msg) [] ((5, msg) ∷ g))
First-message at msg g h =
    First-seq spaces (group 5 (star any_unit) ▹ end)
      (First-spaces at (msg ++ []) g (rw append-nil h))
      (First-seq (group 5 (star any_unit)) end
        (captures 5 _ (suc at) msg [] g (First-star any_unit (suc at) msg [] g (All-any msg) tt))
        (First-end _ _))

-- The cursor behind a whole line: only the groups count.
abbrev line_groups : Str → Header → Str → List (ℕ × Str)
line_groups digits h msg = (5, msg) ∷ (4, h.proc_id) ∷ (3, h.app) ∷ (2, h.host) ∷ (1, digits) ∷ []

First-line :
    (c : ℕ) (w : Str) (h : Header) (msg : Str)
    → AreDigits (c ∷ w)
    → IsHeader h
    → Stops is_space msg
    → (at : ℕ) × First rfc5424
        (cursor 0 (b'<' ∷ c ∷ (w ++ header_text h (msg ++ []))) [])
        (cursor at [] (line_groups (c ∷ w) h msg))
First-line c w h msg digits ok msg_ok = (
  _,
  First-seq start _ (First-start _ []) (
      First-seq _ _ (First-unit _ 0 b'<' _ [] refl) (
        First-seq _ _
          (captures 1 _ 1 (c ∷ w) (header_text h (msg ++ [])) []
            (First-plus is_digit 1 c w _ [] digits refl))
          (First-seq _ _ (First-unit _ _ b'>' _ _ refl) (
            First-seq _ _ (First-unit _ _ b'1' _ _ refl) (
              skip_field _ h.time _ _ _ ok.time_field (
                take_field 2 _ h.host _ _ _ ok.host_field (
                  take_field 3 _ h.app _ _ _ ok.app_field (
                    take_field 4 _ h.proc_id _ _ _ ok.proc_id_field (
                      skip_field _ h.msg_id _ _ _ ok.msg_id_field (
                        skip_field _ h.structured _ _ _ ok.structured_field
                          (First-message _ msg _ msg_ok))))))))))),
)

exec_line :
    (digits : Str) (h : Header) (msg : Str)
    → digits ≢ []
    → AreDigits digits
    → IsHeader h
    → Stops is_space msg
    → (at : ℕ) × (exec rfc5424 (b'<' ∷ (digits ++ header_text h msg))
        ≡ some (cursor at [] (line_groups digits h msg)))
exec_line [] h msg ne digits ok msg_ok = absurd (ne refl)
exec_line (c ∷ w) h msg ne digits ok msg_ok =
    let (at, found) = First-line c w h msg digits ok msg_ok in
    let line = c ∷ (w ++ header_text h (msg ++ [])) in
    (
      at,
      rw append-nil at (exec_lem rfc5424 (b'<' ∷ line) ∙ exec_from-First rfc5424 0 b'<' line found),
    )

pub pri_of-decimal : (pri : ℕ) → pri < 2 ^ 53 → pri_of (decimal pri) ≡ pri
unfolding pri_of
pri_of-decimal pri small = rw (digits_value-decimal pri) (to_double_exact pri small)

-- An RFC 5424 line is taken apart into the parts that it was written from: the level by the low
-- three bits of the priority and the facility by the rest, host and app with their defaults for
-- `-`, the process id and the message. The header's fields have no white space, the message does
-- not begin with any, and the priority is below 2 ^ 53.
pub normalize_5424 :
    (id timestamp : Str) (e : RawEntry) (pri : ℕ) (h : Header) (msg : Str)
    → e.message ≡ write_5424 pri h msg
    → pri < 2 ^ 53
    → IsHeader h
    → Stops is_space msg
    → from_message id timestamp e ≡ record {
      id = id;
      timestamp = timestamp;
      level = pri_to_sev pri;
      host = dash_or h.host (codes "unknown");
      app = dash_or h.app (codes "syslog");
      env = codes "prod";
      message = msg;
      meta =
          (codes "pid", text h.proc_id)
          ∷ (codes "facility", number (pri / 8))
          ∷ (codes "raw", text e.message)
          ∷ [];
    }
unfolding from_message from_5424
normalize_5424 id timestamp e pri h msg line small ok msg_ok =
    let (at, found) =
      exec_line (decimal pri) h msg (decimal-ne-nil pri) (decimal-AreDigits pri) ok msg_ok in
    let there : exec rfc5424 e.message ≡ some (cursor at [] (line_groups (decimal pri) h msg)) =
      ap (exec rfc5424) line ∙ found in
    rw (there, from_message) (rw (pri_of-decimal pri small))
