-- ===== src/Query/Normalize/Patterns.antt =====
-- The regular expressions of `normalizeLogEntry` in web/src/lib/queryParser.js.
use hackathon.Common.{ℕ, Bool, not, ◌||◌, ◌==◌, is_space, is_word, is_digit}
use hackathon.Regex.{
  Regex, unit, start, end, star, group, plus, lazy_plus, optional, ◌▹◌, is_unit, no_unit, any_unit,
}

abbrev pub no_space : ℕ → Bool
no_space c = not (is_space c)

abbrev pub is_clock : ℕ → Bool
is_clock c = is_digit c || c == b':'

-- `/^<(\d+)>1\s+\S+\s+(\S+)\s+(\S+)\s+(\S+)\s+\S+\s+\S+\s+([\s\S]*)$/`
abbrev pub spaces : Regex
spaces = plus is_space

abbrev pub field : Regex
field = plus no_space

abbrev pub rfc5424 : Regex
rfc5424 =
    start
    ▹ unit (is_unit b'<')
    ▹ group 1 (plus is_digit)
    ▹ unit (is_unit b'>')
    ▹ unit (is_unit b'1')
    ▹ spaces
    ▹ field
    ▹ spaces
    ▹ group 2 field
    ▹ spaces
    ▹ group 3 field
    ▹ spaces
    ▹ group 4 field
    ▹ spaces
    ▹ field
    ▹ spaces
    ▹ field
    ▹ spaces
    ▹ group 5 (star any_unit)
    ▹ end

-- `/^<(\d+)>\w+\s+\d+\s+[\d:]+\s+(\S+)\s+(\S+?)(?:\[(\d+)\])?:\s+([\s\S]*)$/`
abbrev pub rfc3164 : Regex
rfc3164 =
    start
    ▹ unit (is_unit b'<')
    ▹ group 1 (plus is_digit)
    ▹ unit (is_unit b'>')
    ▹ plus is_word
    ▹ spaces
    ▹ plus is_digit
    ▹ spaces
    ▹ plus is_clock
    ▹ spaces
    ▹ group 2 field
    ▹ spaces
    ▹ group 3 (lazy_plus no_space)
    ▹ optional (unit (is_unit b'[') ▹ group 4 (plus is_digit) ▹ unit (is_unit b']'))
    ▹ unit (is_unit b':')
    ▹ spaces
    ▹ group 5 (star any_unit)
    ▹ end

-- `/^\[([^\]]+)\]/`
abbrev pub app_prefix : Regex
app_prefix = start ▹ unit (is_unit b'[') ▹ group 1 (plus (no_unit b']')) ▹ unit (is_unit b']')

-- `/^(?:<\d+>)?\S+\s+(\S+)/`
abbrev pub host_token : Regex
host_token =
    start
    ▹ optional (unit (is_unit b'<') ▹ plus is_digit ▹ unit (is_unit b'>'))
    ▹ field
    ▹ spaces
    ▹ group 1 field
