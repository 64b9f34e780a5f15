-- ===== src/Query.antt =====
-- web/src/lib/queryParser.js: `parseQuery` and `applyLabelFilters`. `normalizeLogEntry` is in
-- Query/Normalize.
pub mod Normalize
pub mod Pipe
pub mod Loops
pub mod Labels
pub mod RoundTrip
pub mod Terms
pub mod Filters
pub mod Tests
use hackathon.Common.{
  ℕ, Bool, true, false, ◌&&◌, ◌||◌, Option, none, some, List, [], ◌∷◌, ◌++◌, map, Str, codes,
  is_space, is_word, is_digit, ◌==◌, leb, ◌+◌, if◌then◌else◌, filter, or_else, drop_while, str_eq,
  all,
}
use hackathon.Regex.{
  Regex, Cursor, unit, start, end, seq, alt, star, group, plus, ◌▹◌, is_unit, no_unit, is_dot, exec,
  exec_all, replace_all, split, text_of,
}

pub record Label : Type 0 where
  pub key : Str
  pub value : Str

pub record ParsedQuery : Type 0 where
  pub labels : List Label
  pub terms : List Str
  pub primary_term : Str
  pub raw : Str

-- `/\{([^}]*)\}/`
abbrev pub label_block : Regex
label_block = unit (is_unit b'{') ▹ group 1 (star (no_unit b'}')) ▹ unit (is_unit b'}')

-- `/(\w+)\s*=\s*"([^"]*)"/g`
abbrev pub label_pair : Regex
label_pair =
    group 1 (plus is_word)
    ▹ star is_space
    ▹ unit (is_unit b'=')
    ▹ star is_space
    ▹ unit (is_unit b'"')
    ▹ group 2 (star (no_unit b'"'))
    ▹ unit (is_unit b'"')

-- `/\|\s*(.+)$/`
abbrev pub pipe_section : Regex
pipe_section = unit (is_unit b'|') ▹ star is_space ▹ group 1 (plus is_dot) ▹ end

-- `/"([^"]+)"/g`
abbrev pub quoted : Regex
quoted = unit (is_unit b'"') ▹ group 1 (plus (no_unit b'"')) ▹ unit (is_unit b'"')

-- One letter under the flag i.
abbrev pub letter : ℕ → ℕ → Bool
letter k c = c == k || c == k + 32

-- `/\s+(?:OR|AND)\s+/i`
abbrev pub or_and : Regex
or_and =
    plus is_space
    ▹ alt (unit (letter b'O') ▹ unit (letter b'R'))
        (unit (letter b'A') ▹ unit (letter b'N') ▹ unit (letter b'D'))
    ▹ plus is_space

abbrev pub is_quote : ℕ → Bool
is_quote c = c == b'"' || c == b'\''

-- `/^["']|["']$/g`
abbrev pub end_quotes : Regex
end_quotes = alt (start ▹ unit is_quote) (unit is_quote ▹ end)

abbrev reverse_onto : Str → Str → Str
reverse_onto [] acc = acc
reverse_onto (c ∷ s) acc = reverse_onto s (c ∷ acc)

-- `s.trim()`
unfoldable pub trim : Str → Str
trim s = reverse_onto (drop_while is_space (reverse_onto (drop_while is_space s) [])) []

abbrev pub label_of : Cursor → Label
label_of m = record { key = text_of 1 m; value = text_of 2 m }

unfoldable pub labels_in : Str → List Label
labels_in query = elim (exec label_block query) [
  | none ↦ []
  | some m ↦ map label_of (exec_all label_pair (text_of 1 m))
]

abbrev pub is_truthy : Str → Bool
is_truthy [] = false
is_truthy (c ∷ s) = true

-- `w.trim().replace(/^["']|["']$/g, '')`
unfoldable pub bare_word : Str → Str
bare_word w = replace_all end_quotes (trim w)

unfoldable pub bare_words : Str → List Str
bare_words section = filter is_truthy (map bare_word (split or_and section))

-- Quoted strings, or else bare words.
unfoldable pub terms_in : Str → List Str
terms_in section = elim (map (text_of 1) (exec_all quoted section)) [
  | [] ↦ bare_words section
  | t ∷ ts ↦ t ∷ ts
]

unfoldable pub query_terms : Str → List Str
query_terms query = elim (exec pipe_section query) [ none ↦ [] | some m ↦ terms_in (text_of 1 m) ]

-- `terms[0] || ''`
abbrev pub primary : List Str → Str
primary [] = []
primary (t ∷ ts) = t

unfoldable pub parse_query : Str → ParsedQuery
parse_query query = record {
  labels = labels_in query;
  terms = query_terms query;
  primary_term = primary (query_terms query);
  raw = query;
}
