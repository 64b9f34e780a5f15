-- ===== src/Viewer/Highlight.antt =====
-- `highlightText` of web/src/components/LogViewer.jsx.
use hackathon.Common.{
  ℕ, ◌+◌, Bool, true, false, not, ◌&&◌, ◌||◌, none, some, List, [], ◌∷◌, Str, ltb, leb, ◌==◌,
  length, drop, if◌then◌else◌, filter, map, is_space, is_digit,
}
use hackathon.Regex.{
  Regex, empty, unit, alt, group, plus, ◌▹◌, is_dot, exec_from, split, replace_all,
}

-- A part of a text, with or without its `<mark>`.
pub record Piece : Type 0 where
  pub marked : Bool
  pub text : Str

abbrev pub is_small : ℕ → Bool
is_small c = leb b'a' c && leb c b'z'

abbrev pub is_capital : ℕ → Bool
is_capital c = leb b'A' c && leb c b'Z'

-- `[^a-z0-9_\-.]` with the flag i.
abbrev pub is_removed : ℕ → Bool
is_removed c = not (is_small c || is_capital c || is_digit c || c == b'_' || c == b'-' || c == b'.')

abbrev pub small : ℕ → ℕ
small c = if is_capital c then c + 32 else c

-- A unit of the expression that is built from a term, with the flag i. A full stop is not escaped.
unfoldable pub term_unit : ℕ → ℕ → Bool
unfolding is_dot
term_unit k c = if k == b'.' then is_dot c else small c == small k

unfoldable pub word : Str → Regex
unfolding term_unit
word [] = empty
word (c ∷ w) = unit (term_unit c) ▹ word w

-- The terms joined with `|`.
unfoldable pub any_word : Str → List Str → Regex
unfolding word
any_word w [] = word w
any_word w (v ∷ ws) = alt (word w) (any_word v ws)

-- The words of a query that are looked for, label selectors included.
unfoldable pub highlight_terms : Str → List Str
unfolding split replace_all
highlight_terms query =
    filter (λ t. ltb 2 (length t))
      (map (replace_all (unit is_removed)) (split (plus is_space) query))

-- `regex.test(s)` with the flag g, at `lastIndex`: the answer and the next `lastIndex`.
unfoldable pub test : Regex → ℕ → Str → Bool × ℕ
unfolding exec_from
test r last s =
    if ltb (length s) last
    then (false, 0)
    else elim (exec_from r last (drop last s)) [ none ↦ (false, 0) | some t ↦ (true, t.at) ]

-- `parts.map(...)`, from `lastIndex` on.
unfoldable pub mark_parts : Regex → ℕ → List Str → List Piece
unfolding test
mark_parts r last [] = []
mark_parts r last (p ∷ ps) =
    let found = test r last p in record { marked = found.0; text = p } ∷ mark_parts r found.1 ps

abbrev pub plain : Str → List Piece
plain text = record { marked = false; text = text } ∷ []

-- The parts of a text for the terms of a query.
unfoldable pub mark_terms : List Str → Str → List Piece
unfolding any_word split mark_parts
mark_terms [] text = plain text
mark_terms (w ∷ ws) text =
    let regex = group 1 (any_word w ws) in mark_parts regex 0 (split regex text)

-- The pieces that a text is shown as, for the query of the page.
unfoldable pub highlight_text : Str → Str → List Piece
unfolding highlight_terms mark_terms
highlight_text [] query = plain []
highlight_text (c ∷ text) [] = plain (c ∷ text)
highlight_text (c ∷ text) (q ∷ query) = mark_terms (highlight_terms (q ∷ query)) (c ∷ text)
