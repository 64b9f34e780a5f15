-- ===== src/Regex.antt =====
-- The part of ECMAScript's regular expressions that web/src uses: `matches` lists the ways to
-- match at a cursor in the order in which backtracking tries them, so its head is the match found.
-- `exec`, `exec_all`, `replace_all` and `split` are the methods over it. A literal is translated
-- part by part; `*` and `*?` stand over single classes only, as in the source.
pub mod First
pub mod Fails
pub mod Scan
pub mod Split
pub mod Lazy
pub mod Anchor
pub mod Moves
pub mod Loop
use hackathon.Common.{
  ℕ, zero, suc, ◌+◌, ◌-◌, Bool, true, false, not, ◌||◌, Option, none, some, List, [], ◌∷◌, ◌++◌,
  Str, take, leb, ◌==◌, if◌then◌else◌,
}

pub data Regex : Type 0 where
  empty : Regex
  unit : (ℕ → Bool) → Regex
  start end : Regex
  seq alt : Regex → Regex → Regex
  star lazy : (ℕ → Bool) → Regex
  group : ℕ → Regex → Regex

-- A place in the input, the input behind it and the groups captured, the latest first.
pub record Cursor : Type 0 where
  pub at : ℕ
  pub rest : Str
  pub groups : List (ℕ × Str)

abbrev pub cursor : ℕ → Str → List (ℕ × Str) → Cursor
cursor at rest groups = record { at = at; rest = rest; groups = groups }

pub star_from : (ℕ → Bool) → ℕ → Str → List (ℕ × Str) → List Cursor
star_from p at [] g = cursor at [] g ∷ []
star_from p at (c ∷ s) g =
    let more = star_from p (suc at) s g in
    if p c then more ++ cursor at (c ∷ s) g ∷ [] else cursor at (c ∷ s) g ∷ []

pub lazy_from : (ℕ → Bool) → ℕ → Str → List (ℕ × Str) → List Cursor
lazy_from p at [] g = cursor at [] g ∷ []
lazy_from p at (c ∷ s) g =
    let more = lazy_from p (suc at) s g in cursor at (c ∷ s) g ∷ (if p c then more else [])

unfoldable pub each : List Cursor → (Cursor → List Cursor) → List Cursor
each [] f = []
each (t ∷ ts) f = f t ++ each ts f

-- The cursor after a group that was entered at `m`.
abbrev pub capture : ℕ → Cursor → Cursor → Cursor
capture n m t = record t { groups = (n, take (t.at - m.at) m.rest) ∷ t.groups }

unfoldable pub capture_all : ℕ → Cursor → List Cursor → List Cursor
capture_all n m [] = []
capture_all n m (t ∷ ts) = capture n m t ∷ capture_all n m ts

abbrev pub match_unit : (ℕ → Bool) → ℕ → Str → List (ℕ × Str) → List Cursor
match_unit p at [] g = []
match_unit p at (c ∷ s) g = if p c then cursor (suc at) s g ∷ [] else []

abbrev pub is_nil : Str → Bool
is_nil [] = true
is_nil (c ∷ s) = false

unfoldable pub matches : Regex → Cursor → List Cursor
unfolding star_from lazy_from each capture_all
matches empty m = m ∷ []
matches (unit p) m = match_unit p m.at m.rest m.groups
matches start m = if m.at == 0 then m ∷ [] else []
matches end m = if is_nil m.rest then m ∷ [] else []
matches (seq a b) m = each (matches a m) (matches b)
matches (alt a b) m = matches a m ++ matches b m
matches (star p) m = star_from p m.at m.rest m.groups
matches (lazy p) m = lazy_from p m.at m.rest m.groups
matches (group n r) m = capture_all n m (matches r m)

abbrev pub first_of_list : List Cursor → Option Cursor
first_of_list [] = none
first_of_list (t ∷ ts) = some t

-- The match at one place, with no group captured yet.
abbrev pub match_at : Regex → ℕ → Str → Option Cursor
match_at r at s = first_of_list (matches r (cursor at s []))

-- `s.match(r)` without the flag g, from the place `at` on: the leftmost match.
unfoldable pub exec_from : Regex → ℕ → Str → Option Cursor
unfolding matches
exec_from r at [] = match_at r at []
exec_from r at (c ∷ s) =
    let later = exec_from r (suc at) s in
    elim (match_at r at (c ∷ s)) [ none ↦ later | some t ↦ some t ]

unfoldable pub exec : Regex → Str → Option Cursor
unfolding exec_from
exec r s = exec_from r 0 s

abbrev pub lookup_group : ℕ → List (ℕ × Str) → Option Str
lookup_group n [] = none
lookup_group n ((k, s) ∷ g) = let rest = lookup_group n g in if k == n then some s else rest

-- `m[n]`, which is `undefined` for a group that took no part.
abbrev pub group? : ℕ → Cursor → Option Str
group? n m = lookup_group n m.groups

-- `m[n]` of a group that always takes part.
abbrev pub text_of : ℕ → Cursor → Str
text_of n m = elim (lookup_group n m.groups) [ none ↦ [] | some s ↦ s ]

-- The loop over `re.exec(s)` with the flag g, for a pattern that matches no empty text. `skip`
-- units belong to the match before.
pub exec_all_from : Regex → ℕ → ℕ → Str → List Cursor
unfolding matches
exec_all_from r at skip [] = []
exec_all_from r at (suc skip) (c ∷ s) = exec_all_from r (suc at) skip s
exec_all_from r at zero (c ∷ s) = elim (match_at r at (c ∷ s)) [
  | none ↦ exec_all_from r (suc at) zero s
  | some t ↦ t ∷ exec_all_from r (suc at) (t.at - suc at) s
]

unfoldable pub exec_all : Regex → Str → List Cursor
unfolding exec_all_from
exec_all r s = exec_all_from r 0 0 s

-- `s.replace(r, '')` with the flag g, for a pattern that matches no empty text.
replace_all_from : Regex → ℕ → ℕ → Str → Str
unfolding matches
replace_all_from r at skip [] = []
replace_all_from r at (suc skip) (c ∷ s) = replace_all_from r (suc at) skip s
replace_all_from r at zero (c ∷ s) = elim (match_at r at (c ∷ s)) [
  | none ↦ c ∷ replace_all_from r (suc at) zero s
  | some t ↦ replace_all_from r (suc at) (t.at - suc at) s
]

unfoldable pub replace_all : Regex → Str → Str
unfolding replace_all_from
replace_all r s = replace_all_from r 0 0 s

-- The groups in the order of their numbers, for the single group that `split` meets here.
abbrev pub captured_texts : List (ℕ × Str) → List Str
captured_texts [] = []
captured_texts ((n, s) ∷ g) = s ∷ captured_texts g

-- `s.split(r)` for a pattern that matches no empty text: the pieces, with the group's text between
-- them. `piece` is what has been read of the current one.
pub split_from : Regex → ℕ → ℕ → Str → Str → List Str
unfolding matches
split_from r at skip piece [] = piece ∷ []
split_from r at (suc skip) piece (c ∷ s) = split_from r (suc at) skip piece s
split_from r at zero piece (c ∷ s) = elim (match_at r at (c ∷ s)) [
  | none ↦ split_from r (suc at) zero (piece ++ c ∷ []) s
  | some t ↦ piece ∷ (captured_texts t.groups ++ split_from r (suc at) (t.at - suc at) [] s)
]

unfoldable pub split : Regex → Str → List Str
unfolding split_from
split r s = split_from r 0 0 [] s

-- Patterns and classes.
abbrev pub plus : (ℕ → Bool) → Regex
plus p = seq (unit p) (star p)

abbrev pub lazy_plus : (ℕ → Bool) → Regex
lazy_plus p = seq (unit p) (lazy p)

abbrev pub optional : Regex → Regex
optional r = alt r empty

abbrev pub is_unit : ℕ → ℕ → Bool
is_unit k c = c == k

abbrev pub no_unit : ℕ → ℕ → Bool
no_unit k c = not (c == k)

abbrev pub any_unit : ℕ → Bool
any_unit c = true

-- `.`: any unit but a line end.
unfoldable pub is_dot : ℕ → Bool
is_dot c = not (c == 10 || c == 13 || c == 0x2028 || c == 0x2029)

infixr 60 ◌▹◌
abbrev pub ◌▹◌ : Regex → Regex → Regex
a ▹ b = seq a b
