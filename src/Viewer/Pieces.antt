-- ===== src/Viewer/Pieces.antt =====
-- The texts of the pieces that `highlightText` of web/src/components/LogViewer.jsx makes.
use hackathon.Common.{
  append-nil, ℕ, suc, ◌+◌, ◌-◌, ◌≤◌, Bool, true, some, List, [], ◌∷◌, ◌≡◌, refl, ap, ◌∙◌, arith,
  Str, inl, inr, All, All-append, All-map, Bool-cases, length, take, filter, map, is_space, ltb,
  join,
}
use hackathon.Regex.{
  Regex, Cursor, cursor, matches, unit, group, ◌▹◌, split, replace_all, plus, capture_all,
  captured_texts, first_of_list,
}
use hackathon.Regex.Split.{IsWhole, join-split}
use hackathon.Viewer.Highlight.{
  Piece, word, any_word, term_unit, highlight_terms, mark_parts, mark_terms, is_removed, test,
  highlight_text,
}

-- The groups are those at the start, and the match is not empty.
abbrev IsAfter : ℕ → List (ℕ × Str) → Cursor → Type 0
IsAfter at g t = (t.groups ≡ g) × (at ≤ t.at)

filter-All {ℓ} : {A : Type ℓ} (p : A → Bool) (xs : List A) → All (λ x. p x ≡ true) (filter p xs)
filter-All p [] = tt
filter-All p (x ∷ xs) = let rest = filter-All p xs in ground arith

module _ (Q : Cursor → Type 0) where
  All-unit :
      (p : ℕ → Bool) (r : Regex) (at c : ℕ) (s : Str) (g : List (ℕ × Str))
      → All Q (matches r (cursor (suc at) s g))
      → All Q (matches (unit p ▹ r) (cursor at (c ∷ s) g))
  unfolding matches
  All-unit p r at c s g h = elim (Bool-cases (p c)) [
    | inl e ↦ rw (e, append-nil (matches r (cursor (suc at) s g))) h
    | inr e ↦ rw e tt
  ]

word-All :
    (w : Str) (at : ℕ) (s : Str) (g : List (ℕ × Str))
    → All (IsAfter (at + length w) g) (matches (word w) (cursor at s g))
unfolding word matches
word-All [] at s g = ((refl, omega arith), tt)
word-All (c ∷ w) at [] g = tt
word-All (c ∷ w) at (d ∷ s) g =
    let rest : All (IsAfter (at + length (c ∷ w)) g) (matches (word w) (cursor (suc at) s g)) =
      All-map (IsAfter (at + length (c ∷ w)) g) (λ t h. (h.0, omega arith)) _
        (word-All w (suc at) s g) in
    unfold word in All-unit (IsAfter (at + length (c ∷ w)) g) (term_unit c) (word w) at d s g rest

any_word-All :
    (m : ℕ) (w : Str) (ws : List Str) (at : ℕ) (s : Str) (g : List (ℕ × Str))
    → All (λ v. m ≤ length v) (w ∷ ws)
    → All (IsAfter (at + m) g) (matches (any_word w ws) (cursor at s g))
unfolding any_word matches
any_word-All m w [] at s g (long, h) =
    All-map (IsAfter (at + m) g) (λ t k. (k.0, omega arith)) _ (word-All w at s g)
any_word-All m w (v ∷ ws) at s g (long, h) =
    All-append (IsAfter (at + m) g) (matches (word w) (cursor at s g)) _
      (All-map (IsAfter (at + m) g) (λ t k. (k.0, omega arith)) _ (word-All w at s g))
      (any_word-All m v ws at s g h)

IsCaptured : ℕ → Str → Cursor → Type 0
IsCaptured at s t = (captured_texts t.groups ≡ take (t.at - at) s ∷ []) × (suc at ≤ t.at)

capture_all-All :
    (at : ℕ) (s : Str) (ts : List Cursor)
    → All (IsAfter (suc at) []) ts
    → All (IsCaptured at s) (capture_all 1 (cursor at s []) ts)
unfolding capture_all IsCaptured
capture_all-All at s [] h = tt
capture_all-All at s (t ∷ ts) ((grouped, later), h) =
    ((ap (λ g. take (t.at - at) s ∷ captured_texts g) grouped, later), capture_all-All at s ts h)

first_of_list-All :
    (Q : Cursor → Type 0) (ts : List Cursor) (t : Cursor)
    → All Q ts
    → first_of_list ts ≡ some t
    → Q t
first_of_list-All Q [] t h e = cc
first_of_list-All Q (u ∷ ts) t (q, h) e = ground arith

any_word-IsWhole :
    (w : Str) (ws : List Str) → All (λ v. 1 ≤ length v) (w ∷ ws) → IsWhole (group 1 (any_word w ws))
unfolding matches IsCaptured
any_word-IsWhole w ws long at c s t e =
    first_of_list-All (IsCaptured at (c ∷ s))
      (matches (group 1 (any_word w ws)) (cursor at (c ∷ s) [])) t
      (capture_all-All at (c ∷ s) (matches (any_word w ws) (cursor at (c ∷ s) [])) (
        All-map (IsAfter (suc at) []) (λ u k. (k.0, omega arith)) _
          (any_word-All 1 w ws at (c ∷ s) [] long)))
      e

abbrev pub texts_of : List Piece → List Str
texts_of ps = map (λ p. p.text) ps

texts_of-mark_parts : (r : Regex) (last : ℕ) (ps : List Str) → texts_of (mark_parts r last ps) ≡ ps
unfolding mark_parts
texts_of-mark_parts r last [] = refl
texts_of-mark_parts r last (p ∷ ps) = ap (◌∷◌ p) (texts_of-mark_parts r (test r last p).1 ps)

long_enough : (v : Str) → ltb 2 (length v) ≡ true → 1 ≤ length v
long_enough v h = ground arith

highlight_terms-All : (query : Str) → All (λ v. 1 ≤ length v) (highlight_terms query)
unfolding highlight_terms
highlight_terms-All query =
    let words = map (replace_all (unit is_removed)) (split (plus is_space) query) in
    All-map (λ v. 1 ≤ length v) long_enough (highlight_terms query)
      (filter-All (λ (t : Str). ltb 2 (length t)) words)

marked_text :
    (terms : List Str) (text : Str)
    → All (λ v. 1 ≤ length v) terms
    → join (texts_of (mark_terms terms text)) ≡ text
unfolding mark_terms
marked_text [] text h = append-nil text
marked_text (w ∷ ws) text h =
    ap join (texts_of-mark_parts (group 1 (any_word w ws)) 0 (split (group 1 (any_word w ws)) text))
    ∙ join-split (group 1 (any_word w ws)) (any_word-IsWhole w ws h) text

-- The pieces that a text is shown as give, one behind the other, the text: highlighting adds,
-- drops and changes nothing, whatever the query is.
pub join-highlight_text : (text query : Str) → join (texts_of (highlight_text text query)) ≡ text
unfolding highlight_text
join-highlight_text [] query = refl
join-highlight_text (c ∷ text) [] = append-nil (c ∷ text)
join-highlight_text (c ∷ text) (q ∷ query) =
    marked_text (highlight_terms (q ∷ query)) (c ∷ text) (highlight_terms-All (q ∷ query))
