-- ===== src/Query/RoundTrip.antt =====
-- `parseQuery` of web/src/lib/queryParser.js reads back a query that is written from labels and
-- quoted terms.
use hackathon.Common.{
  ℕ, suc, true, false, some, List, [], ◌∷◌, ◌++◌, ◌≡◌, refl, ap, ◌∙◌, arith, Str, codes, All,
  All-map, All-append, is_space, is_word, append_assoc, append-nil,
}
use hackathon.Regex.Fails.{Lacks, at_after, exec_from-skip}
use hackathon.Regex.Scan.{exec_all_lem, exec_lem}
use hackathon.Regex.First.{
  First, First-unit, First-seq, First-star, First-plus, First-end, captures, exec_from-First,
}
use hackathon.Regex.{
  exec, is_unit, no_unit, star, group, end, plus, is_dot, ◌▹◌, cursor, Cursor, text_of,
}
use hackathon.Query.Labels.{IsLabel, write_label, write_labels, labels_read}
use hackathon.Query.Terms.{IsTerm, write_terms, terms_in-write_terms, write_more}
use hackathon.Query.{
  Label, label_block, label_pair, pipe_section, query_terms, labels_in, parse_query, primary,
  terms_in,
}

-- No brace and no pipe.
abbrev IsClean : ℕ → Type 0
IsClean c = (no_unit b'}' c ≡ true) × (is_unit b'|' c ≡ false)

word-IsClean : (c : ℕ) → is_word c ≡ true → IsClean c
unfolding is_word
word-IsClean c h = ground arith

words-IsClean : (w : Str) → All (λ c. is_word c ≡ true) w → All IsClean w
words-IsClean [] h = tt
words-IsClean (c ∷ w) h = (word-IsClean c h.0, words-IsClean w h.1)

value-IsClean :
    (v : Str)
    → All (λ c. (no_unit b'"' c ≡ true) × (no_unit b'}' c ≡ true) × (is_unit b'|' c ≡ false)) v
    → All IsClean v
value-IsClean [] h = tt
value-IsClean (c ∷ v) h = ((h.0.1, h.0.2), value-IsClean v h.1)

label-IsClean :
    (l : Label) (rest : Str) → IsLabel l → All IsClean rest → All IsClean (write_label l rest)
label-IsClean l rest (_, key, value) h = All-append IsClean l.key _ (words-IsClean l.key key) (
  (refl, refl),
  ((refl, refl), All-append IsClean l.value _ (value-IsClean l.value value) ((refl, refl), h)),
)

labels-IsClean : (ls : List Label) → All IsLabel ls → All IsClean (write_labels ls)
labels-IsClean [] h = tt
labels-IsClean (l ∷ []) h = label-IsClean l [] h.0 tt
labels-IsClean (l ∷ m ∷ ls) h =
    label-IsClean l (codes ", " ++ write_labels (m ∷ ls)) h.0
      ((refl, refl), ((refl, refl), labels-IsClean (m ∷ ls) h.1))

no_braces : (w : Str) → All IsClean w → All (λ c. no_unit b'}' c ≡ true) w
no_braces [] h = tt
no_braces (c ∷ w) h = (h.0.0, no_braces w h.1)

no_pipes : (w : Str) → All IsClean w → Lacks (is_unit b'|') w
no_pipes [] h = tt
no_pipes (c ∷ w) h = (h.0.1, no_pipes w h.1)

-- `{k="v", …} | "t" OR …`, with what stands between the braces given as `inner`.
abbrev pub write_query : List Label → Str → List Str → Str
write_query ls t us = b'{' ∷ (write_labels ls ++ (codes "} | " ++ write_terms t us))

exec-label_block :
    (inner rest : Str)
    → All IsClean inner
    → (m : Cursor) × (exec label_block (b'{' ∷ (inner ++ b'}' ∷ rest)) ≡ some m)
      × (text_of 1 m ≡ inner)
exec-label_block inner rest h = (
  _,
  exec_lem label_block _
      ∙ exec_from-First label_block 0 b'{' (inner ++ b'}' ∷ rest) (
          First-seq _ _ (First-unit _ 0 b'{' _ [] refl) (
            First-seq _ _
              (captures 1 _ 1 inner (b'}' ∷ rest) []
                (First-star _ 1 inner (b'}' ∷ rest) [] (no_braces inner h) refl))
              (First-unit _ _ b'}' rest _ refl))),
  refl,
)

labels_in-write_query :
    (ls : List Label) (rest : Str)
    → All IsLabel ls
    → labels_in (b'{' ∷ (write_labels ls ++ b'}' ∷ rest)) ≡ ls
unfolding labels_in
labels_in-write_query ls rest h =
    let (m, found, text) = exec-label_block (write_labels ls) rest (labels-IsClean ls h) in
    rw (found, labels_in)
      (rw (text, exec_all_lem label_pair (write_labels ls)) (labels_read 0 ls h))

First-pipe :
    (at c : ℕ) (w : Str)
    → All (λ x. is_dot x ≡ true) (c ∷ w)
    → is_space c ≡ false
    → First pipe_section
        (cursor at (codes "| " ++ c ∷ (w ++ [])) [])
        (cursor (at_after (suc (suc at)) (c ∷ w)) [] ((1, c ∷ w) ∷ []))
First-pipe at c w dots visible =
    First-seq _ _ (First-unit _ at b'|' (b' ' ∷ c ∷ (w ++ [])) [] refl) (
      First-seq _ _
        (First-star is_space (suc at) (b' ' ∷ []) (c ∷ (w ++ [])) [] (unfold is_space in refl, tt)
          visible)
        (First-seq _ _
          (captures 1 _ (suc (suc at)) (c ∷ w) [] [] (First-plus is_dot _ c w [] [] dots tt))
          (First-end _ _)))

query_terms-write :
    (before : Str) (c : ℕ) (w : Str)
    → Lacks (is_unit b'|') before
    → All (λ x. is_dot x ≡ true) (c ∷ w)
    → is_space c ≡ false
    → query_terms (before ++ (codes "| " ++ c ∷ w)) ≡ terms_in (c ∷ w)
unfolding query_terms
query_terms-write before c w none_before dots visible =
    let r = star is_space ▹ group 1 (plus is_dot) ▹ end in
    let at = at_after 0 before in
    let skipped =
      exec_from-skip (is_unit b'|') r 0 before (codes "| " ++ c ∷ (w ++ [])) none_before in
    let found =
      exec_from-First pipe_section at b'|' (b' ' ∷ c ∷ (w ++ []))
        (First-pipe at c w dots visible) in
    let e = exec_lem pipe_section (before ++ (codes "| " ++ c ∷ (w ++ []))) ∙ skipped ∙ found in
    rw (rw append-nil at e, query_terms)

term_dots :
    (t rest : Str)
    → IsTerm t
    → All (λ x. is_dot x ≡ true) rest
    → All (λ x. is_dot x ≡ true) (t ++ rest)
term_dots t rest (_, h) k = All-append _ t rest (All-map (λ x. is_dot x ≡ true) (λ c p. p.1) t h) k

more_dots : (us : List Str) → All IsTerm us → All (λ x. is_dot x ≡ true) (write_more us)
unfolding is_dot
more_dots [] h = tt
more_dots (u ∷ us) h =
    (refl, (refl, (refl, (refl, (refl, term_dots u _ h.0 (refl, more_dots us h.1))))))

terms_read :
    (ls : List Label) (t : Str) (us : List Str)
    → All IsLabel ls
    → IsTerm t
    → All IsTerm us
    → query_terms (write_query ls t us) ≡ t ∷ us
unfolding is_dot is_space
terms_read ls t us h k m =
    let before = b'{' ∷ (write_labels ls ++ codes "} ") in
    let clean = no_pipes (write_labels ls) (labels-IsClean ls h) in
    let lacks : Lacks (is_unit b'|') before =
      (refl, All-append _ (write_labels ls) (codes "} ") clean (refl, (refl, tt))) in
    let dots : All (λ x. is_dot x ≡ true) (write_terms t us) =
      (refl, term_dots t _ k (refl, more_dots us m)) in
    let split : write_query ls t us ≡ before ++ (codes "| " ++ write_terms t us) =
      simp append_assoc in
    ap query_terms split
    ∙ query_terms-write before b'"' (t ++ b'"' ∷ write_more us) lacks dots refl
    ∙ terms_in-write_terms t us k m

-- A query that is written as `{key="value", …} | "term" OR …` is read back: its labels and its
-- terms in order, the first term as the primary one. Keys are words, values have no quote, brace
-- or pipe, and terms are not empty and have no quote and no line end.
pub parse_query-write_query :
    (ls : List Label) (t : Str) (us : List Str)
    → All IsLabel ls
    → IsTerm t
    → All IsTerm us
    → parse_query (write_query ls t us)
      ≡ record { labels = ls; terms = t ∷ us; primary_term = t; raw = write_query ls t us }
unfolding parse_query
parse_query-write_query ls t us h k m =
    let terms = terms_read ls t us h k m in
    let labels = labels_in-write_query ls (codes " | " ++ write_terms t us) h in
    λ i. record {
      labels = labels i;
      terms = terms i;
      primary_term = primary (terms i);
      raw = write_query ls t us;
    }
