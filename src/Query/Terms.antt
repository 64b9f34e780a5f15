-- ===== src/Query/Terms.antt =====
-- The quoted terms behind the pipe, for `parseQuery` of web/src/lib/queryParser.js.
use hackathon.Common.{
  ℕ, zero, suc, ◌+◌, true, false, List, [], ◌∷◌, ◌++◌, map, ◌≡◌, ◌≢◌, refl, sym, ap, ◌∙◌, arith,
  Str, codes, All, length-append, append_assoc, length,
}
use hackathon.Regex.Fails.{at_after}
use hackathon.Regex.Scan.{
  Refuses, exec_all_from-pass, exec_all_from-match, exec_all_from-nil, exec_all_lem,
  seq_unit-Refuses,
}
use hackathon.Regex.First.{First, at_after-add, First-unit, First-seq, First-plus, captures}
use hackathon.Regex.{exec_all_from, is_unit, no_unit, is_dot, cursor, text_of}
use hackathon.Query.{quoted, terms_in}

-- The text in quotes is matched by `/"([^"]+)"/`.
First-quoted :
    (at c : ℕ) (w s : Str)
    → All (λ x. no_unit b'"' x ≡ true) (c ∷ w)
    → First quoted
        (cursor at (b'"' ∷ c ∷ (w ++ b'"' ∷ s)) [])
        (cursor (suc (at_after (suc at) (c ∷ w))) s ((1, c ∷ w) ∷ []))
First-quoted at c w s h = First-seq _ _ (First-unit _ at b'"' _ [] refl) (
    First-seq _ _
      (captures 1 _ (suc at) (c ∷ w) (b'"' ∷ s) [] (First-plus _ (suc at) c w (b'"' ∷ s) [] h refl))
      (First-unit _ _ b'"' s _ refl))

-- Terms that can be written in quotes on the line.
abbrev pub IsTerm : Str → Type 0
IsTerm w = (w ≢ []) × All (λ c. (no_unit b'"' c ≡ true) × (is_dot c ≡ true)) w

abbrev pub write_more : List Str → Str
write_more [] = []
write_more (u ∷ us) = codes " OR \"" ++ (u ++ b'"' ∷ write_more us)

abbrev pub write_terms : Str → List Str → Str
write_terms t us = b'"' ∷ (t ++ b'"' ∷ write_more us)

no_quotes :
    (w : Str)
    → All (λ c. (no_unit b'"' c ≡ true) × (is_dot c ≡ true)) w
    → All (λ c. no_unit b'"' c ≡ true) w
no_quotes [] h = tt
no_quotes (c ∷ w) h = (h.0.0, no_quotes w h.1)

-- One term in quotes, read at any place, with more behind it.
quoted_step :
    (at : ℕ) (t s : Str)
    → IsTerm t
    → (next : ℕ) × (map (text_of 1) (exec_all_from quoted at zero (b'"' ∷ (t ++ b'"' ∷ s)))
        ≡ t ∷ map (text_of 1) (exec_all_from quoted next zero s))
quoted_step at [] s h = absurd (h.0 refl)
quoted_step at (c ∷ w) s (_, h) =
    let body = c ∷ (w ++ b'"' ∷ []) in
    let ends : suc (at_after (suc at) (c ∷ w)) ≡ suc at + length body =
      omega (arith, at_after-add (suc at) (c ∷ w), length-append w (b'"' ∷ [])) in
    let found = First-quoted at c w s (no_quotes (c ∷ w) h) in
    (
      at_after (suc at) body,
      ap (map (text_of 1)) (
          exec_all_from-match quoted at b'"' body s (c ∷ (w ++ b'"' ∷ s)) found
            (ap (◌∷◌ c) (sym (append_assoc w (b'"' ∷ []) s))) ends),
    )

quoted_terms :
    (at : ℕ) (t : Str) (us : List Str)
    → IsTerm t
    → All IsTerm us
    → map (text_of 1) (exec_all_from quoted at zero (write_terms t us)) ≡ t ∷ us
quoted_terms at t [] h k =
    let (next, e) = quoted_step at t [] h in
    e ∙ ap (λ ms. t ∷ map (text_of 1) ms) (exec_all_from-nil quoted next)
quoted_terms at t (u ∷ us) h k =
    let (next, e) = quoted_step at t (codes " OR " ++ write_terms u us) h in
    let passed =
      exec_all_from-pass quoted next (codes " OR ") (write_terms u us)
        (refuse b' ' refl, (refuse b'O' refl, (refuse b'R' refl, (refuse b' ' refl, tt)))) in
    e
    ∙ ap (λ ms. t ∷ map (text_of 1) ms) passed
    ∙ ap (◌∷◌ t) (quoted_terms (at_after next (codes " OR ")) u us k.0 k.1)
  where
    refuse : (c : ℕ) → is_unit b'"' c ≡ false → Refuses quoted c
    refuse c e = seq_unit-Refuses (is_unit b'"') _ c e

pub terms_in-write_terms :
    (t : Str) (us : List Str) → IsTerm t → All IsTerm us → terms_in (write_terms t us) ≡ t ∷ us
unfolding terms_in
terms_in-write_terms t us h k =
    let e =
      ap (map (text_of 1)) (exec_all_lem quoted (write_terms t us)) ∙ quoted_terms 0 t us h k in
    rw (e, terms_in)
