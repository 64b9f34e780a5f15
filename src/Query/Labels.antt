-- ===== src/Query/Labels.antt =====
-- The labels in braces, for `parseQuery` of web/src/lib/queryParser.js.
use hackathon.Common.{
  ℕ, zero, suc, ◌+◌, true, false, List, [], ◌∷◌, ◌++◌, map, ◌≡◌, ◌≢◌, refl, ap, ◌∙◌, arith, Str,
  codes, All, length-append, is_space, is_word, append_assoc, length,
}
use hackathon.Regex.Fails.{at_after}
use hackathon.Regex.Scan.{Refuses, exec_all_from-pass, exec_all_from-match, exec_all_from-nil}
use hackathon.Regex.First.{
  First, at_after-add, First-unit, First-seq, First-star, First-plus, captures,
}
use hackathon.Regex.{matches, exec_all_from, is_unit, no_unit, cursor}
use hackathon.Query.{Label, label_pair, label_of}

-- Labels that can be written in braces.
abbrev pub IsLabel : Label → Type 0
IsLabel l =
    (l.key ≢ [])
    × All (λ c. is_word c ≡ true) l.key
    × All (λ c. (no_unit b'"' c ≡ true) × (no_unit b'}' c ≡ true) × (is_unit b'|' c ≡ false))
        l.value

abbrev pub write_label : Label → Str → Str
write_label l rest = l.key ++ (b'=' ∷ b'"' ∷ (l.value ++ b'"' ∷ rest))

abbrev pub write_labels : List Label → Str
write_labels [] = []
write_labels (l ∷ []) = write_label l []
write_labels (l ∷ m ∷ ls) = write_label l (b',' ∷ b' ' ∷ write_labels (m ∷ ls))

no_quotes :
    (v : Str)
    → All (λ c. (no_unit b'"' c ≡ true) × (no_unit b'}' c ≡ true) × (is_unit b'|' c ≡ false)) v
    → All (λ c. no_unit b'"' c ≡ true) v
no_quotes [] h = tt
no_quotes (c ∷ v) h = (h.0.0, no_quotes v h.1)

First-pair :
    (at c : ℕ) (w v s : Str)
    → All (λ x. is_word x ≡ true) (c ∷ w)
    → All (λ x. no_unit b'"' x ≡ true) v
    → First label_pair
        (cursor at (c ∷ (w ++ (b'=' ∷ b'"' ∷ (v ++ b'"' ∷ s)))) [])
        (cursor (suc (at_after (suc (suc (at_after at (c ∷ w)))) v)) s ((2, v) ∷ (1, c ∷ w) ∷ []))
First-pair at c w v s h k =
    let key_end = at_after at (c ∷ w) in
    First-seq _ _
      (captures 1 _ at (c ∷ w) (b'=' ∷ b'"' ∷ (v ++ b'"' ∷ s)) []
        (First-plus _ at c w (b'=' ∷ b'"' ∷ (v ++ b'"' ∷ s)) [] h (unfold is_word in refl)))
      (First-seq _ _
        (First-star is_space key_end [] (b'=' ∷ b'"' ∷ (v ++ b'"' ∷ s)) _ tt
          (unfold is_space in refl))
        (First-seq _ _ (First-unit _ key_end b'=' _ _ refl) (
          First-seq _ _
            (First-star is_space (suc key_end) [] (b'"' ∷ (v ++ b'"' ∷ s)) _ tt
              (unfold is_space in refl))
            (First-seq _ _ (First-unit _ (suc key_end) b'"' _ _ refl) (
              First-seq _ _
                (captures 2 _ (suc (suc key_end)) v (b'"' ∷ s) _
                  (First-star _ (suc (suc key_end)) v (b'"' ∷ s) _ k refl))
                (First-unit _ _ b'"' s _ refl))))))

label_read :
    (at : ℕ) (k v s : Str)
    → IsLabel (record { key = k; value = v })
    → (next : ℕ) × (map label_of
          (exec_all_from label_pair at zero (k ++ (b'=' ∷ b'"' ∷ (v ++ b'"' ∷ s))))
        ≡ record { key = k; value = v } ∷ map label_of (exec_all_from label_pair next zero s))
label_read at [] v s h = absurd (h.0 refl)
label_read at (c ∷ w) v s (_, key, value) =
    let body = w ++ (b'=' ∷ b'"' ∷ (v ++ b'"' ∷ [])) in
    let text = w ++ (b'=' ∷ b'"' ∷ (v ++ b'"' ∷ s)) in
    let split : text ≡ body ++ s = simp append_assoc in
    let key_end = at_after at (c ∷ w) in
    let ends : suc (at_after (suc (suc key_end)) v) ≡ suc at + length body = omega (
      arith,
      at_after-add at (c ∷ w),
      at_after-add (suc (suc key_end)) v,
      length-append w (b'=' ∷ b'"' ∷ (v ++ b'"' ∷ [])),
      length-append v (b'"' ∷ []),
    ) in
    let found = First-pair at c w v s key (no_quotes v value) in
    (
      at_after (suc at) body,
      ap (map label_of) (exec_all_from-match label_pair at c body s text found split ends),
    )

pair-Refuses : (c : ℕ) → is_word c ≡ false → Refuses label_pair c
unfolding matches
pair-Refuses c h at s = rw h

pub labels_read :
    (at : ℕ) (ls : List Label)
    → All IsLabel ls
    → map label_of (exec_all_from label_pair at zero (write_labels ls)) ≡ ls
labels_read at [] h = ap (map label_of) (exec_all_from-nil label_pair at)
labels_read at (l ∷ []) h =
    let (next, e) = label_read at l.key l.value [] h.0 in
    e ∙ ap (λ ms. l ∷ map label_of ms) (exec_all_from-nil label_pair next)
labels_read at (l ∷ m ∷ ls) h =
    let (next, e) = label_read at l.key l.value (codes ", " ++ write_labels (m ∷ ls)) h.0 in
    let passed = exec_all_from-pass label_pair next (codes ", ") (write_labels (m ∷ ls)) (
      pair-Refuses b',' (unfold is_word in refl),
      (pair-Refuses b' ' (unfold is_word in refl), tt),
    ) in
    e
    ∙ ap (λ ms. l ∷ map label_of ms) passed
    ∙ ap (◌∷◌ l) (labels_read (at_after next (codes ", ")) (m ∷ ls) h.1)
