-- ===== src/Engine/Tokens/Distinct.antt =====
-- Each token of engine/internal/pipeline/tokenizer.go comes once.
use hackathon.Common.{
  true, false, ◌||◌, List, [], ◌∷◌, ◌++◌, ◌≡◌, inl, inr, refl, arith, str_eq, str_eq_iff, length,
  join, ltb, All, all, Bool-cases,
}
use hackathon.Engine.Keys.{Bytes}
use hackathon.Engine.Keys.RoundTrip.{IsNonzero}
use hackathon.Engine.Tokens.{
  Runes, is_token_byte, contains, lower_word, add_token, collect, fields, tokenize,
}

abbrev pub Distinct : List Bytes → Type 0
Distinct [] = Unit
Distinct (t ∷ ts) = (contains t ts ≡ false) × Distinct ts

contains-last :
    (t u : Bytes) (ts : List Bytes)
    → contains t ts ≡ false
    → str_eq t u ≡ false
    → contains t (ts ++ u ∷ []) ≡ false
unfolding contains
contains-last t u [] h n = ground arith
contains-last t u (v ∷ ts) h n = ground (arith, contains-last t u ts)

Distinct-last :
    (ts : List Bytes) (u : Bytes) → Distinct ts → contains u ts ≡ false → Distinct (ts ++ u ∷ [])
unfolding contains
Distinct-last [] u d h = (refl, tt)
Distinct-last (t ∷ ts) u (n, d) h = (
  contains-last t u ts n (ground (arith, str_eq_iff u t, str_eq_iff t u)),
  Distinct-last ts u d (ground arith),
)

module _ (runes : Runes) where
  add_token-Distinct :
      (tokens : List Bytes) (w : List Bytes) → Distinct tokens → Distinct (add_token runes tokens w)
  unfolding add_token
  add_token-Distinct tokens w d =
      let n = length (join w) in
      elim (Bool-cases (ltb n 2 || ltb 64 n)) [
        | inl odd ↦ rw odd d
        | inr fits ↦ rw fits (elim (Bool-cases (contains (lower_word runes w) tokens)) [
          | inl old ↦ rw old d
          | inr new ↦ rw new (Distinct-last tokens (lower_word runes w) d new)
        ])
      ]

  collect-Distinct :
      (tokens : List Bytes) (ws : List (List Bytes))
      → Distinct tokens
      → Distinct (collect runes tokens ws)
  unfolding collect
  collect-Distinct tokens [] d = d
  collect-Distinct tokens (w ∷ ws) d =
      collect-Distinct (add_token runes tokens w) ws (add_token-Distinct tokens w d)

  pub tokenize-Distinct : (payload : Bytes) → Distinct (tokenize runes payload)
  unfolding tokenize
  tokenize-Distinct payload = collect-Distinct [] (fields runes [] (runes.chars payload)) tt

pub IsNonzero-of_token : (t : Bytes) → all is_token_byte t ≡ true → All IsNonzero t
IsNonzero-of_token [] h = tt
IsNonzero-of_token (b ∷ t) h = (ground arith, IsNonzero-of_token t (ground arith))
