-- ===== src/Engine/Tokens.antt =====
-- engine/internal/pipeline/tokenizer.go. Unicode is the parameter `Runes`: the bytes of each code
-- point of a text, `unicode.IsLetter` or `unicode.IsNumber`, and `unicode.ToLower`.
pub mod Distinct
use hackathon.Common.{
  ℕ, Bool, true, false, not, ◌&&◌, ◌||◌, List, [], ◌∷◌, ◌++◌, ◌≡◌, ◌≢◌, refl, sym, ap, ◌∙◌, arith,
  ◌⊎◌, inl, inr, length, map, all, join, ltb, leb, ◌==◌, str_eq, str_eq_iff, is_digit, All,
  All-append, Bool-cases, if◌then◌else◌,
}
use hackathon.Engine.Keys.{Bytes}

pub record Runes : Type 0 where
  pub chars : Bytes → List Bytes
  pub is_word : Bytes → Bool
  pub to_lower : Bytes → Bytes

-- The bytes of letters and numbers, none of which is an upper-case letter of ASCII.
abbrev pub is_token_byte : ℕ → Bool
is_token_byte b = leb 128 b || is_digit b || (leb b'a' b && leb b b'z')

-- A letter or number is put in lower case as bytes of that kind, and not as nothing.
pub record IsUnicode (runes : Runes) : Type 0 where
  pub lowered : (c : Bytes) → runes.is_word c ≡ true → all is_token_byte (runes.to_lower c) ≡ true
  pub lowered_some : (c : Bytes) → runes.is_word c ≡ true → runes.to_lower c ≢ []

unfoldable pub contains : Bytes → List Bytes → Bool
contains t [] = false
contains t (u ∷ us) = str_eq t u || contains t us

module _ (runes : Runes) where
  open runes use {chars, is_word, to_lower}

  -- A word that has ended, in front of those behind it.
  abbrev pub ended : List Bytes → List (List Bytes) → List (List Bytes)
  ended [] rest = rest
  ended (c ∷ word) rest = (c ∷ word) ∷ rest

  -- `strings.FieldsFunc`, within a word.
  unfoldable pub fields : List Bytes → List Bytes → List (List Bytes)
  fields word [] = ended word []
  fields word (c ∷ cs) = elim (is_word c) [
    | true ↦ fields (word ++ c ∷ []) cs
    | false ↦ ended word (fields [] cs)
  ]

  -- `strings.ToLower`
  abbrev pub lower_word : List Bytes → Bytes
  lower_word word = join (map to_lower word)

  -- One round of the loop over the words. The tokens so far are `seen`.
  unfoldable pub add_token : List Bytes → List Bytes → List Bytes
  unfolding contains
  add_token tokens w =
      if ltb (length (join w)) 2 || ltb 64 (length (join w))
      then tokens
      else if contains (lower_word w) tokens
      then tokens
      else tokens ++ lower_word w ∷ []

  unfoldable pub collect : List Bytes → List (List Bytes) → List Bytes
  unfolding add_token
  collect tokens [] = tokens
  collect tokens (w ∷ words) = collect (add_token tokens w) words

  -- `Tokenize`
  unfoldable pub tokenize : Bytes → List Bytes
  unfolding collect fields
  tokenize payload = collect [] (fields [] (chars payload))

-- What a token looks like.
pub record IsToken (t : Bytes) : Type 0 where
  pub some_bytes : t ≢ []
  pub bytes : all is_token_byte t ≡ true

all-append : (p : ℕ → Bool) (s t : Bytes) → all p s ≡ true → all p t ≡ true → all p (s ++ t) ≡ true
all-append p [] t hs ht = ht
all-append p (c ∷ s) t hs ht = ground (arith, all-append p s t)

All-if :
    (P : Bytes → Type 0) (b : Bool) (xs ys : List Bytes)
    → All P xs
    → All P ys
    → All P (if b then xs else ys)
All-if P true xs ys hx hy = hx
All-if P false xs ys hx hy = hy

append_nothing : (s t : Bytes) → s ++ t ≡ [] → s ≡ []
append_nothing [] t e = refl
append_nothing (c ∷ s) t e = cc

module _ (runes : Runes) (unicode : IsUnicode runes) where
  open runes use {is_word, to_lower}

  abbrev IsWordChar : Bytes → Type 0
  IsWordChar c = is_word c ≡ true

  lower_word_bytes :
      (w : List Bytes) → All IsWordChar w → all is_token_byte (lower_word runes w) ≡ true
  lower_word_bytes [] h = refl
  lower_word_bytes (c ∷ w) h =
      all-append is_token_byte (to_lower c) (lower_word runes w) (unicode.lowered c h.0)
        (lower_word_bytes w h.1)

  lower_word_some : (c : Bytes) (w : List Bytes) → IsWordChar c → lower_word runes (c ∷ w) ≢ []
  lower_word_some c w h e =
      unicode.lowered_some c h (append_nothing (to_lower c) (lower_word runes w) e)

  ended_words :
      (w : List Bytes) (ws : List (List Bytes))
      → All IsWordChar w
      → All (All IsWordChar) ws
      → All (All IsWordChar) (ended runes w ws)
  ended_words [] ws hw hs = hs
  ended_words (c ∷ w) ws hw hs = (hw, hs)

  fields_words : (w cs : List Bytes) → All IsWordChar w → All (All IsWordChar) (fields runes w cs)
  unfolding fields
  fields_words w [] h = ended_words w [] h tt
  fields_words w (c ∷ cs) h = elim (Bool-cases (is_word c)) [
    | inl letter ↦
        rw (letter, fields)
          (fields_words (w ++ c ∷ []) cs (All-append IsWordChar w (c ∷ []) h (letter, tt)))
    | inr other ↦ rw (other, fields) (ended_words w _ h (fields_words [] cs tt))
  ]

  add_token-IsToken :
      (tokens : List Bytes) (w : List Bytes)
      → All IsToken tokens
      → All IsWordChar w
      → All IsToken (add_token runes tokens w)
  unfolding add_token
  add_token-IsToken tokens [] ht hw = ht
  add_token-IsToken tokens (c ∷ w) ht hw =
      let word : IsToken (lower_word runes (c ∷ w)) = record {
        some_bytes = lower_word_some c w hw.0;
        bytes = lower_word_bytes (c ∷ w) hw;
      } in
      let added = All-append IsToken tokens (lower_word runes (c ∷ w) ∷ []) ht (word, tt) in
      let n = length (join (c ∷ w)) in
      All-if IsToken (ltb n 2 || ltb 64 n) _ _ ht
        (All-if IsToken (contains (lower_word runes (c ∷ w)) tokens) _ _ ht added)

  collect-IsToken :
      (tokens : List Bytes) (ws : List (List Bytes))
      → All IsToken tokens
      → All (All IsWordChar) ws
      → All IsToken (collect runes tokens ws)
  unfolding collect
  collect-IsToken tokens [] ht hw = ht
  collect-IsToken tokens (w ∷ ws) ht hw =
      collect-IsToken (add_token runes tokens w) ws (add_token-IsToken tokens w ht hw.0) hw.1

  -- Tokens are not empty and of letters and numbers in lower case.
  pub tokenize-IsToken : (payload : Bytes) → All IsToken (tokenize runes payload)
  unfolding tokenize
  tokenize-IsToken payload =
      collect-IsToken [] (fields runes [] (runes.chars payload)) tt (fields_words [] _ tt)
