-- ===== src/Query/Normalize/Ids.antt =====
-- The ids that `normalizeLogEntry` of web/src/lib/queryParser.js makes: React's keys and the keys
-- of the expanded rows.
use hackathon.Common.{
  ℕ, Bool, true, false, [], ◌∷◌, ◌++◌, ◌≡◌, ◌≢◌, refl, sym, ap, ◌∙◌, arith, Str, All, codes, ◌==◌,
  is_digit, if◌then◌else◌, ◌||◌,
}
use hackathon.Common.Number.{decimal, decimal-AreDigits, digits_value, digits_value-decimal}
use hackathon.Query.Normalize.{RawEntry, Times, id_of, nano_text}

has_dash : Str → Bool
has_dash [] = false
has_dash (c ∷ s) = c == b'-' || has_dash s

-- What stands behind the last dash.
last_part : Str → Str
unfolding has_dash
last_part [] = []
last_part (c ∷ s) = if has_dash (c ∷ s) then last_part s else c ∷ s

has_dash-append : (x d : Str) → has_dash (x ++ b'-' ∷ d) ≡ true
unfolding has_dash
has_dash-append [] d = refl
has_dash-append (c ∷ x) d = ground (arith, has_dash-append x d)

digits_no_dash : (d : Str) → All (λ c. is_digit c ≡ true) d → has_dash d ≡ false
unfolding has_dash
digits_no_dash [] h = refl
digits_no_dash (c ∷ d) h = ground (arith, digits_no_dash d h.1, h.0)

last_part_digits : (d : Str) → All (λ c. is_digit c ≡ true) d → last_part d ≡ d
unfolding last_part
last_part_digits [] h = refl
last_part_digits (c ∷ d) h = rw (digits_no_dash (c ∷ d) h)

last_part-append : (x d : Str) → All (λ c. is_digit c ≡ true) d → last_part (x ++ b'-' ∷ d) ≡ d
unfolding last_part
last_part-append [] d h = last_part_digits d h
last_part-append (c ∷ x) d h = rw (has_dash-append (c ∷ x) d) (last_part-append x d h)

decimal_injective : (m n : ℕ) → decimal m ≡ decimal n → m ≡ n
decimal_injective m n e =
    sym (digits_value-decimal m) ∙ ap (digits_value 0) e ∙ digits_value-decimal n

module _ (times : Times) where
  index_of_id :
      (e : RawEntry) (index now : ℕ)
      → e.id ≡ []
      → last_part (id_of times e index now) ≡ decimal index
  unfolding id_of
  index_of_id e index now h = rw h (
      last_part-append (codes "grpc-" ++ nano_text times e.timestamp_nano now) (decimal index)
        (decimal-AreDigits index))

  -- Two entries of one search result, at different places in it and with no id of their own, get
  -- different ids, whatever their times are.
  pub id_of_distinct :
      (e e' : RawEntry) (i j now now' : ℕ)
      → e.id ≡ []
      → e'.id ≡ []
      → i ≢ j
      → id_of times e i now ≢ id_of times e' j now'
  id_of_distinct e e' i j now now' h h' ne same = ne (
      decimal_injective i j
        (sym (index_of_id e i now h) ∙ ap last_part same ∙ index_of_id e' j now' h'))
