-- ===== src/Search/Laws.antt =====
-- Which requests `handleSearch` of server/src/controllers/queryController.js lets through.
use hackathon.Common.{
  ℕ, ◌≤◌, true, false, Option, some, [], ◌++◌, ◌≡◌, ◌↔◌, refl, arith, Str, ◌⊎◌, inl, inr, ◌∙◌, ap,
}
use hackathon.Common.Number.{
  pos, parse_int, decimal, decimal-AreDigits, decimal-ne-nil, digits_value-decimal, IsNoDigit,
  parse_int_digits,
}
use hackathon.Engine.{QueryRequest}
use hackathon.Search.{
  Numbers, SearchQuery, Answer, Handled, bad_request, responds, asks, or_default, parsed_limit,
  valid_limit, time_or, handle_search,
}

pub parse_int-decimal :
    (n : ℕ) (rest : Str) → IsNoDigit rest → parse_int (decimal n ++ rest) ≡ some (pos n)
parse_int-decimal n rest h =
    parse_int_digits (decimal n) rest (decimal-AreDigits n) (decimal-ne-nil n) h
    ∙ ap (λ k. some (pos k)) (digits_value-decimal n)

valid_limit_bounds :
    (text : Option Str) (n : ℕ) → valid_limit (parsed_limit text) ≡ some n → (1 ≤ n) × (n ≤ 5000)
unfolding valid_limit
valid_limit_bounds text n h = ground arith

valid_limit_pos : (n : ℕ) → 1 ≤ n → n ≤ 5000 → valid_limit (some (pos n)) ≡ some n
unfolding valid_limit
valid_limit_pos n low high = ground arith

Handled-cases :
    {T : Type 0} (h : Handled T)
    → ((r : QueryRequest T) × (h ≡ asks r)) ⊎ ((a : Answer) × (h ≡ responds a))
Handled-cases (responds a) = inr (a, refl)
Handled-cases (asks r) = inl (r, refl)

module _ (numbers : Numbers) where
  open numbers use {Num, zero, of_ms, is_finite, lt, nano, nano_mono, nano_nonneg}

  -- A window of time that the handler accepts.
  pub record IsWindow (q : SearchQuery) (now : ℕ) : Type 0 where
    pub start_finite : is_finite (time_or numbers q.start_time zero) ≡ true
    pub end_finite : is_finite (time_or numbers q.end_time (of_ms now)) ≡ true
    pub start_nonneg : lt (time_or numbers q.start_time zero) zero ≡ false
    pub in_order :
        lt (time_or numbers q.end_time (of_ms now)) (time_or numbers q.start_time zero) ≡ false

  abbrev search_request : SearchQuery → ℕ → ℕ → QueryRequest Num
  search_request q now n = record {
    term = or_default q.term [];
    start_time_nano = nano (time_or numbers q.start_time zero);
    end_time_nano = nano (time_or numbers q.end_time (of_ms now));
    limit = n;
  }

  pub handle_search_accepts :
      (q : SearchQuery) (now n : ℕ)
      → IsWindow q now
      → valid_limit (parsed_limit q.limit) ≡ some n
      → handle_search numbers q now ≡ asks (search_request q now n)
  unfolding handle_search
  handle_search_accepts q now n w h =
      rw (w.start_finite, w.end_finite, w.start_nonneg, w.in_order) (ground arith)

  handle_search_asks :
      (q : SearchQuery) (now : ℕ) {r : QueryRequest Num}
      → handle_search numbers q now ≡ asks r
      → IsWindow q now
        × (valid_limit (parsed_limit q.limit) ≡ some r.limit)
        × (r ≡ search_request q now r.limit)
  unfolding handle_search
  handle_search_asks q now h = (ground arith, ground arith, ground arith)

  -- With a limit that is written as digits, with anything but a digit behind them, the engine is
  -- asked exactly when the window is one and the number is from 1 to 5000, and with that number.
  pub handle_search_iff :
      (q : SearchQuery) (now n : ℕ) (junk : Str)
      → q.limit ≡ some (decimal n ++ junk)
      → IsNoDigit junk
      → ((r : QueryRequest Num) × (handle_search numbers q now ≡ asks r) × (r.limit ≡ n))
        ↔ (IsWindow q now × (1 ≤ n) × (n ≤ 5000))
  unfolding handle_search
  handle_search_iff q now n junk e h =
      let parsed = ap valid_limit (ap parsed_limit e ∙ parse_int-decimal n junk h) in
      (
        λ (r, asked, same).
            let (window, fits, _) = handle_search_asks q now asked in
            let (low, high) = valid_limit_bounds q.limit n (fits ∙ ap some same) in
            (window, low, high),
        λ (window, low, high). (
          search_request q now n,
          handle_search_accepts q now n window (parsed ∙ valid_limit_pos n low high),
          refl,
        ),
      )

  handle_search_responds :
      (q : SearchQuery) (now : ℕ) (a : Answer)
      → handle_search numbers q now ≡ responds a
      → a ≡ bad_request
  unfolding handle_search
  handle_search_responds q now a h = ground arith

  -- Every request that reaches the engine asks for 1 to 5000 records of a window that starts at 0
  -- or later and does not end before it starts, for the given term; every other search is answered
  -- with status 400.
  pub handle_search_request :
      (q : SearchQuery) (now : ℕ)
      → ((r : QueryRequest Num) × (handle_search numbers q now ≡ asks r)
          × (lt r.start_time_nano zero ≡ false)
          × (lt r.end_time_nano r.start_time_nano ≡ false)
          × (1 ≤ r.limit)
          × (r.limit ≤ 5000)
          × (r.term ≡ or_default q.term []))
        ⊎ (handle_search numbers q now ≡ responds bad_request)
  handle_search_request q now = elim (Handled-cases (handle_search numbers q now)) [
    | inr (a, said) ↦ inr (said ∙ ap responds (handle_search_responds q now a said))
    | inl (r, asked) ↦
        let (w, fits, same) = handle_search_asks q now asked in
        let (low, high) = valid_limit_bounds q.limit r.limit fits in
        inl (
          r,
          asked,
          rw same (nano_nonneg _ w.start_finite w.start_nonneg),
          rw same (nano_mono _ _ w.start_finite w.end_finite w.in_order),
          low,
          high,
          ap (λ (x : QueryRequest Num). x.term) same,
        )
  ]
