-- ===== src/App/Window.antt =====
-- The searches that web/src/App.jsx sends, at the endpoint of
-- server/src/controllers/queryController.js. `Whole` says what `Number` and the comparison do with
-- whole numbers up to 2 ^ 53, which are doubles.
use hackathon.Common.{
  ℕ, ◌-◌, ◌*◌, ◌≤◌, true, false, none, some, [], ◌∷◌, ◌++◌, ◌≡◌, refl, sym, ap, ◌∙◌, arith, Str,
  append-nil, ltb,
}
use hackathon.Common.Number.{decimal, parse_int}
use hackathon.Query.{parse_query}
use hackathon.Search.{Numbers, handle_search, asks, valid_limit, parsed_limit}
use hackathon.Search.Client.{search_params, minus_text}
use hackathon.Search.Laws.{IsWindow, handle_search_accepts, parse_int-decimal}
use hackathon.App.{App, Search, run_query}

abbrev pub max_exact : ℕ
max_exact = 9007199254740992

pub record Whole (numbers : Numbers) : Type 0 where
  pub reads : (n : ℕ) → n ≤ max_exact → numbers.number (decimal n) ≡ numbers.of_ms n
  pub finite : (n : ℕ) → n ≤ max_exact → numbers.is_finite (numbers.of_ms n) ≡ true
  pub order :
      (m n : ℕ)
      → m ≤ max_exact
      → n ≤ max_exact
      → numbers.lt (numbers.of_ms m) (numbers.of_ms n) ≡ ltb m n
  pub origin : numbers.zero ≡ numbers.of_ms 0

minus_text-le : (a b : ℕ) → b ≤ a → minus_text a b ≡ decimal (a - b)
minus_text-le a b h = ground arith

not_below : (m n : ℕ) → n ≤ m → ltb m n ≡ false
not_below m n h = ground arith

limit_500 : valid_limit (parsed_limit (some (decimal 500))) ≡ some 500
unfolding valid_limit
limit_500 =
    ap valid_limit (sym (ap parse_int (append-nil (decimal 500))) ∙ parse_int-decimal 500 [] tt)

module _ (numbers : Numbers) (whole : Whole numbers) where
  module _ (minutes now : ℕ) (past : minutes * 60000 ≤ now) (exact : now ≤ max_exact) where
    start_read :
        numbers.number (minus_text now (minutes * 60000)) ≡ numbers.of_ms (now - minutes * 60000)
    start_read =
        ap numbers.number (minus_text-le now (minutes * 60000) past)
        ∙ whole.reads (now - minutes * 60000) (omega arith)

    params-IsWindow :
        (term : Str) (limit now' : ℕ) → IsWindow numbers (search_params term minutes now limit) now'
    params-IsWindow term limit now' =
        let start = start_read in
        let end_ = whole.reads now exact in
        record {
          start_finite =
              ap numbers.is_finite start ∙ whole.finite (now - minutes * 60000) (omega arith);
          end_finite = ap numbers.is_finite end_ ∙ whole.finite now exact;
          start_nonneg =
              ap (λ x. numbers.lt x numbers.zero) start
              ∙ ap (numbers.lt (numbers.of_ms (now - minutes * 60000))) whole.origin
              ∙ whole.order (now - minutes * 60000) 0 (omega arith) (omega arith)
              ∙ not_below (now - minutes * 60000) 0 (omega arith);
          in_order =
              ap (λ x. numbers.lt x (numbers.number (minus_text now (minutes * 60000)))) end_
              ∙ ap (numbers.lt (numbers.of_ms now)) start
              ∙ whole.order now (now - minutes * 60000) exact (omega arith)
              ∙ not_below now (now - minutes * 60000) (omega arith);
        }

    params_accepted :
        (term : Str) (now' : ℕ)
        → handle_search numbers (search_params term minutes now 500) now'
          ≡ asks (record {
            term = term;
            start_time_nano = numbers.nano (numbers.of_ms (now - minutes * 60000));
            end_time_nano = numbers.nano (numbers.of_ms now);
            limit = 500;
          })
    params_accepted term now' =
        handle_search_accepts numbers (search_params term minutes now 500) now' 500
          (params-IsWindow term 500 now') limit_500
        ∙ ap
            (λ t. asks (record {
              term = term;
              start_time_nano = numbers.nano t;
              end_time_nano = numbers.nano (numbers.number (decimal now));
              limit = 500;
            }))
            start_read
        ∙ ap
            (λ t. asks (record {
              term = term;
              start_time_nano = numbers.nano (numbers.of_ms (now - minutes * 60000));
              end_time_nano = numbers.nano t;
              limit = 500;
            }))
            (whole.reads now exact)

  -- A run of the query on the page adds a search that the endpoint does not refuse: it asks the
  -- engine for the primary term and at most 500 records of the minutes before the run. The window
  -- does not begin before 1970, and the run is no later than 2 ^ 53 ms after.
  pub run_query_accepted :
      (a : App) (now now' : ℕ)
      → a.time_range * 60000 ≤ now
      → now ≤ max_exact
      → (s : Search) × ((run_query none none now a).searches ≡ a.searches ++ s ∷ [])
        × (handle_search numbers s.request now'
            ≡ asks (record {
              term = (parse_query a.query).primary_term;
              start_time_nano = numbers.nano (numbers.of_ms (now - a.time_range * 60000));
              end_time_nano = numbers.nano (numbers.of_ms now);
              limit = 500;
            }))
  unfolding run_query
  run_query_accepted a now now' past exact = (
    record {
      request = search_params (parse_query a.query).primary_term a.time_range now 500;
      labels = (parse_query a.query).labels;
    },
    refl,
    params_accepted a.time_range now past exact (parse_query a.query).primary_term now',
  )
