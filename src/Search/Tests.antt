-- ===== src/Search/Tests.antt =====
-- Searches that server/src/controllers/queryController.js accepts and refuses.
use hackathon.Common.{ℕ, ◌*◌, ◌≤◌, true, false, none, some, ◌++◌, ◌≡◌, ◌⊎◌, refl, arith, codes, ltb}
use hackathon.Common.Number.{decimal, digits_value, parse_int}
use hackathon.Engine.{QueryRequest}
use hackathon.Search.{Numbers, SearchQuery, bad_request, responds, asks, handle_search}
use hackathon.Search.Laws.{handle_search_request}

pub nano_order : (a b : ℕ) → ltb b a ≡ false → ltb (b * 1000000) (a * 1000000) ≡ false
nano_order a b h = ground arith

-- Times as whole milliseconds, without rounding.
abbrev pub whole : Numbers
whole = record {
  Num = ℕ;
  number = digits_value 0;
  of_ms = λ n. n;
  zero = 0;
  is_finite = λ n. true;
  lt = ltb;
  nano = λ n. n * 1000000;
  nano_mono = λ a b p q h. nano_order a b h;
  nano_nonneg = λ a p h. nano_order 0 a h;
}

abbrev query : SearchQuery
query = record {
  term = some (codes "timeout");
  start_time = some (codes "1000");
  end_time = none;
  limit = some (decimal 20 ++ codes "px");
}

handle_search_request_example :
    ((r : QueryRequest ℕ) × (handle_search whole query 5000 ≡ asks r)
      × (ltb r.start_time_nano 0 ≡ false)
      × (ltb r.end_time_nano r.start_time_nano ≡ false)
      × (1 ≤ r.limit)
      × (r.limit ≤ 5000)
      × (r.term ≡ codes "timeout"))
    ⊎ (handle_search whole query 5000 ≡ responds bad_request)
handle_search_request_example = handle_search_request whole query 5000

accepted :
    handle_search whole query 5000
    ≡ asks (record {
      term = codes "timeout";
      start_time_nano = 1000000000;
      end_time_nano = 5000000000;
      limit = 20;
    })
unfolding handle_search parse_int digits_value decimal
accepted = refl
