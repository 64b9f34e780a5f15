-- ===== src/App/Tests.antt =====
-- The page of web/src/App.jsx at concrete inputs.
use hackathon.Common.{
  ◌++◌, ℕ, zero, suc, ◌≤◌, true, false, none, some, List, [], ◌∷◌, ◌≡◌, refl, ap, arith, Str, codes,
  inl, length, take, filter, all, map,
}
use hackathon.Common.Number.{digits_value, digits_value-decimal}
use hackathon.Engine.{failed, QueryResponse, answered}
use hackathon.Query.Normalize.{DisplayLog}
use hackathon.Query.Tests.{plain_times, raw_entry, shown}
use hackathon.Search.{handle_search, asks, answer_search}
use hackathon.Search.Client.{Body, no_body, resolved, search_logs, http_of, raw_of}
use hackathon.App.{
  run_query, App, Search, finish_query, engine_down, error_banner, off, shown_lines, normalize_all,
}
use hackathon.App.Live.{flush, live_max_lines, toggled, on_live_toggle}
use hackathon.App.Live.Flush.{flush_overflow}
use hackathon.App.Live.Invariant.{IsTidy, page-IsTidy}
use hackathon.App.Searches.{engine_failure_shown, older_search_wins, told_of}
use hackathon.App.Window.{Whole}
use hackathon.App.Round.{run_query_shown}
use hackathon.App.Unfiltered.{no_logs, unfiltered, no_pipe_shows_nothing}
use hackathon.Engine.Db.Memory.{memory_db, memory_db-IsLawful}
use hackathon.Engine.Service.{Wire, query_rpc}
use hackathon.Engine.Tests.{ascii, ascii-IsUnicode, two_engine, two_reached, two_distinct}
use hackathon.Query.Filters.{has_label}
use hackathon.Search.Tests.{whole}
use hackathon.Query.{parse_query}
use hackathon.Address.{Params, usv, usv_params}
use hackathon.App.Url.{
  UrlState, read_url_state, write_url_state, read-write_url_state, mount, here, next,
}

-- A query string: each key and value behind a 0, each unit behind a 1.
pub units : Str → Str → Str
units [] r = r
units (c ∷ s) r = 1 ∷ c ∷ units s r

pub to_string : List (Str × Str) → Str
unfolding units
to_string [] = []
to_string ((k, v) ∷ ps) = 0 ∷ units k (0 ∷ units v (to_string ps))

pub texts : Str → Str × List Str
texts [] = ([], [])
texts (zero ∷ r) = ([], (texts r).0 ∷ (texts r).1)
texts (suc n ∷ []) = ([], [])
texts (suc n ∷ c ∷ r) = (c ∷ (texts r).0, (texts r).1)

pub pairs : List Str → List (Str × Str)
pairs [] = []
pairs (k ∷ []) = []
pairs (k ∷ v ∷ r) = (k, v) ∷ pairs r

texts-units : (s r : Str) → (texts r).0 ≡ [] → texts (units s r) ≡ (s, (texts r).1)
unfolding units texts
texts-units [] r h = ap (λ t. (t, (texts r).1)) h
texts-units (c ∷ s) r h = ap (λ p. (c ∷ p.0, p.1)) (texts-units s r h)

pub texts-to_string :
    (ps : List (Str × Str))
    → ((texts (to_string ps)).0 ≡ []) × (pairs (texts (to_string ps)).1 ≡ ps)
unfolding to_string texts pairs
texts-to_string [] = (refl, refl)
texts-to_string ((k, v) ∷ ps) =
    let (ended, rest) = texts-to_string ps in
    let value = texts-units v (to_string ps) ended in
    let key = texts-units k (0 ∷ units v (to_string ps)) refl in
    (refl, rw key (rw value (ap (λ r. (k, v) ∷ r) rest)))

abbrev pub marked : Params
marked = record {
  to_string = λ ps. to_string (usv_params ps);
  parse = λ s. pairs (texts s).1;
  number = digits_value 0;
  parse-to_string = λ ps. (texts-to_string (usv_params ps)).1;
  number-decimal = λ n h. digits_value-decimal n;
}

abbrev pub opening : UrlState
opening = record { query = codes "{} | \"disk\""; time_range = 60; is_live = true }

read-write_url_state_example :
    read_url_state marked (write_url_state marked opening)
    ≡ record opening { query = usv opening.query }
read-write_url_state_example =
    read-write_url_state marked opening (λ e. cc) (λ e. omega arith) (omega arith)

page-IsTidy_example : IsTidy (on_live_toggle 9 (mount opening 5))
page-IsTidy_example =
    page-IsTidy plain_times opening 5 {a = on_live_toggle 9 (mount opening 5)}
      (next here (toggled 9 refl))

abbrev pub page : List DisplayLog → List DisplayLog → List Search → App
page logs buffer searches = record {
  query = codes "timeout";
  time_range = 15;
  is_live = true;
  is_loading = true;
  logs = logs;
  new_log_count = 1;
  socket_state = off;
  execution_time_ns = 0;
  query_error = none;
  socket_ref = some [];
  buffer_ref = buffer;
  new_count_ref = 1;
  searches = searches;
  effect = none;
}

copies : ℕ → List DisplayLog
copies zero = []
copies (suc n) = shown "b" ∷ copies n

length-copies : (n : ℕ) → length (copies n) ≡ n
unfolding copies
length-copies zero = refl
length-copies (suc n) = ap suc (length-copies n)

full : live_max_lines ≤ length (copies 5001)
full = omega (arith, length-copies 5001)

flush_overflow_example :
    (flush (page (shown "a" ∷ []) (copies 5001) [])).logs ≡ take live_max_lines (copies 5001)
flush_overflow_example = flush_overflow (page (shown "a" ∷ []) (copies 5001) []) full

abbrev pub search : Search
search = record {
  request = record { term = none; start_time = none; end_time = none; limit = none };
  labels = [];
}

abbrev pub waiting : App
waiting = page (shown "a" ∷ []) [] (search ∷ search ∷ [])

engine_failure_shown_example :
    let told = search_logs (http_of (answer_search (failed (codes "unavailable")))) in
    ((finish_query plain_times 0 7 told waiting).logs ≡ [])
    × (error_banner (finish_query plain_times 0 7 told waiting).query_error
        ≡ engine_down (codes "unavailable"))
    × ((finish_query plain_times 0 7 told waiting).is_loading ≡ false)
engine_failure_shown_example =
    engine_failure_shown plain_times 0 7 waiting {s = search} refl (failed (codes "unavailable"))
      (codes "unavailable") (inl refl)

abbrev older_body : Body
older_body = record no_body { logs = raw_entry "old" ∷ [] }

abbrev newer_body : Body
newer_body = record no_body { logs = raw_entry "new" ∷ [] }

older_search_wins_example :
    let c = finish_query plain_times 1 7 (resolved newer_body) waiting in
    (c.logs ≡ shown_lines plain_times search newer_body 7)
    × (c.is_loading ≡ false)
    × (c.searches ≡ search ∷ [])
    × ((finish_query plain_times 0 8 (resolved older_body) c).logs
        ≡ shown_lines plain_times search older_body 8)
older_search_wins_example =
    older_search_wins plain_times 7 8 waiting search search older_body newer_body refl

abbrev pub exact : Whole whole
exact = record {
  reads = λ n h. digits_value-decimal n;
  finite = λ n h. refl;
  order = λ m n h k. refl;
  origin = refl;
}

abbrev one_record : QueryResponse
one_record = record {
  logs = record { timestamp_nano = codes "7"; message = codes "timeout" } ∷ [];
  total_found = codes "1";
  error = [];
}

run_query_shown_example :
    let b = run_query none none 5000000 waiting in
    let c =
      finish_query plain_times
        (length waiting.searches)
        5000002
        (told_of (answered one_record))
        b in
    (s : Search) × (b.searches ≡ waiting.searches ++ s ∷ [])
    × (handle_search whole s.request 5000001
        ≡ asks (record {
          term = (parse_query waiting.query).primary_term;
          start_time_nano = 4100000000000;
          end_time_nano = 5000000000000;
          limit = 500;
        }))
    × (c.logs
        ≡ filter
            (λ log. all (has_label log) (parse_query waiting.query).labels)
            (normalize_all plain_times (map raw_of one_record.logs) 0 5000002))
    × (c.is_loading ≡ false)
    × (c.query_error ≡ none)
    × (c.searches ≡ waiting.searches)
run_query_shown_example =
    run_query_shown whole exact plain_times waiting 5000000 5000001 5000002 one_record (omega arith)
      (omega arith) refl

abbrev pub ascii_wire : Wire ℕ
ascii_wire = record {
  bytes_of = λ s. s;
  text_of = λ s. some s;
  marshal_error = codes "string field contains invalid UTF-8";
  word_of = λ n. n;
}

no_pipe_shows_nothing_example :
    let reply = query_rpc ascii_wire memory_db two_engine (unfiltered whole waiting 5000000) in
    let b = run_query none none 5000000 waiting in
    (s : Search) × (b.searches ≡ waiting.searches ++ s ∷ [])
    × (handle_search whole s.request 5000001 ≡ asks (unfiltered whole waiting 5000000))
    × (reply ≡ answered no_logs)
    × ((finish_query plain_times (length waiting.searches) 5000002 (told_of reply) b).logs ≡ [])
no_pipe_shows_nothing_example =
    no_pipe_shows_nothing memory_db memory_db-IsLawful ascii ascii-IsUnicode whole ascii_wire
      (record { nothing = refl }) two_reached two_distinct refl exact plain_times waiting 5000000
      5000001 5000002 (ground arith) (omega arith) (omega arith)
