-- ===== src/App/Shown/Tests.antt =====
-- The way of a search of web/src/App.jsx to the Go engine and back, at a concrete input.
use hackathon.Common.{
  ℕ, ◌<◌, true, none, ◌∷◌, [], ◌++◌, ◌≡◌, refl, sym, ap, subst, arith, Str, codes, inl, length, all,
  In, All,
}
use hackathon.Engine.{QueryRequest}
use hackathon.Common.{str_eq}
use hackathon.Regex.{is_dot}
use hackathon.Engine.Keys.{
  encode_log_key, encode_index_key, decode_index_key, put_uint64, index_byte, get_uint64,
}
use hackathon.Engine.Db.{get_after}
use hackathon.Engine.Db.Memory.{keys_in}
use hackathon.Engine.Index.{postings, add}
use hackathon.Engine.Find.{search_term}
use hackathon.Engine.Tokens.{tokenize}
use hackathon.Engine.Items.{item_of}
use hackathon.Engine.Loop.{take_item, flush}
use hackathon.Engine.Keys.RoundTrip.{IsNonzero}
use hackathon.Engine.Tokens.Distinct.{IsNonzero-of_token}
use hackathon.Engine.Db.Memory.{memory_db, memory_db-IsLawful}
use hackathon.Engine.Service.{entry_of, raw_logs_of, query_rpc}
use hackathon.Engine.Tests.{
  ascii, ascii-IsUnicode, two_engine, two_reached, two_written, two_distinct, timeout_log,
  timeout_has_token,
}
use hackathon.Query.Normalize.{DisplayLog, normalize_log_entry}
use hackathon.Query.{parse_query}
use hackathon.Query.Filters.{has_label}
use hackathon.Query.RoundTrip.{write_query, parse_query-write_query}
use hackathon.Query.Tests.{plain_times}
use hackathon.Search.{handle_search, asks}
use hackathon.Search.Client.{raw_of}
use hackathon.Search.Tests.{whole}
use hackathon.App.{App, Search, run_query, finish_query}
use hackathon.App.Searches.{told_of}
use hackathon.App.Shown.{request_of, IsAsked, written_shown}
use hackathon.App.Tests.{waiting, exact, ascii_wire}

-- The page with the query `{} | "timeout"` and a range of one minute.
abbrev asking : App
asking = record waiting { query = write_query [] (codes "timeout") []; time_range = 1 }

parsed : parse_query asking.query ≡ record {
  labels = [];
  terms = codes "timeout" ∷ [];
  primary_term = codes "timeout";
  raw = asking.query;
}
unfolding is_dot
parsed = parse_query-write_query [] (codes "timeout") [] tt (ground arith) tt

-- What the page asks for a term.
abbrev for_term : Str → QueryRequest ℕ
for_term term = record {
  term = term;
  start_time_nano = 0;
  end_time_nano = 60000000000;
  limit = 500;
}

timeout_term : codes "timeout" ≡ (parse_query asking.query).primary_term
timeout_term = ap (λ q. q.primary_term) (sym parsed)

timeout_answer :
    (raw_logs_of ascii_wire memory_db two_engine (for_term (codes "timeout"))).0
    ≡ timeout_log.message ∷ []
unfolding search_term flush take_item item_of keys_in get_after tokenize encode_log_key
    encode_index_key decode_index_key postings str_eq put_uint64 index_byte add get_uint64
timeout_answer = refl

few_logs : length (raw_logs_of ascii_wire memory_db two_engine (for_term (codes "timeout"))).0 < 500
few_logs = subst (λ found. length found < 500) (sym timeout_answer) (omega arith)

abbrev shown_line : ℕ → DisplayLog
shown_line i = normalize_log_entry plain_times (raw_of (entry_of timeout_log.message)) i 60002

written_shown_example :
    let b = run_query none none 60000 asking in
    (s : Search) × (b.searches ≡ asking.searches ++ s ∷ [])
    × (handle_search whole s.request 60001 ≡ asks (request_of whole asking 60000))
    × (i : ℕ) × In
        (shown_line i)
        (finish_query plain_times
          (length asking.searches)
          60002
          (told_of (query_rpc ascii_wire memory_db two_engine (request_of whole asking 60000)))
          b).logs
written_shown_example =
    written_shown memory_db memory_db-IsLawful ascii ascii-IsUnicode whole ascii_wire two_reached
      two_distinct exact plain_times asking 60000 60001 60002 (omega arith) (omega arith)
      (subst (All IsNonzero) timeout_term (IsNonzero-of_token (codes "timeout") refl)) refl
      (cc, (cc, tt))
      (subst (λ t. length (raw_logs_of ascii_wire memory_db two_engine (for_term t)).0 < 500)
        timeout_term few_logs)
      timeout_log timeout_log.message
      (subst (λ t. IsAsked ascii ascii_wire two_written (for_term t) timeout_log) timeout_term
        (inl refl, timeout_has_token, refl))
      refl
      (λ i.
        subst (λ ls. all (has_label (shown_line i)) ls ≡ true) (ap (λ q. q.labels) (sym parsed))
          refl)
