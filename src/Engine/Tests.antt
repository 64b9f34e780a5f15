-- ===== src/Engine/Tests.antt =====
-- The engine's theorems at small inputs, over a database in memory and the letters of ASCII.
use hackathon.Common.{
  ◌≤◌, ◌+◌, ◌<◌, ◌≤◌, true, false, ◌&&◌, ◌||◌, List, [], ◌∷◌, ◌++◌, ◌≡◌, ◌≢◌, refl, sym, ap, subst,
  arith, some, none, map, length, take, all, All, In, inl, codes, is_digit, leb, if◌then◌else◌,
  str_eq,
}
use hackathon.Engine.Keys.{
  Bytes, encode_log_key, encode_index_key, decode_index_key, put_uint64, index_byte, get_uint64,
}
use hackathon.Engine.Keys.RoundTrip.{IsNonzero}
use hackathon.Engine.Db.Memory.{keys_in, memory_db, memory_db-IsLawful}
use hackathon.Engine.Find.{search_term, limit_or, has_id}
use hackathon.Engine.Find.Listed.{fresh, stored, candidates}
use hackathon.Engine.Find.Reference.{search_term-candidates}
use hackathon.Engine.Tokens.{Runes, IsUnicode, IsToken, is_token_byte, tokenize, contains}
use hackathon.Engine.Tokens.Distinct.{IsNonzero-of_token}
use hackathon.Engine.Db.{get_after}
use hackathon.Engine.Index.{postings, add, is_within}
use hackathon.Engine.Syslog.{digits_value, parse_syslog}
use hackathon.Engine.Syslog.Laws.{parse_syslog-line, parsed_as}
use hackathon.Engine.Items.{Log, item_of, id_of, log_of, worker_loop}
use hackathon.Engine.Loop.{Engine, started, take_item, flush, run, max_batch_size}
use hackathon.Engine.Loop.History.{
  History, Reach, created, takes, flushes, no_history, take_log, has_token, IsConsistent,
}
use hackathon.Engine.Loop.Consistent.{Reach-IsConsistent}
use hackathon.Engine.Loop.Fetched.{IsAnswer}
use hackathon.Engine.Loop.Answers.{DistinctIds, search_sound, search_complete}
use hackathon.Engine.Loop.Oldest.{hits, oldest_found}
use hackathon.Engine.Loop.Runs.{Arrival, arrives, ticks, signals, event_of, run-Reach}
use hackathon.Engine.Ingest.{handle_ingest, handle_ingest-lines, body_of, accepted, drop_cr}
use hackathon.Engine.Loop.Ingested.{ingested_found}

abbrev pub ascii : Runes
ascii = record {
  chars = map (λ b. b ∷ []);
  is_word = λ c. elim c [
    | b ∷ [] ↦ is_digit b || (leb b'a' b && leb b b'z') || (leb b'A' b && leb b b'Z')
    | _ ↦ false
  ];
  to_lower = map (λ b. if leb b'A' b && leb b b'Z' then b + 32 else b);
}

pub ascii-IsUnicode : IsUnicode ascii
ascii-IsUnicode = record { lowered = lowered; lowered_some = lowered_some }
  where
    lowered : (c : Bytes) → ascii.is_word c ≡ true → all is_token_byte (ascii.to_lower c) ≡ true
    lowered [] h = cc
    lowered (b ∷ []) h = ground arith
    lowered (b ∷ d ∷ c) h = cc

    lowered_some : (c : Bytes) → ascii.is_word c ≡ true → ascii.to_lower c ≢ []
    lowered_some [] h = cc
    lowered_some (b ∷ c) h = cc

-- Two logs of one stream.
abbrev pub timeout_log : Log
timeout_log = record { stream_id = 16; ts = 5000; message = codes "Timeout after retry" }

abbrev pub started_log : Log
started_log = record { stream_id = 16; ts = 6000; message = codes "started" }

abbrev pub two_taken : History
two_taken = take_log started_log (take_log timeout_log no_history)

abbrev pub two_written : History
two_written = record two_taken { written = two_taken.pending; pending = [] }

abbrev pub two_engine : Engine memory_db.Db
two_engine = flush memory_db true (
    take_item memory_db (item_of ascii started_log)
      (take_item memory_db (item_of ascii timeout_log) (started memory_db memory_db.empty)))

pub two_reached : Reach memory_db ascii two_written two_engine
two_reached = flushes (
    takes (takes created timeout_log (record { time = omega arith; stream = omega arith }))
      started_log (record { time = omega arith; stream = omega arith }))

pub two_distinct : DistinctIds (map id_of two_written.taken)
unfolding has_id
two_distinct = (refl, (refl, tt))

-- A search for "timeout", in lower case.
timeout_found :
    search_term memory_db two_engine.db two_engine.mem_index (codes "timeout") 0 9000 10
    ≡ (codes "Timeout after retry" ∷ [], none)
unfolding search_term flush take_item item_of keys_in get_after tokenize encode_log_key
    encode_index_key decode_index_key postings str_eq put_uint64 index_byte add get_uint64
timeout_found = refl

search_sound_example :
    (found : List Log) × ((search_term memory_db two_engine.db two_engine.mem_index
        (codes "timeout")
        0
        9000
        10).0
      ≡ map (λ l. l.message) found)
    × (All (IsAnswer ascii two_written (codes "timeout") 0 9000) found)
    × (DistinctIds (map id_of found))
    × (length found ≤ limit_or 10)
search_sound_example =
    search_sound memory_db memory_db-IsLawful ascii ascii-IsUnicode two_reached two_distinct
      (codes "timeout") (IsNonzero-of_token (codes "timeout") refl) 0 9000 10

pub timeout_has_token : has_token ascii (codes "timeout") timeout_log ≡ true
unfolding tokenize contains str_eq
timeout_has_token = refl

few_found :
    length (search_term memory_db two_engine.db two_engine.mem_index (codes "timeout") 0 9000 10).0
    < limit_or 10
few_found = subst (λ answer. length answer.0 < 10) (sym timeout_found) (omega arith)

IsNonzero-capital : All IsNonzero (codes "Timeout")
IsNonzero-capital = ground arith

not-IsToken : ¬ IsToken (codes "Timeout")
not-IsToken is_token = ground (arith, is_token.bytes)

value : digits_value 0 (codes "134") ≡ some 134
unfolding digits_value
value = refl

search_complete_example :
    In timeout_log.message
      (search_term memory_db two_engine.db two_engine.mem_index (codes "timeout") 0 9000 10).0
search_complete_example =
    search_complete memory_db memory_db-IsLawful ascii ascii-IsUnicode two_reached two_distinct
      (codes "timeout") (IsNonzero-of_token (codes "timeout") refl) 0 9000 10 timeout_log
      (inl refl, timeout_has_token, refl) few_found (ap (λ answer. answer.1) timeout_found)

search_term-candidates_example :
    (search_term memory_db two_engine.db two_engine.mem_index (codes "timeout") 0 9000 1).0
    ≡ take (limit_or 1) (
        stored memory_db two_engine.db (
          fresh []
            (candidates memory_db two_engine.db two_engine.mem_index (codes "timeout") 0 9000)))
search_term-candidates_example =
    search_term-candidates memory_db two_engine.db two_engine.mem_index (codes "timeout") 0 9000 1

-- A later log with the term of the first one.
abbrev later_log : Log
later_log = record { stream_id = 16; ts = 7000; message = codes "timeout over" }

abbrev three_written : History
three_written = record (take_log later_log two_written) {
  written = two_written.written ++ later_log ∷ [];
  pending = [];
}

abbrev three_engine : Engine memory_db.Db
three_engine = flush memory_db true (take_item memory_db (item_of ascii later_log) two_engine)

three_reached : Reach memory_db ascii three_written three_engine
three_reached =
    flushes (takes two_reached later_log (record { time = omega arith; stream = omega arith }))

timeouts_stored :
    stored memory_db three_engine.db
      (fresh [] (map id_of (hits ascii three_written (codes "timeout") 0 9000)))
    ≡ codes "Timeout after retry" ∷ codes "timeout over" ∷ []
unfolding stored fresh has_id flush take_item item_of get_after tokenize contains encode_log_key
    encode_index_key decode_index_key postings str_eq put_uint64 index_byte add get_uint64
timeouts_stored = refl

oldest_found_example :
    (search_term memory_db three_engine.db three_engine.mem_index (codes "timeout") 0 9000 1).0
    ≡ take (limit_or 1) (
        stored memory_db three_engine.db
          (fresh [] (map id_of (hits ascii three_written (codes "timeout") 0 9000))))
oldest_found_example =
    oldest_found memory_db memory_db-IsLawful ascii ascii-IsUnicode three_reached (codes "timeout")
      0 9000 1 (subst (λ ms. 1 ≤ length ms) (sym timeouts_stored) (omega arith))

parse_syslog-line_example :
    parse_syslog 77 (
      b'<'
      ∷ (codes "134"
          ++ b'>' ∷ ((codes "Oct" ++ b' ' ∷ codes "11") ++ b' ' ∷ codes "22:14:15")
          ++ b' ' ∷ (codes "web-1" ++ b' ' ∷ codes "up again")))
    ≡ parsed_as 134 (codes "134") (codes "web-1") (codes "up again") 77
parse_syslog-line_example =
    parse_syslog-line 134 (codes "134") (codes "web-1") (codes "up again") 77 (codes "Oct")
      (codes "11") (codes "22:14:15") value (omega arith) (omega arith) refl refl refl
      (ground arith) (cc) (ground arith) (ground arith)

abbrev two_arrivals : List Arrival
two_arrivals = arrives timeout_log true ∷ ticks false ∷ arrives started_log true ∷ signals true ∷ []

run-Reach_example :
    (h : History) × (Reach memory_db ascii h
      (run memory_db (map (event_of ascii) two_arrivals) (started memory_db [])))
    × (h.taken ≡ timeout_log ∷ started_log ∷ [])
    × ((run memory_db (map (event_of ascii) two_arrivals) (started memory_db [])).batch_size
        < max_batch_size)
run-Reach_example =
    run-Reach memory_db ascii two_arrivals created
      (
        record { time = omega arith; stream = omega arith },
        (record { time = omega arith; stream = omega arith }, tt),
      )
      (omega arith)

Reach-IsConsistent_example : IsConsistent memory_db ascii two_written two_engine
Reach-IsConsistent_example =
    Reach-IsConsistent memory_db memory_db-IsLawful ascii ascii-IsUnicode two_reached

abbrev line : Bytes
line = codes "<134>Oct 11 22:14:15 web-1 up again"

abbrev line_engine : Engine memory_db.Db
line_engine =
    flush memory_db true (take_item memory_db (worker_loop ascii 77 line) (started memory_db []))

abbrev line_log : Log
line_log = log_of (parse_syslog 77 line)

line_message : line_log.message ≡ codes "up again"
unfolding log_of parse_syslog
line_message = refl

again_found :
    search_term memory_db line_engine.db line_engine.mem_index (codes "again") 0 9000 10
    ≡ (codes "up again" ∷ [], none)
unfolding search_term flush take_item item_of keys_in get_after tokenize encode_log_key
    encode_index_key decode_index_key postings str_eq put_uint64 index_byte add get_uint64
    worker_loop log_of parse_syslog
again_found = refl

again_token : has_token ascii (codes "again") line_log ≡ true
unfolding tokenize contains str_eq log_of parse_syslog
again_token = refl

line_within : is_within 0 9000 line_log.ts ≡ true
unfolding log_of parse_syslog
line_within = refl

again_few :
    length (search_term memory_db line_engine.db line_engine.mem_index (codes "again") 0 9000 10).0
    < limit_or 10
again_few = subst (λ answer. length answer.0 < 10) (sym again_found) (omega arith)

line_distinct : DistinctIds (id_of line_log ∷ [])
unfolding has_id
line_distinct = (refl, tt)

ingested_found_example :
    In line_log.message
      (search_term memory_db line_engine.db line_engine.mem_index (codes "again") 0 9000 10).0
ingested_found_example =
    ingested_found memory_db memory_db-IsLawful ascii ascii-IsUnicode created 77 line (omega arith)
      line_distinct (codes "again") (IsNonzero-of_token (codes "again") refl) again_token 0 9000 10
      line_within again_few (ap (λ answer. answer.1) again_found)

handle_ingest-lines_example :
    handle_ingest true true (body_of (codes "disk full" ∷ codes "ok" ∷ []))
    ≡ record { status = accepted; packets = codes "disk full" ∷ codes "ok" ∷ [] }
unfolding drop_cr
handle_ingest-lines_example = handle_ingest-lines (codes "disk full" ∷ codes "ok" ∷ []) (
  record { some_bytes = cc; no_end = ground arith; no_cr = refl; fits = omega arith },
  (record { some_bytes = cc; no_end = ground arith; no_cr = refl; fits = omega arith }, tt),
)
