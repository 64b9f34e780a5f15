-- ===== src/Query/Tests.antt =====
-- Queries and log lines as web/src/lib/queryParser.js reads them.
use Prim.Native.String.{String}
use hackathon.Common.{
  some, ◌≡◌, refl, arith, codes, [], ◌∷◌, Str, is_space, is_word, drop_while, str_eq, not,
}
use hackathon.Query.RoundTrip.{write_query, parse_query-write_query}
use hackathon.Regex.Loop.{exec_loop}
use hackathon.Query.Loops.{loops_end}
use hackathon.Query.{
  label_pair, quoted, Label, parse_query, trim, labels_in, bare_word, bare_words, terms_in,
  query_terms,
}
use hackathon.Query.Normalize.{
  RawEntry, Times, DisplayLog, from_message, error, critical, text, number, dash_or, sev_keywords,
  lower, detect, pri_to_sev, from_plain, starts_with, includes,
}
use hackathon.Query.Normalize.Severity.{IsDetected, detect_most_severe}
use hackathon.Query.Normalize.Bsd.{BsdHeader, IsBsdHeader, write_3164}
use hackathon.Query.Normalize.Rfc3164.{normalize_3164}
use hackathon.Query.Normalize.Syslog.{Header, write_5424, normalize_5424}
use hackathon.Regex.{exec, exec_all, replace_all, split, is_dot}

-- What a test of the parser unfolds.
parser : Unit {0}
unfolding parse_query labels_in query_terms terms_in bare_words bare_word trim exec exec_all
    replace_all split is_dot is_space is_word drop_while
parser = tt

abbrev sample : Str
sample = codes "{app=\"nginx\", env = \"prod\"} | \"error\" OR \"timeout\""

parsed_sample : parse_query sample ≡ record {
  labels =
      record { key = codes "app"; value = codes "nginx" }
      ∷ record { key = codes "env"; value = codes "prod" }
      ∷ [];
  terms = codes "error" ∷ codes "timeout" ∷ [];
  primary_term = codes "error";
  raw = sample;
}
unfolding parser
parsed_sample = refl

bare_sample :
    (parse_query (codes "x | 'a b' or c  AND d\"")).terms ≡ codes "a b" ∷ codes "c" ∷ codes "d" ∷ []
unfolding parser
bare_sample = refl

no_pipe : (parse_query (codes "timeout")).terms ≡ []
unfolding parser
no_pipe = refl

abbrev label : String → String → Label
label k v = record { key = codes k; value = codes v }

parse_query-write_query_example :
    parse_query (
      write_query
        (label "app" "nginx" ∷ label "env" "prod" ∷ [])
        (codes "error")
        (codes "time out" ∷ []))
    ≡ record {
      labels = label "app" "nginx" ∷ label "env" "prod" ∷ [];
      terms = codes "error" ∷ codes "time out" ∷ [];
      primary_term = codes "error";
      raw =
          write_query
            (label "app" "nginx" ∷ label "env" "prod" ∷ [])
            (codes "error")
            (codes "time out" ∷ []);
    }
unfolding is_word is_dot
parse_query-write_query_example =
    parse_query-write_query (label "app" "nginx" ∷ label "env" "prod" ∷ []) (codes "error")
      (codes "time out" ∷ []) (ground arith) (ground arith) (ground arith)

detect_most_severe_example :
    IsDetected sev_keywords
      (lower (codes "Warning: fatal"))
      (detect sev_keywords (lower (codes "Warning: fatal")))
detect_most_severe_example = detect_most_severe (codes "Warning: fatal")

abbrev pub raw_entry : String → RawEntry
raw_entry m = record {
  timestamp_nano = codes "0";
  message = codes m;
  id = [];
  timestamp = [];
  host = [];
  app = [];
  env = [];
  meta = [];
}

-- Whole numbers, shown as they were read.
abbrev pub plain_times : Times
plain_times = record {
  Num = Str;
  number_of = λ s. s;
  is_truthy = λ s. not (str_eq s (codes "0"));
  show = λ s. s;
  iso_of_nano = λ s. s;
  iso_now = λ n. [];
}

abbrev header : Header
header = record {
  time = codes "2026-09-24T00:00:00Z";
  host = codes "-";
  app = codes "router";
  proc_id = codes "77";
  msg_id = codes "-";
  structured = codes "-";
}

abbrev syslog_entry : RawEntry
syslog_entry = record (raw_entry "") { message = write_5424 34 header (codes "link down") }

normalize_5424_example : from_message (codes "x") (codes "t") syslog_entry ≡ record {
  id = codes "x";
  timestamp = codes "t";
  level = pri_to_sev 34;
  host = dash_or (codes "-") (codes "unknown");
  app = dash_or (codes "router") (codes "syslog");
  env = codes "prod";
  message = codes "link down";
  meta =
      (codes "pid", text (codes "77"))
      ∷ (codes "facility", number 4)
      ∷ (codes "raw", text syslog_entry.message)
      ∷ [];
}
unfolding is_space
normalize_5424_example =
    normalize_5424 (codes "x") (codes "t") syslog_entry 34 header (codes "link down") refl
      (omega arith) (ground arith) refl

abbrev pub shown : String → DisplayLog
shown h = record {
  id = [];
  timestamp = [];
  level = error;
  host = codes h;
  app = codes "nginx";
  env = codes "prod";
  message = [];
  meta = [];
}

plain_line : let e = raw_entry "[nginx] 503 Service FATAL" in (from_plain [] [] e).level ≡ critical
unfolding from_plain detect includes starts_with lower
plain_line = refl

abbrev bsd_header : BsdHeader
bsd_header = record {
  month = codes "Sep";
  day = codes "24";
  clock = codes "07:15:00";
  host = codes "edge-1";
  app = codes "sshd";
  pid = some (codes "77");
}

bsd_header-IsBsdHeader : IsBsdHeader bsd_header
unfolding is_space is_word
bsd_header-IsBsdHeader = record {
  month_word = ground arith;
  month_not_1 = refl;
  day_digits = ground arith;
  clock_digits = ground arith;
  host_field = ground arith;
  app_field = ground arith;
  app_name = ground arith;
  pid_digits = ground arith;
}

abbrev bsd_entry : RawEntry
bsd_entry = record (raw_entry "") { message = write_3164 34 bsd_header (codes "bad key") }

normalize_3164_example : from_message (codes "x") (codes "t") bsd_entry ≡ record {
  id = codes "x";
  timestamp = codes "t";
  level = pri_to_sev 34;
  host = codes "edge-1";
  app = codes "sshd";
  env = codes "prod";
  message = codes "bad key";
  meta =
      (codes "pid", text (codes "77"))
      ∷ (codes "facility", number 4)
      ∷ (codes "raw", text bsd_entry.message)
      ∷ [];
}
unfolding is_space
normalize_3164_example =
    normalize_3164 (codes "x") (codes "t") bsd_entry 34 bsd_header (codes "bad key") refl
      (omega arith) bsd_header-IsBsdHeader refl

loops_end_example :
    (exec_loop 7 label_pair 0 (codes "a=\"1\",") ≡ some (exec_all label_pair (codes "a=\"1\",")))
    × (exec_loop 7 quoted 0 (codes "a=\"1\",") ≡ some (exec_all quoted (codes "a=\"1\",")))
loops_end_example = loops_end 7 (codes "a=\"1\",") (omega arith)
