-- ===== src/Engine.antt =====
-- The messages of server/proto/logservice.proto as server/src/services/logClient.js loads them:
-- 64-bit integers are decimal strings, field names are kept, absent fields have their defaults.
pub mod Keys
pub mod Db
pub mod Index
pub mod Find
pub mod Tokens
pub mod Syslog
pub mod Items
pub mod Loop
pub mod Service
pub mod Ingest
pub mod Pipeline
pub mod Tests
use hackathon.Common.{ℕ, List, [], ◌∷◌, ◌++◌, Str, codes, ltb, ◌==◌, if◌then◌else◌, ◌/◌, ◌%◌, ◌+◌}

pub record LogEntry : Type 0 where
  pub timestamp_nano : Str
  pub message : Str

-- `Time` is the type of the numbers that the caller computes.
pub record QueryRequest (Time : Type 0) : Type 0 where
  pub term : Str
  pub start_time_nano : Time
  pub end_time_nano : Time
  pub limit : ℕ

pub record QueryResponse : Type 0 where
  pub logs : List LogEntry
  pub total_found : Str
  pub error : Str

-- What the callback of `client.Query` is given. The message of a gRPC error begins with the
-- number of its status, so it is not empty.
pub data Reply : Type 0 where
  failed : (message : Str) → Reply
  answered : QueryResponse → Reply

-- `JSON.stringify` of a string, without its quotes. Code units of surrogates are kept: a message
-- that the client decoded from UTF-8 has none that stands alone.
hex_digit : ℕ → ℕ
hex_digit n = if ltb n 10 then b'0' + n else b'a' + n % 10

escape_unit : ℕ → Str
unfolding hex_digit
escape_unit c =
    if c == b'"'
    then codes "\\\""
    else if c == b'\\'
    then codes "\\\\"
    else if c == 8
    then codes "\\b"
    else if c == 9
    then codes "\\t"
    else if c == 10
    then codes "\\n"
    else if c == 12
    then codes "\\f"
    else if c == 13
    then codes "\\r"
    else if ltb c 32
    then codes "\\u00" ++ hex_digit (c / 16) ∷ hex_digit (c % 16) ∷ []
    else c ∷ []

escape : Str → Str
escape [] = []
escape (c ∷ s) = escape_unit c ++ escape s

-- `JSON.stringify(entry)`.
unfoldable pub stringify : LogEntry → Str
unfolding escape escape_unit
stringify e =
    codes "{\"timestamp_nano\":\""
    ++ (escape e.timestamp_nano ++ (codes "\",\"message\":\"" ++ (escape e.message ++ codes "\"}")))
