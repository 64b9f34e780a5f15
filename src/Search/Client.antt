-- ===== src/Search/Client.antt =====
-- web/src/lib/api.js: `searchLogs` for the range of `timeRangeToMs`, and what it makes of the endpoint's answers.
use hackathon.Common.{
  ℕ, ◌*◌, ◌-◌, Bool, ◌&&◌, Option, none, some, List, [], ◌∷◌, ◌++◌, map, Str, codes, leb,
  if◌then◌else◌, or_else,
}
use hackathon.Common.Number.{decimal}
use hackathon.Engine.{LogEntry}
use hackathon.Query.Normalize.{RawEntry}
use hackathon.Search.{SearchQuery, Answer, bad_request, bad_gateway, found}

pub record AppError : Type 0 where
  pub code : Str
  pub message : Str
  pub details : Str

-- The parts of a JSON body that the client reads; `{}` for a body that is no JSON.
pub record Body : Type 0 where
  pub error : Str
  pub details : Str
  pub logs : List RawEntry
  pub execution_time_ns : Option ℕ

pub data HttpReply : Type 0 where
  network_error : (message : Str) → HttpReply
  response : (status : ℕ) → Body → HttpReply

-- A promise that is settled.
pub data Settled : Type 0 where
  resolved : Body → Settled
  rejected : AppError → Settled

abbrev pub is_ok : ℕ → Bool
is_ok status = leb 200 status && leb status 299

-- `searchLogs`, once `fetch` has settled.
unfoldable pub search_logs : HttpReply → Settled
search_logs (network_error m) = rejected (record { code = []; message = m; details = [] })
search_logs (response status body) =
    if is_ok status
    then resolved body
    else rejected (record {
      code = codes "ENGINE_ERROR";
      message = or_else body.error (codes "Server returned " ++ decimal status);
      details = body.details;
    })

-- Milliseconds since 1970 less some more, as `String` shows the whole number.
abbrev pub minus_text : ℕ → ℕ → Str
minus_text a b = if leb b a then decimal (a - b) else b'-' ∷ decimal (b - a)

-- `timeRangeToMs` at `Date.now()`, as the query string shows the two.
abbrev pub time_range_to_ms : ℕ → ℕ → Str × Str
time_range_to_ms minutes now = (minus_text now (minutes * 60000), decimal now)

-- The query string of `searchLogs`, as the endpoint reads it.
abbrev pub search_params : Str → ℕ → ℕ → ℕ → SearchQuery
search_params term minutes now limit = record {
  term = some term;
  start_time = some (time_range_to_ms minutes now).0;
  end_time = some (time_range_to_ms minutes now).1;
  limit = some (decimal limit);
}

-- A record of the engine in a JSON body.
abbrev pub raw_of : LogEntry → RawEntry
raw_of e = record {
  timestamp_nano = e.timestamp_nano;
  message = e.message;
  id = [];
  timestamp = [];
  host = [];
  app = [];
  env = [];
  meta = [];
}

abbrev pub no_body : Body
no_body = record { error = []; details = []; logs = []; execution_time_ns = none }

-- `res.json` and `res.status(…).json` of the endpoint.
abbrev pub http_of : Answer → HttpReply
http_of bad_request =
    response 400
      (record no_body { error = codes "startTime/endTime must be valid and limit must be 1..5000" })
http_of (bad_gateway details) =
    response 502 (record no_body { error = codes "Go engine query failed"; details = details })
http_of (found count total logs) = response 200 (record no_body { logs = map raw_of logs })
