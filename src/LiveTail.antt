-- ===== src/LiveTail.antt =====
-- server/src/services/liveTail.js: the bridge that polls the engine for one WebSocket.
-- The closure variables of `createLiveTail` are the fields of `Tail`. `sent` and `requests` record
-- what went out, oldest first. `crypto` is a parameter, `digest`.
pub mod Counts
pub mod Emission
pub mod Delivery
pub mod Lifecycle
pub mod Progress
pub mod Tests
use hackathon.Common.{
  ℕ, suc, ◌+◌, ◌-◌, ◌*◌, Bool, true, false, not, ◌||◌, Option, none, some, List, [], ◌∷◌, ◌++◌, Str,
  str_eq, ltb, if◌then◌else◌,
}
use hackathon.Common.Double.{to_double}
use hackathon.Engine.{LogEntry, QueryRequest, QueryResponse, Reply, failed, answered, stringify}

abbrev pub lookback_ms : ℕ
lookback_ms = 5 * 60 * 1000

abbrev pub limit : ℕ
limit = 5000

-- A `Map` from keys to numbers; a missing key reads as 0, as `seen.get(key) || 0` does.
abbrev pub Counts : Type 0
Counts = List (Str × ℕ)

unfoldable pub get : Counts → Str → ℕ
get [] k = 0
get ((j, n) ∷ m) k = if str_eq j k then n else get m k

unfoldable pub set : Counts → Str → ℕ → Counts
set [] k n = (k, n) ∷ []
set ((j, o) ∷ m) k n = if str_eq j k then (j, n) ∷ m else (j, o) ∷ set m k n

pub data Frame : Type 0 where
  connecting connected : Frame
  log : LogEntry → (received_at : ℕ) → Frame
  error : Str → Frame

-- The state of a call of `client.Query` whose callback has not run.
pub data Call : Type 0 where
  running cancelled : Call

pub record Tail : Type 0 where
  pub term : Str
  pub poll_ms : ℕ
  pub is_open : Bool  -- `ws.readyState === ws.OPEN`
  pub stopped : Bool
  pub timer : Option ℕ  -- the delay of the timeout that is pending
  pub active_call : Option Call
  pub seen : Counts
  pub sent : List Frame
  pub requests : List (QueryRequest ℕ)

abbrev pub send : Tail → List Frame → Tail
send t frames = record t { sent = t.sent ++ frames }

abbrev cancel : Option Call → Option Call
cancel none = none
cancel (some c) = some cancelled

unfoldable pub stop : Tail → Tail
stop t =
    if t.stopped
    then t
    else record t { stopped = true; timer = none; active_call = cancel t.active_call }

-- `Math.trunc(ms * 1e6)`.
abbrev pub to_nano : ℕ → ℕ
to_nano ms = to_double (ms * 1000000)

-- The clock stands after the first five minutes of 1970, so the subtraction is exact.
abbrev pub tail_request : Str → ℕ → QueryRequest ℕ
tail_request term now = record {
  term = term;
  start_time_nano = to_nano (now - lookback_ms);
  end_time_nano = to_nano now;
  limit = limit;
}

unfoldable pub poll : ℕ → Tail → Tail
unfolding stop
poll now t = if t.stopped || not t.is_open then stop t else record t {
  active_call = some running;
  requests = t.requests ++ tail_request t.term now ∷ [];
}

module _ (digest : Str → Str) where
  abbrev pub entry_key : LogEntry → Str
  entry_key e = digest (stringify e)

  -- The loop over `response.logs`: the entries sent, and `current` after it.
  unfoldable pub scan : Counts → Counts → List LogEntry → List LogEntry × Counts
  scan seen current [] = ([], current)
  scan seen current (e ∷ es) =
      let occurrence = suc (get current (entry_key e)) in
      let (fresh, final) = scan seen (set current (entry_key e) occurrence) es in
      (if ltb (get seen (entry_key e)) occurrence then e ∷ fresh else fresh, final)

-- `for (const [key, count] of current) seen.set(key, count)`.
unfoldable pub merge : Counts → Counts → Counts
merge seen [] = seen
merge seen ((k, n) ∷ current) = merge (set seen k n) current

abbrev pub log_frames : ℕ → List LogEntry → List Frame
log_frames now [] = []
log_frames now (e ∷ es) = log e now ∷ log_frames now es

module _ (digest : Str → Str) where
  -- The branch without an error. The callback does not wait, so its clock readings are one.
  unfoldable pub deliver : ℕ → List LogEntry → Tail → Tail
  unfolding scan merge
  deliver now logs t =
      let (fresh, current) = scan digest t.seen [] logs in
      record t {
        seen = merge t.seen current;
        sent = t.sent ++ (log_frames now fresh ++ connected ∷ []);
      }

  abbrev report : ℕ → Reply → Tail → Tail
  report now (failed message) t = send t (error message ∷ [])
  report now (answered r) t = elim r.error [
    | [] ↦ deliver now r.logs t
    | c ∷ s ↦ send t (error (c ∷ s) ∷ [])
  ]

  -- The callback of `client.Query`.
  unfoldable pub callback : ℕ → Reply → Tail → Tail
  unfolding deliver
  callback now reply t =
      let u = record t { active_call = none } in
      if t.stopped then u else record (report now reply u) { timer = some t.poll_ms }

-- `createLiveTail`, for a socket whose state is `is_open`.
unfoldable pub create_live_tail : ℕ → Bool → Str → ℕ → Tail
unfolding poll
create_live_tail now is_open term poll_ms = poll now (record {
  term = term;
  poll_ms = poll_ms;
  is_open = is_open;
  stopped = false;
  timer = none;
  active_call = none;
  seen = [];
  sent = connecting ∷ [];
  requests = [];
})
