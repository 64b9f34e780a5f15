-- ===== src/App/Live.antt =====
-- web/src/App.jsx: the live tail effect, its socket, buffer and flush, and the handlers that the
-- query bar and the keyboard call. An event is a step of `Step`; the effect runs again, after its
-- cleanup, when `isLive` has changed.
pub mod Flush
pub mod Ids
pub mod Invariant
pub mod Reconnect
pub mod Wire
pub mod Chain
pub mod Kept
pub mod Tests
use hackathon.Common.{
  ℕ, ◌+◌, ◌*◌, Bool, true, false, not, ◌||◌, Option, none, some, List, [], ◌∷◌, ◌++◌, ◌≡◌, ◌≢◌, Str,
  codes, length, take, or_else, if◌then◌else◌, str_eq,
}
use hackathon.Common.Double.{to_double}
use hackathon.Common.Number.{decimal}
use hackathon.Query.{parse_query}
use hackathon.Query.Normalize.{RawEntry, DisplayLog, Times, normalize_log_entry}
use hackathon.Search.Client.{AppError, Settled}
use hackathon.App.{
  App, Effect, SocketState, off, connecting, connected, failed, told, run_query, finish_query,
  dismiss,
}

abbrev pub live_max_lines : ℕ
live_max_lines = 5000

-- A frame of the bridge, as `JSON.parse` gives it. `other` has another type or is no JSON.
pub data Packet : Type 0 where
  status : Str → Packet
  error : Str → Packet
  log : RawEntry → Packet
  other : Packet

-- `connect`, which does nothing once the effect is cleaned up.
unfoldable pub connect : App → App
connect a = elim a.effect [
  | none ↦ a
  | some e ↦ record a {
    socket_state = connecting;
    socket_ref = some e.term;
    effect = some (record e { reconnect_timer = false });
  }
]

-- The body of the effect.
unfoldable pub run_effect : App → App
unfolding connect
run_effect a =
    if not a.is_live
    then record a { socket_ref = none; buffer_ref = []; socket_state = off }
    else connect (record a {
      new_count_ref = 0;
      new_log_count = 0;
      buffer_ref = [];
      effect = some (record { term = (parse_query a.query).primary_term; reconnect_timer = false });
    })

-- The cleanup of the effect: timers, socket and buffer. A run that was not live has none.
unfoldable pub cleanup : App → App
cleanup a = elim a.effect [
  | none ↦ a
  | some e ↦ record a { effect = none; socket_ref = none; buffer_ref = []; socket_state = off }
]

-- `setIsLive(v => !v)`, the render, and the effect.
unfoldable pub toggle_live : App → App
unfolding run_effect cleanup
toggle_live a = let b = cleanup a in run_effect (record b { is_live = not b.is_live })

-- The bridge's socket works only while the effect that made it does.
abbrev pub on_socket : App → App → App
on_socket a b = elim a.socket_ref [ none ↦ a | some t ↦ b ]

unfoldable pub on_open : App → App
on_open a = on_socket a (record a { socket_state = connected })

-- `onerror`, also of a socket that a cleanup is closing.
unfoldable pub on_error : App → App
on_error a = record a { socket_state = failed }

-- `onclose`: the reference is dropped and `connect` is called again in 1000 ms.
unfoldable pub on_close : App → App
on_close a = on_socket a (elim a.effect [
  | none ↦ record a { socket_ref = none }
  | some e ↦ record a { socket_ref = none; effect = some (record e { reconnect_timer = true }) }
])

module _ (times : Times) where
  -- The line that a log frame becomes, at `Date.now()`. Its index is the time.
  abbrev pub live_line : RawEntry → ℕ → DisplayLog
  live_line e now =
      normalize_log_entry times
        (record e {
          timestamp_nano = or_else e.timestamp_nano (decimal (to_double (now * 1000000)));
        })
        now now

  abbrev receive : Packet → ℕ → App → App
  receive (status s) now a = record a { socket_state = told s }
  receive (error m) now a = record a {
    socket_state = failed;
    query_error = some (record { code = codes "STREAM_ERROR"; message = m; details = [] });
  }
  receive (log e) now a = record a { buffer_ref = a.buffer_ref ++ live_line e now ∷ [] }
  receive other now a = a

  unfoldable pub on_message : Packet → ℕ → App → App
  on_message p now a = on_socket a (receive p now a)

-- `merged.slice(0, LIVE_MAX_LINES)`
unfoldable pub slice_lines : List DisplayLog → List DisplayLog
slice_lines merged = take live_max_lines merged

-- The interval of 350 ms, which the effect starts and its cleanup stops.
unfoldable pub flush : App → App
flush a = elim a.buffer_ref [
  | [] ↦ a
  | l ∷ ls ↦
      let count = a.new_count_ref + length (l ∷ ls) in
      record a {
        buffer_ref = [];
        new_count_ref = count;
        new_log_count = count;
        logs = slice_lines ((l ∷ ls) ++ a.logs);
      }
]

-- The handlers that are given to `QueryBar`, and the shortcut of the keyboard.
unfoldable pub on_time_range_change : ℕ → ℕ → App → App
unfolding run_query
on_time_range_change m now a = run_query (some a.query) (some m) now (record a { time_range = m })

unfoldable pub on_live_toggle : ℕ → App → App
unfolding toggle_live run_query
on_live_toggle now a = toggle_live (run_query none none now a)

abbrev pub on_query_change : Str → App → App
on_query_change q a = record a { query = q }

abbrev pub is_editing : Str → Bool
is_editing tag =
    str_eq tag (codes "INPUT") || str_eq tag (codes "TEXTAREA") || str_eq tag (codes "SELECT")

-- The key handler: the tag of the focused element, and `e.code`.
unfoldable pub on_key : Str → Str → App → App
unfolding toggle_live
on_key tag code a =
    if is_editing tag then a else if str_eq code (codes "Space") then toggle_live a else a

-- What can happen to the page.
pub data Step (times : Times) (a b : App) : Type 0 where
  typed : (q : Str) → b ≡ on_query_change q a → Step times a b
  ran : (now : ℕ) → b ≡ run_query none none now a → Step times a b
  settled : (i now : ℕ) (r : Settled) → b ≡ finish_query times i now r a → Step times a b
  ranged : (m now : ℕ) → b ≡ on_time_range_change m now a → Step times a b
  toggled : (now : ℕ) → b ≡ on_live_toggle now a → Step times a b
  pressed : (tag code : Str) → b ≡ on_key tag code a → Step times a b
  opened : b ≡ on_open a → Step times a b
  received : (p : Packet) (now : ℕ) → b ≡ on_message times p now a → Step times a b
  -- An error of the socket, or of one that is closing.
  broke : b ≡ on_error a → Step times a b
  closed : b ≡ on_close a → Step times a b
  reconnected :
      (e : Effect) → a.effect ≡ some e → e.reconnect_timer ≡ true → b ≡ connect a → Step times a b
  flushed : a.effect ≢ none → b ≡ flush a → Step times a b
  dismissed : b ≡ dismiss a → Step times a b
