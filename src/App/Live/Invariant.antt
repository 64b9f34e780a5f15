-- ===== src/App/Live/Invariant.antt =====
-- What holds of the page of web/src/App.jsx between two events.
use hackathon.Common.{◌⊎◌, Bool, ℕ, true, false, Option, none, some, [], ◌≡◌, arith, Str}
use hackathon.Query.Normalize.{Times}
use hackathon.Search.Client.{Settled, resolved, rejected}
use hackathon.App.{App, Effect, off, failed, run_query, finish_query}
use hackathon.App.Url.{UrlState, mount, Reach, here, next}
use hackathon.App.Live.{
  Packet, connect, toggle_live, on_open, on_error, on_close, on_message, flush,
  on_time_range_change, on_live_toggle, on_key, Step, typed, ran, settled, ranged, toggled, pressed,
  opened, received, broke, closed, reconnected, flushed, dismissed,
}

-- A running effect has a socket for its term, or a timer that will open one, and never both.
abbrev pub IsServed : Option Effect → Option Str → Type 0
IsServed none socket = ⊥
IsServed (some e) none = e.reconnect_timer ≡ true
IsServed (some e) (some t) = (t ≡ e.term) × (e.reconnect_timer ≡ false)

-- A live page is served; one that is not has nothing of the live tail, but may show the error of a
-- socket that is closing.
abbrev pub IsSettled : Bool → App → Type 0
IsSettled true a = IsServed a.effect a.socket_ref
IsSettled false a =
    (a.effect ≡ none)
    × (a.socket_ref ≡ none)
    × (a.buffer_ref ≡ [])
    × ((a.socket_state ≡ off) ⊎ (a.socket_state ≡ failed))

pub record IsTidy (a : App) : Type 0 where
  pub shape : IsSettled a.is_live a
  pub counted : a.new_log_count ≡ a.new_count_ref

toggle_live-IsTidy : (a : App) → IsTidy a → IsTidy (toggle_live a)
unfolding toggle_live
toggle_live-IsTidy a t = ground arith

connect-IsTidy :
    (a : App) (e : Effect)
    → a.effect ≡ some e
    → e.reconnect_timer ≡ true
    → IsTidy a
    → IsTidy (connect a)
unfolding connect
connect-IsTidy a e has waits t = ground arith

on_key-IsTidy : (tag code : Str) (a : App) → IsTidy a → IsTidy (on_key tag code a)
unfolding on_key
on_key-IsTidy tag code a t = ground arith

on_close-IsTidy : (a : App) → IsTidy a → IsTidy (on_close a)
unfolding on_close
on_close-IsTidy a t = ground arith

module _ (times : Times) where
  finish_query-IsTidy :
      (i now : ℕ) (r : Settled) (a : App) → IsTidy a → IsTidy (finish_query times i now r a)
  unfolding finish_query
  finish_query-IsTidy i now (resolved b) a t = ground arith
  finish_query-IsTidy i now (rejected e) a t = ground arith

  on_message-IsTidy :
      (p : Packet) (now : ℕ) (a : App) → IsTidy a → IsTidy (on_message times p now a)
  unfolding on_message
  on_message-IsTidy p now a t = ground arith

  Step-IsTidy : {a b : App} → Step times a b → IsTidy a → IsTidy b
  unfolding run_query on_time_range_change on_live_toggle on_open on_error flush
  Step-IsTidy (typed q e) t = ground arith
  Step-IsTidy (ran now e) t = ground arith
  Step-IsTidy {a} (settled i now r e) t = rw e (finish_query-IsTidy i now r a t)
  Step-IsTidy (ranged m now e) t = ground arith
  Step-IsTidy {a} (toggled now e) t =
      rw e (toggle_live-IsTidy (run_query none none now a) (ground arith))
  Step-IsTidy {a} (pressed tag code e) t = rw e (on_key-IsTidy tag code a t)
  Step-IsTidy (opened e) t = ground arith
  Step-IsTidy {a} (received p now e) t = rw e (on_message-IsTidy p now a t)
  Step-IsTidy (broke e) t = ground arith
  Step-IsTidy {a} (closed e) t = rw e (on_close-IsTidy a t)
  Step-IsTidy {a} (reconnected x has waits e) t = rw e (connect-IsTidy a x has waits t)
  Step-IsTidy (flushed runs e) t = ground arith
  Step-IsTidy (dismissed e) t = ground arith

  mount-IsTidy : (u : UrlState) (now : ℕ) → IsTidy (mount u now)
  unfolding mount
  mount-IsTidy u now = ground arith

  -- Whatever happens to the page, a live one has a socket of its effect or a timer that will open
  -- one, never both; one that is not live has no effect, socket and buffered line, and shows `off`,
  -- or `error`, which an error of a socket that is being closed sets; and the count of new lines
  -- that is shown is the one that is kept.
  pub page-IsTidy : (u : UrlState) (now : ℕ) {a : App} → Reach times (mount u now) a → IsTidy a
  page-IsTidy u now here = mount-IsTidy u now
  page-IsTidy u now (next r st) = Step-IsTidy st (page-IsTidy u now r)
