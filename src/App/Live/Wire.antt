-- ===== src/App/Live/Wire.antt =====
-- A poll of server/src/services/liveTail.js at the page of web/src/App.jsx: its frames as JSON,
-- the page's messages, and the lines that a flush then shows.
use hackathon.Common.{
  ℕ, suc, ◌+◌, ◌-◌, ◌≤◌, false, some, List, [], ◌∷◌, ◌++◌, ◌≡◌, refl, sym, ap, ◌∙◌, arith, Str,
  codes, length, InOrder, done, skip, keep, append_assoc, append-nil, length-append,
}
use hackathon.Engine.{LogEntry, QueryResponse, answered}
use hackathon.LiveTail as LiveTail
use hackathon.LiveTail.{Frame, Tail, get, callback, log_frames}
use hackathon.LiveTail.Emission.{occurrences}
use hackathon.LiveTail.Delivery.{callback_delivery}
use hackathon.Query.Normalize.{DisplayLog, Times}
use hackathon.Search.Client.{raw_of}
use hackathon.App.{App, told}
use hackathon.App.Live.{Packet, status, error, log, live_line, on_message, flush, live_max_lines}
use hackathon.App.Live.Flush.{flush_room}

-- What `JSON.parse` makes of a frame. The time of sending that a record carries is not read.
abbrev pub packet_of : Frame → Packet
packet_of LiveTail.connecting = status (codes "connecting")
packet_of LiveTail.connected = status (codes "connected")
packet_of (LiveTail.log e received_at) = log (raw_of e)
packet_of (LiveTail.error m) = error m

flush-socket_state : (a : App) → (flush a).socket_state ≡ a.socket_state
unfolding flush
flush-socket_state a = ground arith

module _ (times : Times) where
  -- The frames arrive in order, the `i`-th at `clock i`.
  unfoldable pub receive_frames : (ℕ → ℕ) → ℕ → List Frame → App → App
  unfolding on_message
  receive_frames clock i [] a = a
  receive_frames clock i (f ∷ fs) a =
      receive_frames clock (suc i) fs (on_message times (packet_of f) (clock i) a)

  abbrev pub lines_from : (ℕ → ℕ) → ℕ → List LogEntry → List DisplayLog
  lines_from clock i [] = []
  lines_from clock i (e ∷ es) = live_line times (raw_of e) (clock i) ∷ lines_from clock (suc i) es

  length-lines_from :
      (clock : ℕ → ℕ) (i : ℕ) (es : List LogEntry) → length (lines_from clock i es) ≡ length es
  length-lines_from clock i [] = refl
  length-lines_from clock i (e ∷ es) = ap suc (length-lines_from clock (suc i) es)

  on_message-log :
      (e : LogEntry) (now : ℕ) (a : App) (s : Str)
      → a.socket_ref ≡ some s
      → on_message times (log (raw_of e)) now a
        ≡ record a { buffer_ref = a.buffer_ref ++ live_line times (raw_of e) now ∷ [] }
  unfolding on_message
  on_message-log e now a s open_ = ground arith

  on_message-connected :
      (now : ℕ) (a : App) (s : Str)
      → a.socket_ref ≡ some s
      → on_message times (status (codes "connected")) now a
        ≡ record a { socket_state = told (codes "connected") }
  unfolding on_message
  on_message-connected now a s open_ = ground arith

  receive_frames-logs :
      (clock : ℕ → ℕ) (i now : ℕ) (es : List LogEntry) (a : App) (s : Str)
      → a.socket_ref ≡ some s
      → receive_frames clock i (log_frames now es ++ LiveTail.connected ∷ []) a ≡ record a {
        buffer_ref = a.buffer_ref ++ lines_from clock i es;
        socket_state = told (codes "connected");
      }
  unfolding receive_frames
  receive_frames-logs clock i now [] a s open_ =
      on_message-connected (clock i) a s open_
      ∙ ap (λ b. record a { buffer_ref = b; socket_state = told (codes "connected") })
          (sym (append-nil a.buffer_ref))
  receive_frames-logs clock i now (e ∷ es) a s open_ =
      let l = live_line times (raw_of e) (clock i) in
      ap (receive_frames clock (suc i) (log_frames now es ++ LiveTail.connected ∷ []))
        (on_message-log e (clock i) a s open_)
      ∙ receive_frames-logs clock (suc i) now es (record a { buffer_ref = a.buffer_ref ++ l ∷ [] })
          s open_
      ∙ ap (λ b. record a { buffer_ref = b; socket_state = told (codes "connected") })
          (append_assoc a.buffer_ref (l ∷ []) (lines_from clock (suc i) es))

  length-InOrder : (xs ys : List LogEntry) → InOrder xs ys → length xs ≤ length ys
  length-InOrder xs ys done = omega arith
  length-InOrder xs (y ∷ ys) (skip h) = omega (arith, length-InOrder xs ys h)
  length-InOrder (x ∷ xs) (y ∷ ys) (keep h) = omega (arith, length-InOrder xs ys h)

  module _ (digest : Str → Str) where
    -- A response without an error reaches the page: the bridge sends some frames, and a page with an
    -- open socket that receives them, in order and at any times, and then flushes, shows in front
    -- of its lines what it had buffered and one line for each record of the response beyond the
    -- count in `seen`, in the order of the response, where there is room for them.
    pub poll_shown :
        (now : ℕ) (clock : ℕ → ℕ) (r : QueryResponse) (t : Tail) (a : App) {s : Str}
        → t.stopped ≡ false
        → r.error ≡ []
        → a.socket_ref ≡ some s
        → length a.buffer_ref + length r.logs + length a.logs ≤ live_max_lines
        → (frames : List Frame) × (fresh : List LogEntry) × ((callback digest now
              (answered r)
              t).sent
            ≡ t.sent ++ frames)
          × InOrder fresh r.logs
          × ((k : Str) → occurrences digest k fresh ≡ occurrences digest k r.logs - get t.seen k)
          × ((flush (receive_frames clock 0 frames a)).logs
              ≡ (a.buffer_ref ++ lines_from clock 0 fresh) ++ a.logs)
          × ((flush (receive_frames clock 0 frames a)).socket_state ≡ told (codes "connected"))
    poll_shown now clock r t a {s} live fine open_ room =
        let (fresh, sent, order, counts, _) = callback_delivery digest now r t live fine in
        let got = receive_frames-logs clock 0 now fresh a s open_ in
        let b = record a {
          buffer_ref = a.buffer_ref ++ lines_from clock 0 fresh;
          socket_state = told (codes "connected");
        } in
        let fits : length b.buffer_ref + length b.logs ≤ live_max_lines = omega (
          arith,
          length-append a.buffer_ref (lines_from clock 0 fresh),
          length-lines_from clock 0 fresh,
          length-InOrder fresh r.logs order,
        ) in
        (
          log_frames now fresh ++ LiveTail.connected ∷ [],
          fresh,
          sent,
          order,
          counts,
          ap (λ x. (flush x).logs) got ∙ (flush_room b fits).0,
          ap (λ x. (flush x).socket_state) got ∙ flush-socket_state b,
        )
