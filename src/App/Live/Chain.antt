-- ===== src/App/Live/Chain.antt =====
-- The live tail from the bridge of server/src/services/liveTail.js over the WebSocket to the page
-- of web/src/App.jsx: what the bridge sends while its socket is open arrives in order and at any time, and the page flushes
-- between.
use hackathon.Common.{ℕ, Bool, true, false, List, [], ◌∷◌, ◌++◌, ◌≡◌, Str}
use hackathon.LiveTail as LiveTail
use hackathon.LiveTail.{Frame, Tail}
use hackathon.LiveTail.Lifecycle as Lifecycle
use hackathon.Query.Normalize.{DisplayLog, Times}
use hackathon.Search.Client.{raw_of}
use hackathon.App.{App}
use hackathon.App.Live.{live_line, on_message, flush}
use hackathon.App.Live.Wire.{packet_of}

-- What `ws.send` puts on the wire: nothing once its socket is not open.
abbrev pub carried : Bool → List Frame → List Frame
carried true frames = frames
carried false frames = []

-- `wire` are the frames on their way, and `received` those that have come, with their times.
pub record Chain : Type 0 where
  pub tail : Tail
  pub wire : List Frame
  pub received : List (Frame × ℕ)
  pub app : App

pub data Step (times : Times) (digest : Str → Str) (s u : Chain) : Type 0 where
  bridged :
      (t : Tail) (fresh : List Frame)
      → Lifecycle.Step digest s.tail t
      → t.sent ≡ s.tail.sent ++ fresh
      → u ≡ record s { tail = t; wire = s.wire ++ carried s.tail.is_open fresh }
      → Step times digest s u
  delivered :
      (f : Frame) (fs : List Frame) (now : ℕ)
      → s.wire ≡ f ∷ fs
      → u ≡ record s {
        wire = fs;
        received = s.received ++ (f, now) ∷ [];
        app = on_message times (packet_of f) now s.app;
      }
      → Step times digest s u
  flushed : u ≡ record s { app = flush s.app } → Step times digest s u

pub data Reach (times : Times) (digest : Str → Str) (s : Chain) : Chain → Type 0 where
  here : Reach times digest s s
  next : {t u : Chain} → Reach times digest s t → Step times digest t u → Reach times digest s u

-- A bridge and a page whose socket has just been opened.
abbrev pub opened_chain : Tail → App → Chain
opened_chain t a = record { tail = t; wire = t.sent; received = []; app = a }

abbrev pub line_of : Times → Frame → ℕ → List DisplayLog
line_of times LiveTail.connecting now = []
line_of times LiveTail.connected now = []
line_of times (LiveTail.log e received_at) now = live_line times (raw_of e) now ∷ []
line_of times (LiveTail.error m) now = []

abbrev pub lines_received : Times → List (Frame × ℕ) → List DisplayLog
lines_received times [] = []
lines_received times ((f, now) ∷ fs) = line_of times f now ++ lines_received times fs
