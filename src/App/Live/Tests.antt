-- ===== src/App/Live/Tests.antt =====
-- The live tail of web/src/App.jsx at concrete inputs, together with its bridge.
use hackathon.Common.{
  join, reverse, map, true, List, [], ◌∷◌, ◌++◌, ◌-◌, ◌≡◌, refl, arith, Str, codes, InOrder, ◌+◌,
  ◌⊎◌, false,
}
use hackathon.Engine.{LogEntry, QueryResponse, answered}
use hackathon.LiveTail.{stop, scan, merge, set, Tail, Frame, get, callback, create_live_tail, poll}
use hackathon.LiveTail.Emission.{occurrences}
use hackathon.Query.Tests.{plain_times, shown}
use hackathon.App.{App, connected, told}
use hackathon.App.Tests.{page}
use hackathon.App.Url as Url
use hackathon.LiveTail as LiveTail
use hackathon.LiveTail.Lifecycle as Lifecycle
use hackathon.Query.Normalize.{DisplayLog}
use hackathon.App.Live.Chain.{Chain, here, next, bridged, delivered, flushed, lines_received}
use hackathon.App.Live.Kept.{live_lines_kept}
use hackathon.App.Live.{flush, on_message}
use hackathon.App.Live as Live
use hackathon.App.Live.Wire.{packet_of, receive_frames, lines_from, poll_shown}

abbrev begun : Tail
begun = create_live_tail 1700000000000 true (codes "disk") 400

abbrev response : QueryResponse
response = record {
  logs = record { timestamp_nano = codes "0"; message = codes "disk full" } ∷ [];
  total_found = codes "1";
  error = [];
}

abbrev plain : Str → Str
plain s = s

abbrev open_page : App
open_page = page (shown "a" ∷ []) (shown "b" ∷ []) []

poll_shown_example :
    (frames : List Frame) × (fresh : List LogEntry) × ((callback plain 1700000000001
        (answered response)
        begun).sent
      ≡ begun.sent ++ frames)
    × InOrder fresh response.logs
    × ((k : Str) → occurrences plain k fresh ≡ occurrences plain k response.logs - get begun.seen k)
    × ((flush (receive_frames plain_times (λ i. 5 + i) 0 frames open_page)).logs
        ≡ (open_page.buffer_ref ++ lines_from plain_times (λ i. 5 + i) 0 fresh) ++ open_page.logs)
    × ((flush (receive_frames plain_times (λ i. 5 + i) 0 frames open_page)).socket_state
        ≡ told (codes "connected"))
unfolding create_live_tail poll
poll_shown_example =
    poll_shown plain_times plain 1700000000001 (λ i. 5 + i) response begun open_page {s = []} refl
      refl refl (omega arith)

abbrev fresh_page : App
fresh_page = page (shown "a" ∷ []) [] []

abbrev quiet : Tail
quiet = create_live_tail 1700000000000 true [] 400

abbrev replied : Tail
replied = callback plain 1700000000001 (answered response) quiet

abbrev sent_log : Frame
sent_log =
    LiveTail.log (record { timestamp_nano = codes "0"; message = codes "disk full" }) 1700000000001

abbrev greeted : App
greeted = on_message plain_times (packet_of LiveTail.connecting) 5 fresh_page

abbrev logged : App
logged = on_message plain_times (packet_of sent_log) 6 greeted

-- A record has come and is on the page, and the status frame behind it is on its way.
abbrev one_shown : Chain
one_shown = record {
  tail = replied;
  wire = LiveTail.connected ∷ [];
  received = (LiveTail.connecting, 5) ∷ (sent_log, 6) ∷ [];
  app = flush logged;
}

live_lines_kept_example :
    (batches : List (List DisplayLog)) × (dropped : List Frame) × (one_shown.tail.sent
      ≡ (map (λ d. d.0) one_shown.received ++ one_shown.wire) ++ dropped)
    × ((one_shown.tail.is_open ≡ false) ⊎ (dropped ≡ []))
    × (lines_received plain_times one_shown.received
        ≡ join (reverse batches) ++ one_shown.app.buffer_ref)
    × (one_shown.app.logs ≡ join batches ++ fresh_page.logs)
unfolding create_live_tail callback poll stop scan merge get set
live_lines_kept_example =
    live_lines_kept plain_times plain fresh_page [] 1700000000000 400 {s = one_shown} refl refl
      (next
        (next
          (next
            (next here (
              bridged replied (sent_log ∷ LiveTail.connected ∷ [])
                (Lifecycle.answer 1700000000001 (answered response) (λ e. cc) refl) refl refl))
            (delivered LiveTail.connecting (sent_log ∷ LiveTail.connected ∷ []) 5 refl refl))
          (delivered sent_log (LiveTail.connected ∷ []) 6 refl refl))
        (flushed refl))
      (omega arith)
