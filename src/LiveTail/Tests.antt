-- ===== src/LiveTail/Tests.antt =====
-- Runs of the bridge of server/src/services/liveTail.js.
use Prim.Native.String.{String}
use hackathon.Common.{
  ◌-◌, ◌≤◌, true, List, [], ◌∷◌, ◌++◌, ◌≡◌, refl, arith, Str, codes, ltb, if◌then◌else◌, InOrder,
  str_eq,
}
use hackathon.Engine.{LogEntry, QueryResponse, answered, stringify}
use hackathon.LiveTail.{
  tail_request, Tail, connecting, connected, log, create_live_tail, callback, poll, stop, scan,
  merge, get, set, log_frames,
}
use hackathon.LiveTail.Emission.{occurrences}
use hackathon.LiveTail.Delivery.{delivered, callback_delivery, returning_record_lost}
use hackathon.LiveTail.Progress.{tail_polls_again}
use hackathon.LiveTail.Lifecycle.{
  Reach, answer, here, next, IsOrderly, tail-IsOrderly, stop_silent, every_record_delivered,
}

abbrev plain : Str → Str
plain s = s

abbrev entry : String → LogEntry
entry m = record { timestamp_nano = codes "0"; message = codes m }

abbrev response : List LogEntry → QueryResponse
response es = record { logs = es; total_found = codes "0"; error = [] }

abbrev two : QueryResponse
two = response (entry "a" ∷ entry "a" ∷ [])

abbrev other : QueryResponse
other = response (entry "b" ∷ [])

abbrev started : Tail
started = create_live_tail 1700000000000 true (codes "error") 400

abbrev after_two : Tail
after_two = callback plain 1700000000001 (answered two) started

bridge : Unit {0}
unfolding create_live_tail callback poll stop scan merge get set str_eq stringify occurrences
bridge = tt

first_poll :
    after_two.sent
    ≡ connecting ∷ log (entry "a") 1700000000001 ∷ log (entry "a") 1700000000001 ∷ connected ∷ []
unfolding bridge
first_poll = refl

callback_delivery_example :
    (fresh : List LogEntry) × (after_two.sent
      ≡ started.sent ++ (log_frames 1700000000001 fresh ++ connected ∷ []))
    × InOrder fresh two.logs
    × ((k : Str) → occurrences plain k fresh ≡ occurrences plain k two.logs - get started.seen k)
    × ((k : Str)
        → get after_two.seen k ≡ (
            if ltb 0 (occurrences plain k two.logs)
            then occurrences plain k two.logs
            else get started.seen k))
unfolding create_live_tail
callback_delivery_example = callback_delivery plain 1700000000001 two started refl refl

abbrev key_a : Str
key_a = stringify (entry "a")

-- Two records were sent, they left the window, and two new ones with the same text come.
returning_record_lost_example :
    delivered plain key_a (
      callback plain 1700000302000
        (answered two)
        (poll 1700000301000 (callback plain 1700000300000 (answered other) after_two)))
    ≡ delivered plain key_a after_two
unfolding bridge
returning_record_lost_example =
    returning_record_lost plain 1700000300000 1700000302000 1700000301000 other two after_two key_a
      refl refl refl refl refl (omega arith)

tail-IsOrderly_example : IsOrderly after_two
unfolding bridge
tail-IsOrderly_example =
    tail-IsOrderly plain 1700000000000 true (codes "error") 400
      (next here (answer 1700000000001 (answered two) (λ e. cc) refl))

stop_silent_example :
    let u = callback plain 7 (answered two) (stop started) in
    (u.stopped ≡ true)
    × (u.sent ≡ started.sent)
    × (u.requests ≡ started.requests)
    × (u.seen ≡ started.seen)
unfolding bridge
stop_silent_example = stop_silent plain started (next here (answer 7 (answered two) (λ e. cc) refl))

every_record_delivered_example : 2 ≤ delivered plain key_a after_two
unfolding bridge
every_record_delivered_example =
    every_record_delivered plain 1700000000001 1700000000000 true (codes "error") 400 two here refl
      refl key_a

tail_polls_again_example :
    (u : Tail) × Reach plain started u
    × (u.requests ≡ started.requests ++ tail_request (codes "error") 1700000000900 ∷ [])
unfolding create_live_tail poll
tail_polls_again_example =
    tail_polls_again plain 1700000000000 true (codes "error") 400 1700000000001 1700000000900
      (answered two) {t = started} here refl refl
