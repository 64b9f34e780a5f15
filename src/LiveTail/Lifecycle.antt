-- ===== src/LiveTail/Lifecycle.antt =====
-- The life of the bridge of server/src/services/liveTail.js: the event loop chooses what happens
-- next. `ws.on('close')` and `ws.on('error')` of server/src/server.js call `stop`.
use hackathon.Common.{◌∙◌, ℕ, ◌≤◌, Bool, true, false, [], ◌≡◌, ◌≢◌, arith, Str, some, none, ◌⊎◌}
use hackathon.Engine.{QueryResponse, Reply, answered}
use hackathon.LiveTail.{Tail, running, stop, poll, callback, create_live_tail, get}
use hackathon.LiveTail.Emission.{occurrences}
use hackathon.LiveTail.Delivery.{delivered, delivered-callback, IsCovered, callback-IsCovered}

pub data Step (digest : Str → Str) (t u : Tail) : Type 0 where
  fire : (now : ℕ) → t.timer ≢ none → u ≡ poll now (record t { timer = none }) → Step digest t u
  answer :
      (now : ℕ) (reply : Reply)
      → t.active_call ≢ none
      → u ≡ callback digest now reply t
      → Step digest t u
  close : u ≡ stop t → Step digest t u
  disconnect : u ≡ record t { is_open = false } → Step digest t u

pub data Reach (digest : Str → Str) (s : Tail) : Tail → Type 0 where
  here : Reach digest s s
  next : {t u : Tail} → Reach digest s t → Step digest t u → Reach digest s u

-- What is pending while a bridge runs, exactly one of a timer and a call, and once it is stopped.
abbrev pub Pending : Bool → Tail → Type 0
Pending false t =
    ((t.timer ≡ none) × (t.active_call ≡ some running))
    ⊎ ((t.timer ≡ some t.poll_ms) × (t.active_call ≡ none))
Pending true t = (t.timer ≡ none) × (t.active_call ≢ some running)

abbrev pub IsOrderly : Tail → Type 0
IsOrderly t = Pending t.stopped t

module _ (digest : Str → Str) where
  Step-IsOrderly : {t u : Tail} → Step digest t u → IsOrderly t → IsOrderly u
  unfolding poll callback stop
  Step-IsOrderly (fire now h e) o = ground arith
  Step-IsOrderly (answer now reply h e) o = ground arith
  Step-IsOrderly (close e) o = ground arith
  Step-IsOrderly (disconnect e) o = ground arith

  -- A socket does not open again.
  pub Step-is_open : {t u : Tail} → Step digest t u → t.is_open ≡ false → u.is_open ≡ false
  unfolding poll callback stop
  Step-is_open (fire now h e) shut = ground arith
  Step-is_open (answer now reply h e) shut = ground arith
  Step-is_open (close e) shut = ground arith
  Step-is_open (disconnect e) shut = ground arith

  create-IsOrderly :
      (now : ℕ) (is_open : Bool) (term : Str) (poll_ms : ℕ)
      → IsOrderly (create_live_tail now is_open term poll_ms)
  unfolding create_live_tail
  create-IsOrderly now is_open term poll_ms = ground arith

  Reach-IsOrderly : {s t : Tail} → Reach digest s t → IsOrderly s → IsOrderly t
  Reach-IsOrderly here o = o
  Reach-IsOrderly (next r st) o = Step-IsOrderly st (Reach-IsOrderly r o)

  -- Whatever the event loop does, a bridge never has a timer and a call at once, is never left
  -- without one of the two while it runs, and has neither (but for a cancelled call) once stopped.
  pub tail-IsOrderly :
      (now : ℕ) (is_open : Bool) (term : Str) (poll_ms : ℕ) {t : Tail}
      → Reach digest (create_live_tail now is_open term poll_ms) t
      → IsOrderly t
  tail-IsOrderly now is_open term poll_ms r =
      Reach-IsOrderly r (create-IsOrderly now is_open term poll_ms)

  Step-stopped :
      {t u : Tail}
      → Step digest t u
      → t.stopped ≡ true
      → (u.stopped ≡ true) × (u.sent ≡ t.sent) × (u.requests ≡ t.requests) × (u.seen ≡ t.seen)
  unfolding poll callback stop
  Step-stopped (fire now h e) o = ground arith
  Step-stopped (answer now reply h e) o = ground arith
  Step-stopped (close e) o = ground arith
  Step-stopped (disconnect e) o = ground arith

  -- After `stop` nothing more is sent or asked, and the record of what was seen stays, whatever
  -- events still come: a late callback, a timer or a second `stop`.
  pub stop_silent :
      (t : Tail) {u : Tail}
      → Reach digest (stop t) u
      → (u.stopped ≡ true) × (u.sent ≡ t.sent) × (u.requests ≡ t.requests) × (u.seen ≡ t.seen)
  unfolding stop
  stop_silent t here = ground arith
  stop_silent t (next r st) =
      let (before, sent, requests, seen) = stop_silent t r in
      let (now, sent', requests', seen') = Step-stopped st before in
      (now, sent' ∙ sent, requests' ∙ requests, seen' ∙ seen)

  Step-IsCovered : {t u : Tail} → Step digest t u → IsCovered digest t → IsCovered digest u
  unfolding poll stop
  Step-IsCovered (fire now h e) c k = ground (arith, c k)
  Step-IsCovered {t} (answer now reply h e) c k = rw e (callback-IsCovered digest now reply t c k)
  Step-IsCovered (close e) c k = ground (arith, c k)
  Step-IsCovered (disconnect e) c k = ground (arith, c k)

  create-IsCovered :
      (now : ℕ) (is_open : Bool) (term : Str) (poll_ms : ℕ)
      → IsCovered digest (create_live_tail now is_open term poll_ms)
  unfolding create_live_tail get
  create-IsCovered now is_open term poll_ms k = ground arith

  Reach-IsCovered : {s t : Tail} → Reach digest s t → IsCovered digest s → IsCovered digest t
  Reach-IsCovered here c = c
  Reach-IsCovered (next r st) c = Step-IsCovered st (Reach-IsCovered r c)

  -- At any time in the life of a bridge that is not stopped, a response without an error leaves
  -- each record sent, since the start, at least as often as it occurs in that response.
  pub every_record_delivered :
      (now start : ℕ) (is_open : Bool) (term : Str) (poll_ms : ℕ) (r : QueryResponse) {t : Tail}
      → Reach digest (create_live_tail start is_open term poll_ms) t
      → t.stopped ≡ false
      → r.error ≡ []
      → (k : Str)
      → occurrences digest k r.logs ≤ delivered digest k (callback digest now (answered r) t)
  every_record_delivered now start is_open term poll_ms r {t} reach live fine k =
      let covered = Reach-IsCovered reach (create-IsCovered start is_open term poll_ms) in
      omega (arith, delivered-callback digest now r t k live fine, covered k)
