-- ===== src/LiveTail/Delivery.antt =====
-- The log frames of one poll of server/src/services/liveTail.js, and of a run of polls.
use hackathon.Common.{
  ◌⊎◌, inl, inr, Bool-cases, ◌≢◌, ℕ, ◌+◌, ◌-◌, ◌≤◌, true, false, List, [], ◌∷◌, ◌++◌, ◌≡◌, refl,
  arith, Str, ltb, if◌then◌else◌, InOrder, append-nil, ◌∙◌, some, none,
}
use hackathon.Engine.{LogEntry, QueryResponse, Reply, failed, answered}
use hackathon.LiveTail.{
  Frame, connecting, connected, log, error, get, scan, log_frames, Tail, deliver, callback, poll,
}
use hackathon.LiveTail.Emission.{occurrences, occurrences-scan, scan-InOrder, get-merge-scan}

-- The records among the frames.
abbrev pub logs_of : List Frame → List LogEntry
logs_of [] = []
logs_of (log e at ∷ fs) = e ∷ logs_of fs
logs_of (connecting ∷ fs) = logs_of fs
logs_of (connected ∷ fs) = logs_of fs
logs_of (error m ∷ fs) = logs_of fs

logs_of-log_frames :
    (now : ℕ) (es : List LogEntry) (fs : List Frame)
    → logs_of (log_frames now es ++ fs) ≡ es ++ logs_of fs
logs_of-log_frames now [] fs = refl
logs_of-log_frames now (e ∷ es) fs = rw (logs_of-log_frames now es fs)

logs_of-append : (fs gs : List Frame) → logs_of (fs ++ gs) ≡ logs_of fs ++ logs_of gs
logs_of-append [] gs = refl
logs_of-append (log e at ∷ fs) gs = rw (logs_of-append fs gs)
logs_of-append (connecting ∷ fs) gs = logs_of-append fs gs
logs_of-append (connected ∷ fs) gs = logs_of-append fs gs
logs_of-append (error m ∷ fs) gs = logs_of-append fs gs

module _ (digest : Str → Str) where
  occurrences-append :
      (k : Str) (xs ys : List LogEntry)
      → occurrences digest k (xs ++ ys) ≡ occurrences digest k xs + occurrences digest k ys
  unfolding occurrences
  occurrences-append k [] ys = omega arith
  occurrences-append k (x ∷ xs) ys = omega (arith, occurrences-append k xs ys)

  -- How often a record with the key `k` has been sent.
  abbrev pub delivered : Str → Tail → ℕ
  delivered k t = occurrences digest k (logs_of t.sent)

  delivered-deliver :
      (now : ℕ) (logs : List LogEntry) (t : Tail) (k : Str)
      → delivered k (deliver digest now logs t)
        ≡ delivered k t + (occurrences digest k logs - get t.seen k)
  unfolding deliver
  delivered-deliver now logs t k =
      let fresh = (scan digest t.seen [] logs).0 in
      rw (
        logs_of-append t.sent (log_frames now fresh ++ connected ∷ []),
        logs_of-log_frames now fresh (connected ∷ []),
        append-nil fresh,
        occurrences-append k (logs_of t.sent) fresh,
        occurrences-scan digest t.seen logs k,
      )

  -- A response without an error, taken by a bridge that is not stopped, sends each record as often
  -- as it occurs in the response beyond the count in `seen`, in the order of the response and
  -- followed by one status frame. `seen` then holds the counts of the response, and the old
  -- counts for keys that the response lacks.
  pub callback_delivery :
      (now : ℕ) (r : QueryResponse) (t : Tail)
      → t.stopped ≡ false
      → r.error ≡ []
      → (fresh : List LogEntry) × ((callback digest now (answered r) t).sent
          ≡ t.sent ++ (log_frames now fresh ++ connected ∷ []))
        × InOrder fresh r.logs
        × ((k : Str) → occurrences digest k fresh ≡ occurrences digest k r.logs - get t.seen k)
        × ((k : Str)
            → get (callback digest now (answered r) t).seen k ≡ (
                if ltb 0 (occurrences digest k r.logs)
                then occurrences digest k r.logs
                else get t.seen k))
  unfolding callback
  callback_delivery now r t live fine = (
    (scan digest t.seen [] r.logs).0,
    rw (live, fine),
    scan-InOrder digest t.seen [] r.logs,
    occurrences-scan digest t.seen r.logs,
    λ k. rw (live, fine) (get-merge-scan digest t.seen r.logs k),
  )

  -- `callback` on a response without an error is `deliver` and a new timer.
  pub delivered-callback :
      (now : ℕ) (r : QueryResponse) (t : Tail) (k : Str)
      → t.stopped ≡ false
      → r.error ≡ []
      → delivered k (callback digest now (answered r) t)
        ≡ delivered k t + (occurrences digest k r.logs - get t.seen k)
  unfolding callback
  delivered-callback now r t k live fine =
      rw (live, fine) (delivered-deliver now r.logs (record t { active_call = none }) k)

  -- An error reply sends one error frame, keeps `seen` and arms the timer again.
  pub callback_error :
      (now : ℕ) (reply : Reply) (m : Str) (t : Tail)
      → t.stopped ≡ false
      → (reply ≡ failed m) ⊎ ((r : QueryResponse) × (reply ≡ answered r) × (r.error ≡ m) × (m ≢ []))
      → callback digest now reply t
        ≡ record t { sent = t.sent ++ error m ∷ []; active_call = none; timer = some t.poll_ms }
  unfolding callback
  callback_error now reply m t live why = ground arith

  callback_live :
      (now : ℕ) (reply : Reply) (t : Tail)
      → ((callback digest now reply t).stopped ≡ t.stopped)
        × ((callback digest now reply t).is_open ≡ t.is_open)
  unfolding callback
  callback_live now reply t = ground arith

  poll_live :
      (now : ℕ) (t : Tail)
      → t.stopped ≡ false
      → t.is_open ≡ true
      → ((poll now t).stopped ≡ false) × ((poll now t).seen ≡ t.seen) × ((poll now t).sent ≡ t.sent)
  unfolding poll
  poll_live now t live open_ = ground arith

  -- A record whose key left the window is lost when it comes back: after a response without the
  -- key, a later response with at most as many records of that key as `seen` has sends none.
  pub returning_record_lost :
      (now now' start : ℕ) (r r' : QueryResponse) (t : Tail) (k : Str)
      → t.stopped ≡ false
      → t.is_open ≡ true
      → r.error ≡ []
      → r'.error ≡ []
      → occurrences digest k r.logs ≡ 0
      → occurrences digest k r'.logs ≤ get t.seen k
      → delivered k
          (callback digest now' (answered r') (poll start (callback digest now (answered r) t)))
        ≡ delivered k t
  returning_record_lost now now' start r r' t k live open_ fine fine' gone few =
      let u = callback digest now (answered r) t in
      let kept = (callback_delivery now r t live fine).4 k in
      let (same, same_open) = callback_live now (answered r) t in
      let (still, seen, sent) = poll_live start u (same ∙ live) (same_open ∙ open_) in
      let first = delivered-callback now r t k live fine in
      let second = delivered-callback now' r' (poll start u) k still fine' in
      ground (arith, kept, first, second, seen, sent, gone, few)

  covered_error :
      (m : Str) (t : Tail) (k : Str)
      → occurrences digest k (logs_of (t.sent ++ error m ∷ [])) ≡ delivered k t
  covered_error m t k = rw (logs_of-append t.sent (error m ∷ []), append-nil (logs_of t.sent))

  -- `seen` never counts more records of a key than were sent.
  abbrev pub IsCovered : Tail → Type 0
  IsCovered t = (k : Str) → get t.seen k ≤ delivered k t

  IsCovered-delivery :
      (now : ℕ) (r : QueryResponse) (t : Tail)
      → t.stopped ≡ false
      → r.error ≡ []
      → IsCovered t
      → IsCovered (callback digest now (answered r) t)
  IsCovered-delivery now r t live fine c k =
      let counts = (callback_delivery now r t live fine).4 k in
      let sent = delivered-callback now r t k live fine in ground (arith, counts, sent, c k)

  IsCovered-answer :
      (now : ℕ) (r : QueryResponse) (t : Tail) (m : Str)
      → t.stopped ≡ false
      → r.error ≡ m
      → IsCovered t
      → IsCovered (callback digest now (answered r) t)
  IsCovered-answer now r t [] live fine c k = IsCovered-delivery now r t live fine c k
  IsCovered-answer now r t (x ∷ m) live bad c k =
      let kept = callback_error now (answered r) (x ∷ m) t live (inr (r, refl, bad, λ e. cc)) in
      rw kept (omega (arith, covered_error (x ∷ m) t k, c k))

  IsCovered-live :
      (now : ℕ) (reply : Reply) (t : Tail)
      → t.stopped ≡ false
      → IsCovered t
      → IsCovered (callback digest now reply t)
  IsCovered-live now (answered r) t live c k = IsCovered-answer now r t r.error live refl c k
  IsCovered-live now (failed m) t live c k =
      rw (callback_error now (failed m) m t live (inl refl))
        (omega (arith, covered_error m t k, c k))

  IsCovered-stopped :
      (now : ℕ) (reply : Reply) (t : Tail)
      → t.stopped ≡ true
      → IsCovered t
      → IsCovered (callback digest now reply t)
  unfolding callback
  IsCovered-stopped now reply t over c k = ground (arith, c k)

  pub callback-IsCovered :
      (now : ℕ) (reply : Reply) (t : Tail) → IsCovered t → IsCovered (callback digest now reply t)
  callback-IsCovered now reply t c = elim (Bool-cases t.stopped) [
    | inl over ↦ IsCovered-stopped now reply t over c
    | inr live ↦ IsCovered-live now reply t live c
  ]
