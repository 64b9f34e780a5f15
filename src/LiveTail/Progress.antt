-- ===== src/LiveTail/Progress.antt =====
-- The bridge of server/src/services/liveTail.js goes on polling.
use hackathon.Common.{
  ℕ, Bool, true, false, none, some, [], ◌∷◌, ◌++◌, ◌≡◌, refl, arith, Str, inl, inr, ◌∙◌, ap, subst,
}
use hackathon.Engine.{Reply}
use hackathon.LiveTail.{Tail, poll, callback, create_live_tail, tail_request}
use hackathon.LiveTail.Lifecycle.{fire, answer, Reach, here, next, Pending, tail-IsOrderly}

fire_asks :
    (now : ℕ) (t : Tail)
    → t.stopped ≡ false
    → t.is_open ≡ true
    → (poll now (record t { timer = none })).requests ≡ t.requests ++ tail_request t.term now ∷ []
unfolding poll
fire_asks now t live open_ = ground arith

module _ (digest : Str → Str) where
  answer_waits :
      (now : ℕ) (reply : Reply) (t : Tail)
      → t.stopped ≡ false
      → let u = callback digest now reply t in
        (u.stopped ≡ false)
        × (u.is_open ≡ t.is_open)
        × (u.timer ≡ some t.poll_ms)
        × (u.requests ≡ t.requests)
        × (u.term ≡ t.term)
  unfolding callback
  answer_waits now reply t live = ground arith

  polls_from :
      (now now' : ℕ) (reply : Reply) (t : Tail)
      → t.stopped ≡ false
      → t.is_open ≡ true
      → Pending false t
      → (u : Tail) × Reach digest t u × (u.requests ≡ t.requests ++ tail_request t.term now' ∷ [])
  polls_from now now' reply t live open_ (inr (timer, idle)) = (
    poll now' (record t { timer = none }),
    next here (fire now' (ground arith) refl),
    fire_asks now' t live open_,
  )
  polls_from now now' reply t live open_ (inl (idle, call)) =
      let u = callback digest now reply t in
      let (still, same, timer, asked, term) = answer_waits now reply t live in
      (
        poll now' (record u { timer = none }),
        next (next here (answer now reply (ground arith) refl)) (fire now' (ground arith) refl),
        fire_asks now' u still (same ∙ open_)
            ∙ ap (λ r. r ++ tail_request u.term now' ∷ []) asked
            ∙ ap (λ x. t.requests ++ tail_request x now' ∷ []) term,
      )

  -- From any state that a bridge can come to, while it is not stopped and its socket is open, it
  -- comes to ask the engine once more for its term: when its timer fires or, whatever the reply is,
  -- its call is answered and then the timer fires.
  pub tail_polls_again :
      (start : ℕ) (is_open : Bool) (term : Str) (poll_ms now now' : ℕ) (reply : Reply) {t : Tail}
      → Reach digest (create_live_tail start is_open term poll_ms) t
      → t.stopped ≡ false
      → t.is_open ≡ true
      → (u : Tail) × Reach digest t u × (u.requests ≡ t.requests ++ tail_request t.term now' ∷ [])
  tail_polls_again start is_open term poll_ms now now' reply {t} r live open_ =
      polls_from now now' reply t live open_
        (subst (λ b. Pending b t) live (tail-IsOrderly digest start is_open term poll_ms r))
