-- ===== src/Engine/Pipeline/Conserved.antt =====
-- Where the packets of engine/internal/pipeline/worker_pool.go are, and what the loop of
-- engine/cmd/server/main.go has received of them.
use hackathon.Common.{
  ℕ, suc, ◌+◌, ◌<◌, ◌^◌, Bool, List, [], ◌∷◌, ◌++◌, append_assoc, append-nil, ◌≡◌, refl, sym, ap,
  subst, ◌∙◌, arith, map, map-append, All, All-append, str_eq, if◌then◌else◌,
}
use hackathon.Engine.Keys.{Bytes}
use hackathon.Engine.Db.{LevelDb}
use hackathon.Engine.Tokens.{Runes}
use hackathon.Engine.Items.{worker_loop}
use hackathon.Engine.Loop.{Engine, flush}
use hackathon.Engine.Loop.History.{History, Reach, takes}
use hackathon.Engine.Loop.Runs.{flush-Reach, flush_if_full-Reach}
use hackathon.Engine.Loop.Ingested.{log_of-IsLog}
use hackathon.Engine.Pipeline.{
  Pipeline, Job, log_of_job, new_pipeline, Step, submits, panics, parses, receives, sends, ticks,
  signals, closes, finishes, ends, Steps, here, next,
}

-- How often a packet stands in a list.
pub count : Bytes → List Bytes → ℕ
count p [] = 0
count p (q ∷ qs) = if str_eq q p then suc (count p qs) else count p qs

abbrev pub packets : List Job → List Bytes
packets js = map (λ j. j.packet) js

pub count-append : (p : Bytes) (xs ys : List Bytes) → count p (xs ++ ys) ≡ count p xs + count p ys
unfolding count
count-append p [] ys = omega arith
count-append p (x ∷ xs) ys = ground (arith, count-append p xs ys)

count-packets :
    (p : Bytes) (xs ys : List Job)
    → count p (packets (xs ++ ys)) ≡ count p (packets xs) + count p (packets ys)
unfolding count
count-packets p [] ys = omega arith
count-packets p (x ∷ xs) ys = ground (arith, count-packets p xs ys)

-- A job of a time before the year 2262.
abbrev IsEarly : Job → Type 0
IsEarly j = j.now < 2 ^ 63

All-without :
    {A : Type 0} (P : A → Type 0) (xs : List A) (y : A) (ys : List A)
    → All P (xs ++ y ∷ ys)
    → All P (xs ++ ys) × P y
All-without P [] y ys h = (h.1, h.0)
All-without P (x ∷ xs) y ys h = let (rest, one) = All-without P xs y ys h.1 in ((h.0, rest), one)

module _ {Db : Type 0} where
  AreEarly : Pipeline Db → Type 0
  AreEarly s = All IsEarly s.holding × All IsEarly s.out_queue

  -- A packet stands as often among those that were submitted as in the two queues, with the workers
  -- and among the items that the loop received, taken together.
  abbrev pub IsConserved : Pipeline Db → Type 0
  IsConserved s =
      (p : Bytes)
      → count p s.submitted
        ≡ count p s.raw_queue
          + count p (packets s.holding)
          + count p (packets s.out_queue)
          + count p (packets s.taken)

module _ (level_db : LevelDb) (runes : Runes) (queue_size : ℕ) where
  open level_db use {Db}

  Step-IsConserved :
      {s t : Pipeline Db} → Step level_db runes queue_size s t → IsConserved s → IsConserved t
  unfolding count
  Step-IsConserved {s} (submits pkt open_ room) c p =
      omega
        (arith, c p, count-append p s.submitted (pkt ∷ []), count-append p s.raw_queue (pkt ∷ []))
  Step-IsConserved (panics shut) c p = c p
  Step-IsConserved {s} (parses now pkt rest n working small first waits) c p =
      ground (arith, c p, ap (count p) first)
  Step-IsConserved {s} (sends before job after working held room) c p = omega (
    arith,
    c p,
    ap (λ js. count p (packets js)) held,
    count-packets p before (job ∷ after),
    count-packets p (job ∷ []) after,
    count-packets p before after,
    count-packets p s.out_queue (job ∷ []),
  )
  Step-IsConserved {s} (receives b job rest serves first) c p = omega (
    arith,
    c p,
    ap (λ js. count p (packets js)) first,
    count-packets p (job ∷ []) rest,
    count-packets p s.taken (job ∷ []),
  )
  Step-IsConserved (ticks b serves) c p = c p
  Step-IsConserved (signals b serves) c p = c p
  Step-IsConserved (closes back) c p = c p
  Step-IsConserved (finishes n closing_ empty waits) c p = c p
  Step-IsConserved (ends closing_ none_idle none_held) c p = c p

  -- The loop has come to a state of the engine in which the logs of the items that it received were
  -- taken, behind those of `h`.
  abbrev pub HasTaken : History → Pipeline Db → Type 0
  HasTaken h s =
      (h' : History) × (Reach level_db runes h' s.engine)
      × (h'.taken ≡ h.taken ++ map log_of_job s.taken)

  HasTaken-flush :
      (b : Bool) (h : History) (s : Pipeline Db)
      → HasTaken h s
      → HasTaken h (record s { engine = flush level_db b s.engine })
  HasTaken-flush b h s (h1, r, taken) =
      let (h2, same, r2) = flush-Reach level_db runes b h1 s.engine r in (h2, r2, same ∙ taken)

  Step-HasTaken :
      {s t : Pipeline Db} (h : History)
      → Step level_db runes queue_size s t
      → All IsEarly s.out_queue
      → HasTaken h s
      → HasTaken h t
  unfolding worker_loop
  Step-HasTaken h (submits pkt open_ room) small k = k
  Step-HasTaken h (panics shut) small k = k
  Step-HasTaken h (parses now pkt rest n working early first waits) small k = k
  Step-HasTaken h (sends before job after working held room) small k = k
  Step-HasTaken {s} h (receives b job rest serves first) small (h1, r, taken) =
      let early = (subst (All IsEarly) first small).0 in
      let l = log_of_job job in
      let (h2, same, r2) =
        flush_if_full-Reach level_db runes b _ _
          (takes r l (log_of-IsLog job.now job.packet early)) in
      (
        h2,
        r2,
        same
            ∙ ap (λ ls. ls ++ l ∷ []) taken
            ∙ append_assoc h.taken (map log_of_job s.taken) (l ∷ [])
            ∙ ap (λ ls. h.taken ++ ls) (sym (map-append log_of_job s.taken (job ∷ []))),
      )
  Step-HasTaken {s} h (ticks b serves) small k = HasTaken-flush b h s k
  Step-HasTaken {s} h (signals b serves) small k = HasTaken-flush b h s k
  Step-HasTaken h (closes back) small k = k
  Step-HasTaken h (finishes n closing_ empty waits) small k = k
  Step-HasTaken h (ends closing_ none_idle none_held) small k = k

  Step-AreEarly : {s t : Pipeline Db} → Step level_db runes queue_size s t → AreEarly s → AreEarly t
  unfolding AreEarly
  Step-AreEarly (submits pkt open_ room) m = m
  Step-AreEarly (panics shut) m = m
  Step-AreEarly (parses now pkt rest n working early first waits) m = ((early, m.0), m.1)
  Step-AreEarly {s} (sends before job after working held room) m =
      let (kept, sent) = All-without IsEarly before job after (subst (All IsEarly) held m.0) in
      (kept, All-append IsEarly s.out_queue (job ∷ []) m.1 (sent, tt))
  Step-AreEarly (receives b job rest serves first) m = (m.0, (subst (All IsEarly) first m.1).1)
  Step-AreEarly (ticks b serves) m = m
  Step-AreEarly (signals b serves) m = m
  Step-AreEarly (closes back) m = m
  Step-AreEarly (finishes n closing_ empty waits) m = m
  Step-AreEarly (ends closing_ none_idle none_held) m = m

  Steps-IsConserved :
      (h : History) (workers : ℕ) (e : Engine Db) {s : Pipeline Db}
      → Reach level_db runes h e
      → Steps level_db runes queue_size (new_pipeline workers e) s
      → AreEarly s × IsConserved s × HasTaken h s
  unfolding AreEarly count
  Steps-IsConserved h workers e r here = ((tt, tt), λ p. refl, (h, r, sym (append-nil h.taken)))
  Steps-IsConserved h workers e r (next more step) =
      let (early, conserved, k) = Steps-IsConserved h workers e r more in
      (Step-AreEarly step early, Step-IsConserved step conserved, Step-HasTaken h step early.1 k)

  -- Whatever the goroutines do from the start on: a packet stands as often among those that were
  -- submitted as in the two queues, with the workers and among the items that the loop received,
  -- taken together, so that none is lost or doubled on the way; and the loop has come to a state of
  -- the engine in which it has taken the logs of the items received, in their order, behind the
  -- logs of before.
  pub pipeline_conserves :
      {h : History} {e : Engine Db}
      → Reach level_db runes h e
      → (workers : ℕ) {s : Pipeline Db} → Steps level_db runes queue_size (new_pipeline workers e) s
      → IsConserved s × HasTaken h s
  pipeline_conserves {h} {e} r workers steps =
      let (early, conserved, k) = Steps-IsConserved h workers e r steps in (conserved, k)
