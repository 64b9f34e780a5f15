-- ===== src/Engine/Pipeline/Staff.antt =====
-- The workers of engine/internal/pipeline/worker_pool.go, and what is pending once the loop of
-- engine/cmd/server/main.go has returned.
use hackathon.Common.{
  ℕ, ◌+◌, ◌≤◌, ◌⊎◌, inl, inr, Bool, true, false, [], ◌∷◌, ◌≡◌, refl, ap, ◌∙◌, arith, length,
  length-append,
}
use hackathon.Engine.Db.{LevelDb}
use hackathon.Engine.Tokens.{Runes}
use hackathon.Engine.Loop.{Engine}
use hackathon.Engine.Pipeline.{
  Pipeline, Phase, serving, returned, closing, ended, crashed, accepts, new_pipeline, Step, submits,
  panics, parses, receives, sends, ticks, signals, closes, finishes, ends, Steps, here, next,
}

abbrev pub is_serving : Phase → Bool
is_serving serving = true
is_serving returned = false
is_serving closing = false
is_serving ended = false
is_serving crashed = false

module _ {Db : Type 0} where
  -- The packets and items that the loop has not received.
  abbrev pub pending : Pipeline Db → ℕ
  pending s = length s.raw_queue + length s.holding + length s.out_queue

  -- How many the workers are, that the channel of the items has room, that workers finish when the
  -- other channel is closed and empty, and that all have when `Close` is over.
  pub record IsStaffed (queue_size workers : ℕ) (s : Pipeline Db) : Type 0 where
    pub staff : s.idle + length s.holding + s.finished ≡ workers
    pub room : length s.out_queue ≤ queue_size
    pub done : (s.finished ≡ 0) ⊎ ((s.raw_queue ≡ []) × (accepts s.phase ≡ false))
    pub over : s.phase ≡ ended → (s.idle ≡ 0) × (s.holding ≡ [])

module _ (level_db : LevelDb) (runes : Runes) (queue_size workers : ℕ) where
  open level_db use {Db}

  abbrev Step' : Pipeline Db → Pipeline Db → Type 0
  Step' s t = Step level_db runes queue_size s t

  pub Step-IsStaffed :
      {s t : Pipeline Db}
      → Step' s t
      → IsStaffed queue_size workers s
      → IsStaffed queue_size workers t
  Step-IsStaffed {s} (submits pkt open_ free) k = record {
    staff = k.staff;
    room = k.room;
    done = ground (arith, k.done);
    over = k.over;
  }
  Step-IsStaffed {s} (panics shut) k = record {
    staff = k.staff;
    room = k.room;
    done = ground (arith, k.done);
    over = λ e. cc;
  }
  Step-IsStaffed {s} (parses now pkt rest n working early first waits) k = record {
    staff = omega (arith, k.staff, waits);
    room = k.room;
    done = ground (arith, k.done, first);
    over = λ e. ground (arith, working, e);
  }
  Step-IsStaffed {s} (sends before job after working held free) k = record {
    staff = omega (
      arith,
      k.staff,
      ap length held,
      length-append before (job ∷ after),
      length-append before after,
    );
    room = omega (arith, free, length-append s.out_queue (job ∷ []));
    done = k.done;
    over = λ e. ground (arith, working, e);
  }
  Step-IsStaffed {s} (receives b job rest serves first) k = record {
    staff = k.staff;
    room = omega (arith, k.room, ap length first);
    done = k.done;
    over = k.over;
  }
  Step-IsStaffed (ticks b serves) k = record {
    staff = k.staff;
    room = k.room;
    done = k.done;
    over = k.over;
  }
  Step-IsStaffed (signals b serves) k = record {
    staff = k.staff;
    room = k.room;
    done = ground (arith, k.done, serves);
    over = λ e. cc;
  }
  Step-IsStaffed (closes back) k = record {
    staff = k.staff;
    room = k.room;
    done = ground (arith, k.done, back);
    over = λ e. cc;
  }
  Step-IsStaffed (finishes n shut empty waits) k = record {
    staff = omega (arith, k.staff, waits);
    room = k.room;
    done = inr (empty, ap accepts shut);
    over = λ e. cc;
  }
  Step-IsStaffed (ends shut nobody nothing) k = record {
    staff = k.staff;
    room = k.room;
    done = ground (arith, k.done, shut);
    over = λ e. (nobody, nothing);
  }

  pub start-IsStaffed : (e : Engine Db) → IsStaffed queue_size workers (new_pipeline workers e)
  start-IsStaffed e = record {
    staff = omega arith;
    room = omega arith;
    done = inl refl;
    over = λ e. cc;
  }

  pub Steps-IsStaffed :
      {s t : Pipeline Db}
      → Steps level_db runes queue_size s t
      → IsStaffed queue_size workers s
      → IsStaffed queue_size workers t
  Steps-IsStaffed here k = k
  Steps-IsStaffed (next more step) k = Step-IsStaffed step (Steps-IsStaffed more k)

  Step-kept :
      {s t : Pipeline Db}
      → Step' s t
      → is_serving s.phase ≡ false
      → (is_serving t.phase ≡ false)
        × (t.taken ≡ s.taken)
        × (t.engine ≡ s.engine)
        × (pending s ≤ pending t)
  Step-kept {s} (submits pkt open_ free) behind =
      (behind, refl, refl, omega (arith, length-append s.raw_queue (pkt ∷ [])))
  Step-kept (panics shut) behind = (refl, refl, refl, omega arith)
  Step-kept {s} (parses now pkt rest n working early first waits) behind =
      (behind, refl, refl, omega (arith, ap length first))
  Step-kept {s} (sends before job after working held free) behind = (
    behind,
    refl,
    refl,
    omega (
      arith,
      ap length held,
      length-append before (job ∷ after),
      length-append before after,
      length-append s.out_queue (job ∷ []),
    ),
  )
  Step-kept (receives b job rest serves first) behind = ground (arith, serves, behind)
  Step-kept (ticks b serves) behind = ground (arith, serves, behind)
  Step-kept (signals b serves) behind = ground (arith, serves, behind)
  Step-kept (closes back) behind = (refl, refl, refl, omega arith)
  Step-kept (finishes n shut empty waits) behind = (behind, refl, refl, omega arith)
  Step-kept (ends shut nobody nothing) behind = (refl, refl, refl, omega arith)

  -- Once `main` is behind its loop, whatever the goroutines do, no item is received, the engine
  -- stays as it is, and what is pending does not become less.
  pub Steps-kept :
      {s t : Pipeline Db}
      → Steps level_db runes queue_size s t
      → is_serving s.phase ≡ false
      → (is_serving t.phase ≡ false)
        × (t.taken ≡ s.taken)
        × (t.engine ≡ s.engine)
        × (pending s ≤ pending t)
  Steps-kept here behind = (behind, refl, refl, omega arith)
  Steps-kept (next more step) behind =
      let (behind1, taken1, same1, less1) = Steps-kept more behind in
      let (behind2, taken2, same2, less2) = Step-kept step behind1 in
      (behind2, taken2 ∙ taken1, same2 ∙ same1, omega (arith, less1, less2))
