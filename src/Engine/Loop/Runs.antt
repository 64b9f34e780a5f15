-- ===== src/Engine/Loop/Runs.antt =====
-- The runs of the loop of engine/cmd/server/main.go on the items of its workers.
use hackathon.Common.{
  ◌<◌, Bool, true, false, List, [], ◌∷◌, ◌++◌, append_assoc, append-nil, ◌≡◌, refl, sym, ap, ◌∙◌,
  inl, inr, map, All, arith, Bool-cases, leb, if◌then◌else◌,
}
use hackathon.Engine.Db.{LevelDb}
use hackathon.Engine.Tokens.{Runes}
use hackathon.Engine.Items.{Log, item_of}
use hackathon.Engine.Loop.{
  Engine, Event, output, tick, signal, take_item, flush, flush_if_full, run, max_batch_size,
}
use hackathon.Engine.Loop.History.{History, IsLog, Reach, takes, flushes, flush_fails}

-- What the loop is told: a log from a worker, a tick or a signal, with the outcome of a write.
pub data Arrival : Type 0 where
  arrives : Log → (is_written : Bool) → Arrival
  ticks : (is_written : Bool) → Arrival
  signals : (is_written : Bool) → Arrival

abbrev pub event_of : Runes → Arrival → Event
event_of runes (arrives l is_written) = output (item_of runes l) is_written
event_of runes (ticks is_written) = tick is_written
event_of runes (signals is_written) = signal is_written

-- The logs that come before a signal.
abbrev pub logs_of : List Arrival → List Log
logs_of [] = []
logs_of (arrives l _ ∷ more) = l ∷ logs_of more
logs_of (ticks _ ∷ more) = logs_of more
logs_of (signals _ ∷ more) = []

module _ (level_db : LevelDb) (runes : Runes) where
  open level_db use {Db}

  flush-small : (b : Bool) (e : Engine Db) → (flush level_db b e).batch_size < max_batch_size
  unfolding flush
  flush-small b e = ground arith

  flush_if_full-small :
      (b : Bool) (e : Engine Db) → (flush_if_full level_db b e).batch_size < max_batch_size
  flush_if_full-small b e = elim (Bool-cases (leb max_batch_size e.batch_size)) [
    | inl full ↦ rw full (flush-small b e)
    | inr room ↦ rw room (ground arith)
  ]

  -- A history in which the same logs were taken.
  abbrev pub Flushed : History → Engine Db → Type 0
  Flushed h e = (h' : History) × (h'.taken ≡ h.taken) × Reach level_db runes h' e

  pub flush-Reach :
      (b : Bool) (h : History) (e : Engine Db)
      → Reach level_db runes h e
      → Flushed h (flush level_db b e)
  flush-Reach true h e r =
      (record h { written = h.written ++ h.pending; pending = [] }, refl, flushes r)
  flush-Reach false h e r = (record h { pending = [] }, refl, flush_fails r)

  pub flush_if_full-Reach :
      (b : Bool) (h : History) (e : Engine Db)
      → Reach level_db runes h e
      → Flushed h (flush_if_full level_db b e)
  flush_if_full-Reach b h e r =
      elim (leb max_batch_size e.batch_size)
        as (λ full. Flushed h (if full then flush level_db b e else e)) [
          | true ↦ flush-Reach b h e r
          | false ↦ (h, refl, r)
        ]

  -- The loop, on logs, ticks and a signal, takes the logs that come before the signal, in their
  -- order, comes to a state of the engine whatever the outcome of each write is, and never ends an
  -- event with a batch of 2500 puts or more.
  pub run-Reach :
      (arrivals : List Arrival) {h : History} {e : Engine Db}
      → Reach level_db runes h e
      → All IsLog (logs_of arrivals)
      → e.batch_size < max_batch_size
      → (h' : History) × (Reach level_db runes h' (run level_db (map (event_of runes) arrivals) e))
        × (h'.taken ≡ h.taken ++ logs_of arrivals)
        × ((run level_db (map (event_of runes) arrivals) e).batch_size < max_batch_size)
  unfolding run
  run-Reach [] {h} {e} r logs small = (h, r, sym (append-nil h.taken), small)
  run-Reach (arrives l b ∷ more) {h} {e} r logs small =
      let (h1, same, r1) = flush_if_full-Reach b _ _ (takes r l logs.0) in
      let (h2, r2, taken, small2) =
        run-Reach more r1 logs.1 (flush_if_full-small b (take_item level_db (item_of runes l) e)) in
      (
        h2,
        r2,
        taken ∙ ap (λ ls. ls ++ logs_of more) same ∙ append_assoc h.taken (l ∷ []) (logs_of more),
        small2,
      )
  run-Reach (ticks b ∷ more) {h} {e} r logs small =
      let (h1, same, r1) = flush-Reach b h e r in
      let (h2, r2, taken, small2) = run-Reach more r1 logs (flush-small b e) in
      (h2, r2, taken ∙ ap (λ ls. ls ++ logs_of more) same, small2)
  run-Reach (signals b ∷ more) {h} {e} r logs small =
      let (h1, same, r1) = flush-Reach b h e r in
      (h1, r1, same ∙ sym (append-nil h.taken), flush-small b e)
