-- ===== src/Engine/Pipeline.antt =====
-- The channels and goroutines of engine/internal/pipeline/worker_pool.go, with the loop and the
-- forwarders of engine/cmd/server/main.go that stand at their ends. Each step is one that a
-- goroutine takes; one that finds a channel full or empty waits, and has no step.
pub mod Conserved
pub mod Staff
pub mod Closing
pub mod Tests
use hackathon.Common.{ℕ, zero, suc, ◌<◌, ◌^◌, Bool, true, false, List, [], ◌∷◌, ◌++◌, ◌≡◌, length}
use hackathon.Engine.Keys.{Bytes}
use hackathon.Engine.Db.{LevelDb}
use hackathon.Engine.Tokens.{Runes}
use hackathon.Engine.Syslog.{parse_syslog}
use hackathon.Engine.Items.{Log, IndexItem, log_of, worker_loop}
use hackathon.Engine.Loop.{Engine, take_item, flush, flush_if_full}

-- An item, as the packet that it is made of and the time at which that is parsed.
pub record Job : Type 0 where
  pub packet : Bytes
  pub now : ℕ

abbrev pub log_of_job : Job → Log
log_of_job j = log_of (parse_syslog j.now j.packet)

abbrev pub item_of_job : Runes → Job → IndexItem
item_of_job runes j = worker_loop runes j.now j.packet

-- `main`: in its loop, behind it, in `pipe.Close` with `rawQueue` closed, and behind that; or the
-- process has panicked.
pub data Phase : Type 0 where
  serving returned closing ended crashed : Phase

abbrev pub accepts : Phase → Bool
accepts serving = true
accepts returned = true
accepts closing = false
accepts ended = false
accepts crashed = false

-- Whether the workers run.
abbrev pub works : Phase → Bool
works serving = true
works returned = true
works closing = true
works ended = false
works crashed = false

-- `Pipeline`, its workers and the loop. Workers wait for a packet, hold an item, or have finished.
-- `submitted` and `taken` record what came in and what the loop received.
pub record Pipeline (Db : Type 0) : Type 0 where
  pub raw_queue : List Bytes
  pub idle : ℕ
  pub holding : List Job
  pub finished : ℕ
  pub out_queue : List Job
  pub phase : Phase
  pub engine : Engine Db
  pub submitted : List Bytes
  pub taken : List Job

-- `NewPipeline` and `Start`.
abbrev pub new_pipeline : {Db : Type 0} → ℕ → Engine Db → Pipeline Db
new_pipeline workers e = record {
  raw_queue = [];
  idle = workers;
  holding = [];
  finished = 0;
  out_queue = [];
  phase = serving;
  engine = e;
  submitted = [];
  taken = [];
}

module _ {Db : Type 0} where
  -- `Submit`
  abbrev pub submit : Bytes → Pipeline Db → Pipeline Db
  submit pkt s = record s {
    raw_queue = s.raw_queue ++ pkt ∷ [];
    submitted = s.submitted ++ pkt ∷ [];
  }

  -- `workerLoop`: a worker takes the first packet and makes its item.
  abbrev pub take_packet : ℕ → Bytes → List Bytes → ℕ → Pipeline Db → Pipeline Db
  take_packet now pkt rest n s = record s {
    raw_queue = rest;
    idle = n;
    holding = record { packet = pkt; now = now } ∷ s.holding;
  }

  -- `workerLoop`: a worker sends its item, and waits again.
  abbrev pub send_item : List Job → Job → List Job → Pipeline Db → Pipeline Db
  send_item before job after s = record s {
    idle = suc s.idle;
    holding = before ++ after;
    out_queue = s.out_queue ++ job ∷ [];
  }

module _ (level_db : LevelDb) (runes : Runes) where
  open level_db use {Db}

  -- `case item := <-pipe.Output()`
  abbrev pub receive_item : Bool → Job → List Job → Pipeline Db → Pipeline Db
  receive_item is_written job rest s = record s {
    out_queue = rest;
    engine =
        flush_if_full level_db is_written (take_item level_db (item_of_job runes job) s.engine);
    taken = s.taken ++ job ∷ [];
  }

  -- A step, with channels for `queue_size` elements.
  pub data Step (queue_size : ℕ) (s : Pipeline Db) : Pipeline Db → Type 0 where
    submits :
        (pkt : Bytes)
        → accepts s.phase ≡ true
        → length s.raw_queue < queue_size
        → Step queue_size s (submit pkt s)
    -- A send on a closed channel panics: `Submit` behind `close(p.rawQueue)`.
    panics : accepts s.phase ≡ false → Step queue_size s (record s { phase = crashed })
    parses :
        (now : ℕ) (pkt : Bytes) (rest : List Bytes) (n : ℕ)
        → works s.phase ≡ true
        → now < 2 ^ 63
        → s.raw_queue ≡ pkt ∷ rest
        → s.idle ≡ suc n
        → Step queue_size s (take_packet now pkt rest n s)
    sends :
        (before : List Job) (job : Job) (after : List Job)
        → works s.phase ≡ true
        → s.holding ≡ before ++ job ∷ after
        → length s.out_queue < queue_size
        → Step queue_size s (send_item before job after s)
    receives :
        (is_written : Bool) (job : Job) (rest : List Job)
        → s.phase ≡ serving
        → s.out_queue ≡ job ∷ rest
        → Step queue_size s (receive_item is_written job rest s)
    ticks :
        (is_written : Bool)
        → s.phase ≡ serving
        → Step queue_size s (record s { engine = flush level_db is_written s.engine })
    signals :
        (is_written : Bool)
        → s.phase ≡ serving
        → Step queue_size s
            (record s { engine = flush level_db is_written s.engine; phase = returned })
    -- `close(p.rawQueue)`
    closes : s.phase ≡ returned → Step queue_size s (record s { phase = closing })
    -- The loop of a worker ends at a closed channel that is empty.
    finishes :
        (n : ℕ)
        → s.phase ≡ closing
        → s.raw_queue ≡ []
        → s.idle ≡ suc n
        → Step queue_size s (record s { idle = n; finished = suc s.finished })
    -- `p.wg.Wait()` is over.
    ends :
        s.phase ≡ closing
        → s.idle ≡ zero
        → s.holding ≡ []
        → Step queue_size s (record s { phase = ended })

  pub data Steps (queue_size : ℕ) (s : Pipeline Db) : Pipeline Db → Type 0 where
    here : Steps queue_size s s
    next : {t u : Pipeline Db} → Steps queue_size s t → Step queue_size t u → Steps queue_size s u
