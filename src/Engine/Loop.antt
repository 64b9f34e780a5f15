-- ===== src/Engine/Loop.antt =====
-- The loop of engine/cmd/server/main.go. Whether a batch is written is the outcome of its write;
-- LevelDB writes all of a batch or none of it.
pub mod History
pub mod Register
pub mod Consistent
pub mod Written
pub mod Candidates
pub mod Ids
pub mod Fetched
pub mod Answers
pub mod Runs
pub mod Oldest
pub mod Ingested
use hackathon.Common.{
  ℕ, suc, ◌+◌, Bool, true, false, Option, none, some, List, [], ◌∷◌, ◌++◌, leb, ◌==◌, if◌then◌else◌,
}
use hackathon.Engine.Keys.{Bytes, decode_index_key, IndexKey}
use hackathon.Engine.Db.{LevelDb, Put}
use hackathon.Engine.Index.{Posting, Terms, add}
use hackathon.Engine.Items.{IndexItem}

-- `maxBatchSize`
abbrev pub max_batch_size : ℕ
max_batch_size = 2500

-- The database, the index, and the variables of the loop.
pub record Engine (Db : Type 0) : Type 0 where
  pub db : Db
  pub mem_index : Terms
  pub batch : List Put
  pub batch_size : ℕ

pub data Event : Type 0 where
  output : IndexItem → (is_written : Bool) → Event
  tick : (is_written : Bool) → Event
  signal : (is_written : Bool) → Event

-- `memIndex.Add` of a key that is ok.
unfoldable pub add_key : Option IndexKey → Terms → Terms
add_key none terms = terms
add_key (some k) terms =
    add k.term (record { timestamp_nano = k.ts; stream_id = k.stream_id }) terms

module _ (level_db : LevelDb) where
  open level_db use {Db, write}

  -- The variables at the start, over a database that was opened.
  abbrev pub started : Db → Engine Db
  started d = record { db = d; mem_index = []; batch = []; batch_size = 0 }

  unfoldable pub put : Put → Engine Db → Engine Db
  put p e = record e { batch = e.batch ++ p ∷ []; batch_size = suc e.batch_size }

  -- The loop over `item.TermKeys`.
  unfoldable pub register : List Bytes → Engine Db → Engine Db
  unfolding put add_key
  register [] e = e
  register (idx_key ∷ rest) e =
      let e' = put (record { key = idx_key; value = [] }) e in
      register rest (record e' { mem_index = add_key (decode_index_key idx_key) e'.mem_index })

  -- An item, without the flush behind it.
  unfoldable pub take_item : IndexItem → Engine Db → Engine Db
  unfolding register put
  take_item item e =
      register item.term_keys (put (record { key = item.log_key; value = item.log_value }) e)

  -- `flush`. A batch that is not written is dropped all the same.
  unfoldable pub flush : Bool → Engine Db → Engine Db
  flush is_written e = if e.batch_size == 0 then e else record e {
    db = if is_written then write e.db e.batch else e.db;
    batch = [];
    batch_size = 0;
  }

  abbrev pub flush_if_full : Bool → Engine Db → Engine Db
  flush_if_full is_written e = if leb max_batch_size e.batch_size then flush is_written e else e

  -- The loop, over what its `select` receives, up to a signal.
  unfoldable pub run : List Event → Engine Db → Engine Db
  unfolding take_item flush
  run [] e = e
  run (output item is_written ∷ events) e = run events (flush_if_full is_written (take_item item e))
  run (tick is_written ∷ events) e = run events (flush is_written e)
  run (signal is_written ∷ events) e = flush is_written e
