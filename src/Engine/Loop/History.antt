-- ===== src/Engine/Loop/History.antt =====
-- The states of the loop of engine/cmd/server/main.go, with the logs that were taken.
use hackathon.Common.{
  ◌<◌, ◌^◌, Bool, true, false, List, [], ◌∷◌, ◌++◌, ◌≡◌, none, length, map, join, filter, All, In,
}
use hackathon.Engine.Keys.{Bytes, encode_log_key, encode_index_key}
use hackathon.Engine.Db.{LevelDb, Put, get_after}
use hackathon.Engine.Index.{Posting, postings}
use hackathon.Engine.Tokens.{Runes, tokenize, contains}
use hackathon.Engine.Items.{Log, item_of}
use hackathon.Engine.Loop.{Engine, started, take_item, flush}

-- All logs that were taken, those since the last start, those that were written and those in the
-- batch.
pub record History : Type 0 where
  pub taken : List Log
  pub hot : List Log
  pub written : List Log
  pub pending : List Log

abbrev pub no_history : History
no_history = record { taken = []; hot = []; written = []; pending = [] }

-- A log of a time before the year 2262 and not before 1970, and of a 64-bit stream.
pub record IsLog (l : Log) : Type 0 where
  pub time : l.ts < 2 ^ 63
  pub stream : l.stream_id < 2 ^ 64

abbrev pub take_log : Log → History → History
take_log l h = record h {
  taken = h.taken ++ l ∷ [];
  hot = h.hot ++ l ∷ [];
  pending = h.pending ++ l ∷ [];
}

abbrev pub posting_of : Log → Posting
posting_of l = record { timestamp_nano = l.ts; stream_id = l.stream_id }

module _ (runes : Runes) where
  -- The puts of a log.
  abbrev pub puts : Log → List Put
  puts l =
      record { key = encode_log_key l.stream_id l.ts; value = l.message }
      ∷ map (λ term. record { key = encode_index_key term l.ts l.stream_id; value = [] })
          (tokenize runes l.message)

  abbrev pub puts_of : List Log → List Put
  puts_of ls = join (map puts ls)

  abbrev pub has_token : Bytes → Log → Bool
  has_token term l = contains term (tokenize runes l.message)

module _ (level_db : LevelDb) (runes : Runes) where
  open level_db use {Db, empty, get}

  -- What the engine does with logs, on an empty database at first. It may end at any time and be
  -- started again: what is not written is then lost.
  pub data Reach : History → Engine Db → Type 0 where
    created : Reach no_history (started level_db empty)
    restarted :
        {h : History} {e : Engine Db}
        → Reach h e
        → Reach (record h { hot = []; pending = [] }) (started level_db e.db)
    takes :
        {h : History} {e : Engine Db}
        → Reach h e
        → (l : Log) → IsLog l
        → Reach (take_log l h) (take_item level_db (item_of runes l) e)
    flushes :
        {h : History} {e : Engine Db}
        → Reach h e
        → Reach
            (record h { written = h.written ++ h.pending; pending = [] })
            (flush level_db true e)
    flush_fails :
        {h : History} {e : Engine Db}
        → Reach h e
        → Reach (record h { pending = [] }) (flush level_db false e)

  -- The database holds the logs that were written, the batch the pending ones, and the index, at
  -- each term, the hot ones with the term in the order in which they were taken.
  pub record IsConsistent (h : History) (e : Engine Db) : Type 0 where
    pub stored : (k : Bytes) → get e.db k ≡ get_after (puts_of runes h.written) k none
    pub batched : e.batch ≡ puts_of runes h.pending
    pub counted : e.batch_size ≡ length e.batch
    pub indexed :
        (term : Bytes)
        → postings term e.mem_index ≡ map posting_of (filter (has_token runes term) h.hot)
    pub hot_taken : All (λ l. In l h.taken) h.hot
    pub written_taken : All (λ l. In l h.taken) h.written
    pub pending_taken : All (λ l. In l h.taken) h.pending
    pub logs : All IsLog h.taken
