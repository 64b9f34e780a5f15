-- ===== src/Engine/Items.antt =====
-- engine/internal/pipeline/worker_pool.go: what a worker makes of a packet.
use hackathon.Common.{ℕ, List, map}
use hackathon.Engine.Keys.{Bytes, LogId, encode_log_key, encode_index_key}
use hackathon.Engine.Tokens.{Runes, tokenize}
use hackathon.Engine.Syslog.{ParsedLog, uint64, parse_syslog}

-- What the engine keeps of a packet.
pub record Log : Type 0 where
  pub stream_id : ℕ
  pub ts : ℕ
  pub message : Bytes

pub record IndexItem : Type 0 where
  pub log_key : Bytes
  pub log_value : Bytes
  pub term_keys : List Bytes

-- `streamID`, `parsed.TimestampNano` and `parsed.Message`
unfoldable pub log_of : ParsedLog → Log
unfolding uint64
log_of parsed = record {
  stream_id = uint64 parsed.facility;
  ts = parsed.timestamp_nano;
  message = parsed.message;
}

abbrev pub id_of : Log → LogId
id_of l = record { stream_id = l.stream_id; ts = l.ts }

module _ (runes : Runes) where
  unfoldable pub item_of : Log → IndexItem
  item_of l = record {
    log_key = encode_log_key l.stream_id l.ts;
    log_value = l.message;
    term_keys = map (λ term. encode_index_key term l.ts l.stream_id) (tokenize runes l.message);
  }

  -- One round of `workerLoop`, for a packet that is parsed at the time `now`.
  unfoldable pub worker_loop : ℕ → Bytes → IndexItem
  unfolding item_of log_of parse_syslog
  worker_loop now packet = item_of (log_of (parse_syslog now packet))
