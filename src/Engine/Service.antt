-- ===== src/Engine/Service.antt =====
-- engine/internal/ipc/grpc_server.go: the handlers `Query` and `StreamQuery`, and the response as
-- the Node client reads it.
pub mod Nothing
use mathlib.Core.Option
use hackathon.Common.{
  ℕ, suc, Option, none, some, List, [], ◌∷◌, ◌≡◌, refl, sym, ap, ◌∙◌, arith, map, length, Str,
  Option-cases, inl, inr,
}
use hackathon.Common.Number.{decimal}
use hackathon.Engine.{LogEntry, QueryRequest, QueryResponse, Reply, answered, failed}
use hackathon.Engine.Keys.{Bytes}
use hackathon.Engine.Db.{LevelDb}
use hackathon.Engine.Find.{search_term}
use hackathon.Engine.Loop.{Engine}

-- protobuf between the two: texts in UTF-8, and the 64-bit word of a number. Bytes that are no UTF-8
-- have no text: protobuf refuses a message with them, and the call fails with `marshal_error`.
pub record Wire (Time : Type 0) : Type 0 where
  pub bytes_of : Str → Bytes
  pub text_of : Bytes → Option Str
  pub marshal_error : Str
  pub word_of : Time → ℕ

-- A text is no bytes exactly where it is empty.
pub record IsUtf8 {Time : Type 0} (wire : Wire Time) : Type 0 where
  pub nothing : wire.bytes_of [] ≡ []

-- The `Error` field for an error.
abbrev pub error_text : Option Str → Str
error_text none = []
error_text (some err) = err

-- `LogEntry` with a message alone.
abbrev pub entry_of : Str → LogEntry
entry_of message = record { timestamp_nano = b'0' ∷ []; message = message }

module _ {Time : Type 0} (wire : Wire Time) where
  open wire use {bytes_of, text_of, marshal_error, word_of}

  -- The entries of a response as they are sent, with `none` where one of them is refused.
  unfoldable pub entries_of : List Bytes → Option (List LogEntry)
  entries_of [] = some []
  entries_of (raw ∷ more) = elim (text_of raw) [
    | none ↦ none
    | some message ↦ Option.map (◌∷◌ (entry_of message)) (entries_of more)
  ]

  -- The response of `Query`, as the client is told of it.
  unfoldable pub reply_of : List Bytes × Option Str → Reply
  unfolding decimal entries_of
  reply_of (raw_logs, some err) =
      answered (record { logs = []; total_found = b'0' ∷ []; error = err })
  reply_of (raw_logs, none) = elim (entries_of raw_logs) [
    | none ↦ failed marshal_error
    | some entries ↦
        answered (record { logs = entries; total_found = decimal (length raw_logs); error = [] })
  ]

  module _ (level_db : LevelDb) where
    open level_db use {Db}

    -- `s.queryEngine.SearchTerm` with the fields of a request.
    abbrev pub raw_logs_of : Engine Db → QueryRequest Time → List Bytes × Option Str
    raw_logs_of e req =
        search_term level_db e.db e.mem_index (bytes_of req.term) (word_of req.start_time_nano)
          (word_of req.end_time_nano) req.limit

    -- `Query`
    unfoldable pub query_rpc : Engine Db → QueryRequest Time → Reply
    unfolding reply_of search_term
    query_rpc e req = reply_of (raw_logs_of e req)

  -- The loop of `StreamQuery` from its `i`th round on: what is sent, and the error of the first send
  -- that fails, also for a message that is refused.
  unfoldable pub send_all : (ℕ → Option Str) → ℕ → List Bytes → List LogEntry × Option Str
  send_all fails i [] = ([], none)
  send_all fails i (raw ∷ more) = elim (fails i) [
    | some err ↦ ([], some err)
    | none ↦ elim (text_of raw) [
      | none ↦ ([], some marshal_error)
      | some message ↦ let rest = send_all fails (suc i) more in (entry_of message ∷ rest.0, rest.1)
    ]
  ]

  unfoldable pub stream_of : (ℕ → Option Str) → List Bytes × Option Str → List LogEntry × Option Str
  unfolding send_all
  stream_of fails (raw_logs, some err) = ([], some err)
  stream_of fails (raw_logs, none) = send_all fails 0 raw_logs

  -- `StreamQuery`: what is sent, and the error that it returns.
  unfoldable pub stream_rpc :
      (level_db : LevelDb)
      → (ℕ → Option Str)
      → Engine level_db.Db
      → QueryRequest Time
      → List LogEntry × Option Str
  unfolding stream_of search_term
  stream_rpc level_db fails e req = stream_of fails (raw_logs_of level_db e req)

  send_all-entries :
      (fails : ℕ → Option Str) (i : ℕ) (raw_logs : List Bytes) (entries : List LogEntry)
      → ((j : ℕ) → fails j ≡ none)
      → entries_of raw_logs ≡ some entries
      → send_all fails i raw_logs ≡ (entries, none)
  unfolding send_all entries_of
  send_all-entries fails i [] entries fine sent = ground arith
  send_all-entries fails i (raw ∷ more) entries fine sent = elim (Option-cases (text_of raw)) [
    | inl refused ↦ ground arith
    | inr (message, told) ↦ elim (Option-cases (entries_of more)) [
      | inl refused ↦ ground arith
      | inr (es, rest_sent) ↦
          let rest = send_all-entries fails (suc i) more es fine rest_sent in
          let now_fine = fine i in ground arith
    ]
  ]

  stream_of-reply :
      (fails : ℕ → Option Str) (found : List Bytes × Option Str) (r : QueryResponse)
      → ((j : ℕ) → fails j ≡ none)
      → reply_of found ≡ answered r
      → ((stream_of fails found).0 ≡ r.logs) × (error_text (stream_of fails found).1 ≡ r.error)
  unfolding stream_of reply_of
  stream_of-reply fails (raw_logs, some err) r fine told = ground arith
  stream_of-reply fails (raw_logs, none) r fine told = elim (Option-cases (entries_of raw_logs)) [
    | inl refused ↦ ground arith
    | inr (entries, sent) ↦
        let all_sent = send_all-entries fails 0 raw_logs entries fine sent in ground arith
  ]

  -- Where no send fails and `Query` answers a request, `StreamQuery` sends the logs of that answer,
  -- and returns its error.
  pub stream_rpc-query :
      (level_db : LevelDb) (fails : ℕ → Option Str) (e : Engine level_db.Db)
      (req : QueryRequest Time) (r : QueryResponse)
      → ((j : ℕ) → fails j ≡ none)
      → query_rpc level_db e req ≡ answered r
      → ((stream_rpc level_db fails e req).0 ≡ r.logs)
        × (error_text (stream_rpc level_db fails e req).1 ≡ r.error)
  unfolding stream_rpc query_rpc
  stream_rpc-query level_db fails e req r fine told =
      stream_of-reply fails (raw_logs_of level_db e req) r fine told
