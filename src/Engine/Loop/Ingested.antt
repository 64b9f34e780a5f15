-- ===== src/Engine/Loop/Ingested.antt =====
-- A packet on its way through engine/internal/pipeline/worker_pool.go, the loop of
-- engine/cmd/server/main.go and `SearchTerm` of engine/internal/search/query.go.
use hackathon.Common.{
  ℕ, suc, ◌-◌, ◌&&◌, false, leb, take, drop, ◌<◌, ◌^◌, true, [], ◌∷◌, ◌++◌, ◌≡◌, refl, sym, subst,
  ◌∙◌, none, some, Option, map, length, All, In, In-append_right, inl, arith, if◌then◌else◌, ◌==◌,
}
use hackathon.Engine.Keys.{Bytes, index_byte}
use hackathon.Engine.Keys.RoundTrip.{IsNonzero}
use hackathon.Engine.Db.{LevelDb, IsLawful}
use hackathon.Engine.Index.{is_within}
use hackathon.Engine.Find.{search_term, limit_or}
use hackathon.Engine.Tokens.{Runes, IsUnicode}
use hackathon.Common.Number.{ℤ, pos, negsuc}
use hackathon.Engine.Syslog.{
  ParsedLog, uint64, with_priority, read_pri, read_pri_at, read_rest, read_host, read_host_at,
  default_log, parse_syslog, atoi, trim_left, skip_timestamp,
}
use hackathon.Engine.Items.{log_of, id_of, worker_loop}
use hackathon.Engine.Loop.{Engine, take_item, flush}
use hackathon.Engine.Loop.History.{History, IsLog, Reach, takes, flushes, has_token}
use hackathon.Engine.Loop.Ids.{DistinctIds}
use hackathon.Engine.Loop.Answers.{search_complete}

read_host_at-time :
    (i : Option ℕ) (packet : Bytes) (res : ParsedLog)
    → (read_host_at i packet res).timestamp_nano ≡ res.timestamp_nano
unfolding read_host_at
read_host_at-time none packet res = refl
read_host_at-time (some i) packet res = refl

read_rest-time : (r : ParsedLog × Bytes) → (read_rest r).timestamp_nano ≡ r.0.timestamp_nano
unfolding read_rest read_host
read_rest-time (res, packet) =
    read_host_at-time (index_byte b' ' (trim_left (skip_timestamp (trim_left packet)))) _ res

with_priority-time :
    (p : Option ℤ) (res : ParsedLog) → (with_priority p res).timestamp_nano ≡ res.timestamp_nano
unfolding with_priority
with_priority-time none res = refl
with_priority-time (some p) res = refl

read_pri_at-time :
    (i : Option ℕ) (packet : Bytes) (res : ParsedLog)
    → (read_pri_at i packet res).0.timestamp_nano ≡ res.timestamp_nano
unfolding read_pri_at
read_pri_at-time none packet res = refl
read_pri_at-time (some i) packet res =
    elim (leb 2 i && leb i 5)
      as (λ fits.
        let read : ParsedLog × Bytes =
          if fits
          then (with_priority (atoi (take (i - 1) (drop 1 packet))) res, drop (suc i) packet)
          else (res, packet) in
        read.0.timestamp_nano ≡ res.timestamp_nano) [
          | true ↦ with_priority-time (atoi (take (i - 1) (drop 1 packet))) res
          | false ↦ refl
        ]

read_pri-time :
    (c : ℕ) (s : Bytes) (res : ParsedLog)
    → (read_pri (c ∷ s) res).0.timestamp_nano ≡ res.timestamp_nano
unfolding read_pri
read_pri-time c s res =
    elim (c == b'<')
      as (λ starts.
        let read : ParsedLog × Bytes =
          if starts then read_pri_at (index_byte b'>' (c ∷ s)) (c ∷ s) res else (res, c ∷ s) in
        read.0.timestamp_nano ≡ res.timestamp_nano) [
          | true ↦ read_pri_at-time (index_byte b'>' (c ∷ s)) (c ∷ s) res
          | false ↦ refl
        ]

-- The time of a log is that of the call, whatever the packet says.
parse_syslog-time : (now : ℕ) (packet : Bytes) → (parse_syslog now packet).timestamp_nano ≡ now
unfolding parse_syslog
parse_syslog-time now [] = refl
parse_syslog-time now (c ∷ s) =
    read_rest-time (read_pri (c ∷ s) (default_log now)) ∙ read_pri-time c s (default_log now)

uint64-lt : (i : ℤ) → uint64 i < 2 ^ 64
unfolding uint64
uint64-lt (pos n) = omega arith
uint64-lt (negsuc n) = omega arith

pub log_of-IsLog :
    (now : ℕ) (packet : Bytes) → now < 2 ^ 63 → IsLog (log_of (parse_syslog now packet))
unfolding log_of
log_of-IsLog now packet h = record {
  time = subst (λ t. t < 2 ^ 63) (sym (parse_syslog-time now packet)) h;
  stream = uint64-lt (parse_syslog now packet).facility;
}

module _ (level_db : LevelDb) (lawful : IsLawful level_db) (runes : Runes)
    (unicode : IsUnicode runes) where
  open level_db use {Db}

  -- A packet that a worker takes, in any state that the engine can come to, is found once the loop
  -- has taken its item and has written the batch: a search for a token of the message, without a
  -- zero byte, over a window with the time of the packet has the message among its results, where
  -- it finds fewer than the limit and tells no error, and where no two logs have the same stream
  -- and time.
  pub ingested_found :
      {h : History} {e : Engine Db}
      → Reach level_db runes h e
      → (now : ℕ) (packet : Bytes) → now < 2 ^ 63
      → let l = log_of (parse_syslog now packet) in
        DistinctIds (map id_of (h.taken ++ l ∷ []))
        → (term : Bytes) → All IsNonzero term
        → has_token runes term l ≡ true
        → (start_nano end_nano limit : ℕ) → is_within start_nano end_nano l.ts ≡ true
        → let e' = flush level_db true (take_item level_db (worker_loop runes now packet) e) in
          let answer = search_term level_db e'.db e'.mem_index term start_nano end_nano limit in
          length answer.0 < limit_or limit → answer.1 ≡ none → In l.message answer.0
  unfolding worker_loop
  ingested_found {h} r now packet time distinct term plain has start_nano end_nano limit within room
        fine =
      let l = log_of (parse_syslog now packet) in
      let written : In l (h.written ++ (h.pending ++ l ∷ [])) =
        In-append_right l h.written (h.pending ++ l ∷ [])
          (In-append_right l h.pending (l ∷ []) (inl refl)) in
      search_complete level_db lawful runes unicode
        (flushes (takes r l (log_of-IsLog now packet time))) distinct term plain start_nano end_nano
        limit l (written, has, within) room fine
