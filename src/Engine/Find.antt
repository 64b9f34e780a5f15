-- ===== src/Engine/Find.antt =====
-- engine/internal/search/query.go: `SearchTerm` over one state of the database and the index. A
-- limit below 0 is taken for 0, as the code does.
pub mod Listed
pub mod Rounds
pub mod Reference
use hackathon.Common.{
  ℕ, ◌+◌, Bool, true, false, ◌&&◌, ◌||◌, Option, none, some, List, [], ◌∷◌, ◌++◌, Str, length, map,
  ltb, leb, ◌==◌, if◌then◌else◌,
}
use hackathon.Engine.Keys.{
  Bytes, LogId, less64, prefix_index_term, encode_log_key, decode_index_key,
}
use hackathon.Engine.Db.{LevelDb}
use hackathon.Engine.Index.{Posting, Terms, query}

-- `results` and `seen`
pub record Found : Type 0 where
  pub results : List Bytes
  pub seen : List LogId

-- Whether a loop returns or goes on.
pub data Loop : Type 0 where
  finished : Found → Loop
  goes_on : Found → Loop

unfoldable pub same_id : LogId → LogId → Bool
same_id i j = i.stream_id == j.stream_id && i.ts == j.ts

-- `seen[id]`
unfoldable pub has_id : LogId → List LogId → Bool
unfolding same_id
has_id i [] = false
has_id i (j ∷ seen) = same_id i j || has_id i seen

abbrev pub nothing_found : Found
nothing_found = record { results = []; seen = [] }

abbrev pub posting_id : Posting → LogId
posting_id m = record { stream_id = m.stream_id; ts = m.timestamp_nano }

-- `limit`, with its default.
abbrev pub limit_or : ℕ → ℕ
limit_or limit = if leb limit 0 then 50 else limit

-- `prefix`
abbrev pub index_prefix : Bytes → Bytes
index_prefix term = prefix_index_term ∷ (term ++ 0 ∷ [])

-- `return results, iter.Error()`: an iteration that was broken off before its end has no error.
abbrev pub scan_result : Option Str → Loop → List Bytes × Option Str
scan_result err (finished f) = (f.results, none)
scan_result err (goes_on f) = (f.results, err)

module _ (level_db : LevelDb) where
  open level_db use {Db, get, keys, iter_error}

  -- `q.db.Get` of the key of a log. An error of it counts as a log that is not there.
  abbrev pub message_at : Db → LogId → Option Bytes
  message_at d id = get d (encode_log_key id.stream_id id.ts)

  -- `fetchLog`
  unfoldable pub fetch_log : Db → LogId → Found → Found × Bool
  unfolding has_id
  fetch_log d id f = if has_id id f.seen then (f, false) else elim (message_at d id) [
    | none ↦ (record f { seen = id ∷ f.seen }, false)
    | some log_data ↦ (record { results = f.results ++ log_data ∷ []; seen = id ∷ f.seen }, true)
  ]

  -- The test of the limit behind `fetchLog`.
  unfoldable pub stop_at : ℕ → Found × Bool → Loop
  stop_at limit (f, fetched) =
      if fetched && leb limit (length f.results) then finished f else goes_on f

  -- The loop over `memMatches`.
  unfoldable pub hot_tier : Db → ℕ → List Posting → Found → Loop
  unfolding fetch_log stop_at
  hot_tier d limit [] f = goes_on f
  hot_tier d limit (m ∷ matches) f = elim (stop_at limit (fetch_log d (posting_id m) f)) [
    | finished f' ↦ finished f'
    | goes_on f' ↦ hot_tier d limit matches f'
  ]

  module _ (d : Db) (start_nano end_nano limit : ℕ) where
    -- One round of the loop over the iterator.
    unfoldable pub visit : Bytes → Found → Loop
    unfolding fetch_log stop_at
    visit key f = elim (decode_index_key key) [
      | none ↦ goes_on f
      | some k ↦
          if less64 k.ts start_nano
          then goes_on f
          else if less64 end_nano k.ts
          then finished f
          else stop_at limit (fetch_log d (record { stream_id = k.stream_id; ts = k.ts }) f)
    ]

    -- The loop over the iterator.
    unfoldable pub scan_index : List Bytes → Found → Loop
    unfolding visit
    scan_index [] f = goes_on f
    scan_index (key ∷ rest) f = elim (visit key f) [
      | finished f' ↦ finished f'
      | goes_on f' ↦ scan_index rest f'
    ]

  -- What is behind the hot tier.
  unfoldable pub then_scan : Db → Bytes → ℕ → ℕ → ℕ → Loop → List Bytes × Option Str
  unfolding scan_index
  then_scan d term start_nano end_nano limit (finished f) = (f.results, none)
  then_scan d term start_nano end_nano limit (goes_on f) =
      scan_result (iter_error d (index_prefix term))
        (scan_index d start_nano end_nano limit (keys d (index_prefix term)) f)

  -- `SearchTerm`: the results and the error.
  unfoldable pub search_term : Db → Terms → Bytes → ℕ → ℕ → ℕ → List Bytes × Option Str
  unfolding hot_tier then_scan query
  search_term d terms term start_nano end_nano limit =
      then_scan d term start_nano end_nano (limit_or limit)
        (hot_tier d (limit_or limit) (query term start_nano end_nano terms) nothing_found)
