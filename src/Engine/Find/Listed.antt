-- ===== src/Engine/Find/Listed.antt =====
-- The logs that `SearchTerm` of engine/internal/search/query.go goes through, as lists.
use hackathon.Common.{ℕ, true, false, none, some, List, [], ◌∷◌, ◌++◌, ◌≡◌, In, map, if◌then◌else◌}
use hackathon.Engine.Keys.{Bytes, LogId, IndexKey, less64, decode_index_key}
use hackathon.Engine.Db.{LevelDb}
use hackathon.Engine.Index.{Terms, query}
use hackathon.Engine.Find.{has_id, posting_id, index_prefix, message_at}

-- The ids that are not in `seen`, each once.
unfoldable pub fresh : List LogId → List LogId → List LogId
fresh seen [] = []
fresh seen (i ∷ ids) = if has_id i seen then fresh seen ids else i ∷ fresh (i ∷ seen) ids

-- The ids of index keys, without those before the window and up to the first behind it.
unfoldable pub scanned : ℕ → ℕ → List Bytes → List LogId
scanned start_nano end_nano [] = []
scanned start_nano end_nano (key ∷ rest) =
    let ids = scanned start_nano end_nano rest in
    elim (decode_index_key key) [
      | none ↦ ids
      | some k ↦
          if less64 k.ts start_nano
          then ids
          else if less64 end_nano k.ts
          then []
          else record { stream_id = k.stream_id; ts = k.ts } ∷ ids
    ]

-- A key at which the loop over the iterator breaks off: it is behind the window.
abbrev pub IsCut : ℕ → ℕ → List Bytes → Type 0
IsCut start_nano end_nano ks =
    (key : Bytes) × (In key ks)
    × (k : IndexKey) × (decode_index_key key ≡ some k)
    × (less64 k.ts start_nano ≡ false)
    × (less64 end_nano k.ts ≡ true)

module _ (level_db : LevelDb) where
  open level_db use {Db, get, keys, iter_error}

  -- The messages that stand at the ids.
  unfoldable pub stored : Db → List LogId → List Bytes
  stored d [] = []
  stored d (i ∷ ids) = elim (message_at level_db d i) [
    | none ↦ stored d ids
    | some log_data ↦ log_data ∷ stored d ids
  ]

  -- The logs that `SearchTerm` goes through: the hot tier's in the window, then the index's.
  unfoldable pub candidates : Db → Terms → Bytes → ℕ → ℕ → List LogId
  candidates d terms term start_nano end_nano =
      map posting_id (query term start_nano end_nano terms)
      ++ scanned start_nano end_nano (keys d (index_prefix term))
