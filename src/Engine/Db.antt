-- ===== src/Engine/Db.antt =====
-- LevelDB, as engine/internal/storage/leveldb.go opens it, is a parameter: reads, atomic batches and
-- iteration over a prefix. It is documented to keep its keys in the order of their bytes.
pub mod Batches
pub mod Memory
use hackathon.Common.{
  Option, none, List, [], ◌∷◌, ◌++◌, ◌≡◌, ◌≢◌, ◌⊎◌, Bool, true, Str, All, str_eq, if◌then◌else◌,
  some, In,
}
use hackathon.Engine.Keys.{Bytes}
use hackathon.Engine.Keys.Order.{bytes_less}

-- `batch.Put(key, value)`
pub record Put : Type 0 where
  pub key : Bytes
  pub value : Bytes

-- What stands at a key after a batch, if `before` stood there.
unfoldable pub get_after : List Put → Bytes → Option Bytes → Option Bytes
get_after [] k before = before
get_after (p ∷ batch) k before = get_after batch k (if str_eq p.key k then some p.value else before)

abbrev pub IsAscending : List Bytes → Type 0
IsAscending [] = Unit
IsAscending (k ∷ ks) = All (λ j. bytes_less k j ≡ true) ks × IsAscending ks

-- `keys` lists what an iterator over `util.BytesPrefix` comes to, and `iter_error` is its `Error()`
-- behind them.
pub record LevelDb : Type 1 where
  pub Db : Type 0
  pub empty : Db
  pub get : Db → Bytes → Option Bytes
  pub write : Db → List Put → Db
  pub keys : Db → Bytes → List Bytes
  pub iter_error : Db → Bytes → Option Str

-- What the engine relies on. An iteration comes to the keys in order and to
-- every one of them, unless an error ends it: then it has come to those in front of some key.
pub record IsLawful (level_db : LevelDb) : Type 0 where
  pub get-empty : (k : Bytes) → level_db.get level_db.empty k ≡ none
  pub get-write :
      (d : level_db.Db) (batch : List Put) (k : Bytes)
      → level_db.get (level_db.write d batch) k ≡ get_after batch k (level_db.get d k)
  pub keys_present :
      (d : level_db.Db) (prefix : Bytes)
      → All (λ k. level_db.get d k ≢ none) (level_db.keys d prefix)
  pub keys_prefixed :
      (d : level_db.Db) (prefix : Bytes)
      → All (λ k. (s : Bytes) × (k ≡ prefix ++ s)) (level_db.keys d prefix)
  pub keys_ascending : (d : level_db.Db) (prefix : Bytes) → IsAscending (level_db.keys d prefix)
  pub keys_complete :
      (d : level_db.Db) (prefix s : Bytes)
      → level_db.get d (prefix ++ s) ≢ none
      → In (prefix ++ s) (level_db.keys d prefix)
        ⊎ ((level_db.iter_error d prefix ≢ none)
            × All (λ k. bytes_less k (prefix ++ s) ≡ true) (level_db.keys d prefix))
