-- ===== src/Engine/Db/Batches.antt =====
-- What the puts of a LevelDB batch leave at a key.
use hackathon.Common.{
  ◌≢◌, List, [], ◌∷◌, ◌++◌, ◌≡◌, refl, ap, ◌⊎◌, inl, inr, Option, none, In, arith, str_eq,
  str_eq_iff, Bool-cases,
}
use hackathon.Engine.Keys.{Bytes}
use hackathon.Engine.Db.{Put, get_after}

pub get_after-append :
    (a b : List Put) (k : Bytes) (o : Option Bytes)
    → get_after (a ++ b) k o ≡ get_after b k (get_after a k o)
unfolding get_after
get_after-append [] b k o = refl
get_after-append (p ∷ a) b k o = get_after-append a b k _

key_kept : (ps : List Put) (k : Bytes) (o : Option Bytes) → o ≢ none → get_after ps k o ≢ none
unfolding get_after
key_kept [] k o h = h
key_kept (p ∷ ps) k o h = key_kept ps k _ (ground arith)

pub key_written :
    (ps : List Put) (p : Put) (o : Option Bytes) → In p ps → get_after ps p.key o ≢ none
unfolding get_after
key_written [] p o m = elim m [ ]
key_written (q ∷ ps) p o (inl e) =
    key_kept ps p.key _ (ground (arith, ap (λ r. r.key) e, str_eq_iff q.key p.key))
key_written (q ∷ ps) p o (inr m) = key_written ps p _ m

pub written_key :
    (ps : List Put) (k : Bytes) (o : Option Bytes)
    → get_after ps k o ≢ none
    → (o ≢ none) ⊎ ((p : Put) × (In p ps) × (p.key ≡ k))
unfolding get_after
written_key [] k o h = inl h
written_key (p ∷ ps) k o h = elim (Bool-cases (str_eq p.key k)) [
  | inl same ↦ inr (p, inl refl, (str_eq_iff p.key k).0 same)
  | inr other ↦ elim (written_key ps k _ h) [
    | inl there ↦ inl (rw other at there)
    | inr (q, m, e) ↦ inr (q, inr m, e)
  ]
]
