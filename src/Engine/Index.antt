-- ===== src/Engine/Index.antt =====
-- engine/internal/search/memory_index.go. The lock makes each call a step of its own.
use hackathon.Common.{
  ℕ, Bool, not, ◌&&◌, List, [], ◌∷◌, ◌++◌, ◌≡◌, arith, str_eq, str_eq_iff, filter, if◌then◌else◌,
}
use hackathon.Engine.Keys.{Bytes, less64}

-- `PostingEntry`, of which nothing sets the offset and the length.
pub record Posting : Type 0 where
  pub timestamp_nano : ℕ
  pub stream_id : ℕ

-- `MemoryIndex.terms`
abbrev pub Terms : Type 0
Terms = List (Bytes × List Posting)

unfoldable pub postings : Bytes → Terms → List Posting
postings term [] = []
postings term ((t, ps) ∷ terms) = if str_eq t term then ps else postings term terms

-- `Add`
unfoldable pub add : Bytes → Posting → Terms → Terms
add term entry [] = (term, entry ∷ []) ∷ []
add term entry ((t, ps) ∷ terms) =
    if str_eq t term then (t, ps ++ entry ∷ []) ∷ terms else (t, ps) ∷ add term entry terms

abbrev pub is_within : ℕ → ℕ → ℕ → Bool
is_within start_nano end_nano ts = not (less64 ts start_nano) && not (less64 end_nano ts)

-- `Query`
unfoldable pub query : Bytes → ℕ → ℕ → Terms → List Posting
query term start_nano end_nano terms =
    filter (λ e. is_within start_nano end_nano e.timestamp_nano) (postings term terms)

pub postings-add :
    (t term : Bytes) (entry : Posting) (terms : Terms)
    → postings t (add term entry terms)
      ≡ (if str_eq term t then postings t terms ++ entry ∷ [] else postings t terms)
unfolding postings add
postings-add t term entry [] = ground arith
postings-add t term entry ((u, ps) ∷ terms) =
    ground
      (arith, str_eq_iff u term, str_eq_iff u t, str_eq_iff term t, postings-add t term entry terms)
