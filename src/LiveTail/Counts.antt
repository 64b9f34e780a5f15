-- ===== src/LiveTail/Counts.antt =====
-- The `Map` of server/src/services/liveTail.js: reading after writing, and the merge loop.
use hackathon.Common.{
  ℕ, Bool, false, ◌||◌, [], ◌∷◌, ◌≡◌, refl, arith, Str, str_eq, str_eq_iff, if◌then◌else◌,
}
use hackathon.LiveTail.{Counts, get, set, merge}

unfoldable pub has : Counts → Str → Bool
has [] k = false
has ((j, n) ∷ m) k = str_eq j k || has m k

abbrev pub IsDistinct : Counts → Type 0
IsDistinct [] = Unit
IsDistinct ((j, n) ∷ m) = (has m j ≡ false) × IsDistinct m

pub get-set :
    (m : Counts) (k j : Str) (n : ℕ) → get (set m k n) j ≡ (if str_eq k j then n else get m j)
unfolding get set
get-set [] k j n = refl
get-set ((i, o) ∷ m) k j n =
    ground (arith, str_eq_iff i k, str_eq_iff i j, str_eq_iff k j, get-set m k j n)

pub has-set : (m : Counts) (k j : Str) (n : ℕ) → has (set m k n) j ≡ (str_eq k j || has m j)
unfolding has set
has-set [] k j n = refl
has-set ((i, o) ∷ m) k j n =
    ground (arith, str_eq_iff i k, str_eq_iff i j, str_eq_iff k j, has-set m k j n)

pub set-IsDistinct : (m : Counts) (k : Str) (n : ℕ) → IsDistinct m → IsDistinct (set m k n)
unfolding set has
set-IsDistinct [] k n h = (refl, tt)
set-IsDistinct ((i, o) ∷ m) k n h =
    ground (arith, str_eq_iff i k, str_eq_iff k i, has-set m k i n, set-IsDistinct m k n h.1)

pub get-merge :
    (seen current : Counts) (k : Str)
    → IsDistinct current
    → get (merge seen current) k ≡ (if has current k then get current k else get seen k)
unfolding merge has get
get-merge seen [] k h = refl
get-merge seen ((j, n) ∷ current) k h =
    ground (arith, get-merge (set seen j n) current k h.1, get-set seen j k n, str_eq_iff j k)
