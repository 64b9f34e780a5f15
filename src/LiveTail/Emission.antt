-- ===== src/LiveTail/Emission.antt =====
-- Which records `createLiveTail` of server/src/services/liveTail.js sends to the browser.
use Prim.Native.Nat.{max}
use hackathon.Common.{
  ℕ, suc, ◌+◌, ◌-◌, ◌||◌, List, [], ◌∷◌, ◌≡◌, arith, Str, str_eq, str_eq_iff, ltb, if◌then◌else◌,
  InOrder, done, skip, keep, Bool-cases, inl, inr,
}
use hackathon.Engine.{LogEntry}
use hackathon.LiveTail.{Counts, get, set, merge, entry_key, scan}
use hackathon.LiveTail.Counts.{has, IsDistinct, get-set, has-set, set-IsDistinct, get-merge}

module _ (digest : Str → Str) where
  -- How many of the records have the key `k`.
  unfoldable pub occurrences : Str → List LogEntry → ℕ
  occurrences k [] = 0
  occurrences k (e ∷ es) = (if str_eq (entry_key digest e) k then 1 else 0) + occurrences k es

  pub get-scan :
      (seen current : Counts) (es : List LogEntry) (k : Str)
      → get (scan digest seen current es).1 k ≡ get current k + occurrences k es
  unfolding scan occurrences
  get-scan seen current [] k = omega arith
  get-scan seen current (e ∷ es) k =
      let key = entry_key digest e in
      let next = set current key (suc (get current key)) in
      ground (
        arith,
        get-scan seen next es k,
        get-set current key k (suc (get current key)),
        str_eq_iff key k,
      )

  pub has-scan :
      (seen current : Counts) (es : List LogEntry) (k : Str)
      → has (scan digest seen current es).1 k ≡ (has current k || ltb 0 (occurrences k es))
  unfolding scan occurrences
  has-scan seen current [] k = ground arith
  has-scan seen current (e ∷ es) k =
      let key = entry_key digest e in
      let next = set current key (suc (get current key)) in
      ground (arith, has-scan seen next es k, has-set current key k (suc (get current key)))

  scan-IsDistinct :
      (seen current : Counts) (es : List LogEntry)
      → IsDistinct current
      → IsDistinct (scan digest seen current es).1
  unfolding scan
  scan-IsDistinct seen current [] h = h
  scan-IsDistinct seen current (e ∷ es) h =
      let key = entry_key digest e in
      let occurrence = suc (get current key) in
      scan-IsDistinct seen (set current key occurrence) es (set-IsDistinct current key occurrence h)

  occurrences-scan_from :
      (seen current : Counts) (es : List LogEntry) (k : Str)
      → occurrences k (scan digest seen current es).0
        ≡ get current k + occurrences k es - max (get seen k) (get current k)
  unfolding scan occurrences
  occurrences-scan_from seen current [] k = omega arith
  occurrences-scan_from seen current (e ∷ es) k =
      let key = entry_key digest e in
      let next = set current key (suc (get current key)) in
      ground (
        arith,
        occurrences-scan_from seen next es k,
        get-set current key k (suc (get current key)),
        str_eq_iff key k,
      )

  pub occurrences-scan :
      (seen : Counts) (es : List LogEntry) (k : Str)
      → occurrences k (scan digest seen [] es).0 ≡ occurrences k es - get seen k
  unfolding get
  occurrences-scan seen es k = omega (arith, occurrences-scan_from seen [] es k)

  pub scan-InOrder :
      (seen current : Counts) (es : List LogEntry) → InOrder (scan digest seen current es).0 es
  unfolding scan
  scan-InOrder seen current [] = done
  scan-InOrder seen current (e ∷ es) =
      let key = entry_key digest e in
      let occurrence = suc (get current key) in
      let rest = scan-InOrder seen (set current key occurrence) es in
      elim (Bool-cases (ltb (get seen key) occurrence)) [
        | inl new ↦ rw new (keep rest)
        | inr old ↦ rw old (skip rest)
      ]

  -- `seen` after a poll: the count in the response, or the old one for a key that is not in it.
  pub get-merge-scan :
      (seen : Counts) (es : List LogEntry) (k : Str)
      → get (merge seen (scan digest seen [] es).1) k
        ≡ (if ltb 0 (occurrences k es) then occurrences k es else get seen k)
  unfolding get has
  get-merge-scan seen es k = ground (
    arith,
    get-merge seen (scan digest seen [] es).1 k (scan-IsDistinct seen [] es tt),
    get-scan seen [] es k,
    has-scan seen [] es k,
  )
