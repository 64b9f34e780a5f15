-- ===== src/Regex/Lazy.antt =====
-- Lazy repetition and alternatives: what backtracking tries and gives up before its first match.
use hackathon.Common.{
  ℕ, suc, Bool, true, List, [], ◌∷◌, ◌++◌, ◌≡◌, refl, ap, ◌∙◌, Str, All, append-nil, take, ◌-◌,
}
use hackathon.Regex.{
  Regex, Cursor, seq, alt, group, empty, cursor, capture, lazy_from, each, capture_all, matches,
  lazy_plus,
}
use hackathon.Regex.Fails.{at_after}
use hackathon.Regex.First.{First, first, capture_text}

pub First-alt_left : (a b : Regex) {m t : Cursor} → First a m t → First (alt a b) m t
unfolding matches
First-alt_left a b {m} (first xs e) = first (xs ++ matches b m) (rw e)

pub First-alt_right :
    (a b : Regex) {m t : Cursor} → matches a m ≡ [] → First b m t → First (alt a b) m t
unfolding matches
First-alt_right a b none_there (first xs e) = first xs (rw none_there e)

pub First-empty : (m : Cursor) → First empty m m
unfolding matches
First-empty m = first [] refl

lazy_from-head :
    (p : ℕ → Bool) (at : ℕ) (s : Str) (g : List (ℕ × Str))
    → (others : List Cursor) × (lazy_from p at s g ≡ cursor at s g ∷ others)
unfolding lazy_from
lazy_from-head p at [] g = ([], refl)
lazy_from-head p at (c ∷ s) g = (_, refl)

-- `f` is what follows the group `n`, which was entered at `m`.
module _ (p : ℕ → Bool) (n : ℕ) (m : Cursor) (f : Cursor → List Cursor) where
  lazy_skips :
      (Q : ℕ → Type 0) (at : ℕ) (w s : Str) (g : List (ℕ × Str)) (u : Cursor) (us : List Cursor)
      → ((x at : ℕ) (s : Str) (g : List (ℕ × Str)) → Q x → f (cursor at (x ∷ s) g) ≡ [])
      → All (λ c. p c ≡ true) w
      → All Q w
      → f (capture n m (cursor (at_after at w) s g)) ≡ u ∷ us
      → (others : List Cursor) × (each (capture_all n m (lazy_from p at (w ++ s) g)) f ≡ u ∷ others)
  unfolding lazy_from each capture_all
  lazy_skips Q at [] s g u us skips ps qs found =
      let (others, e) = lazy_from-head p at s g in
      (us ++ each (capture_all n m others) f, rw e (rw found))
  lazy_skips Q at (c ∷ w) s g u us skips (pc, ps) (qc, qs) found =
      let (others, e) = lazy_skips Q (suc at) w s g u us skips ps qs found in
      let passed = skips c at (w ++ s) ((n, take (at - m.at) m.rest) ∷ g) qc in
      (others, rw (passed, pc) e)

-- A lazy group takes the shortest run behind which the rest of the pattern matches: the rest
-- matches behind `c ∷ w`, and nowhere in front of a unit of `w`.
pub First-lazy :
    (p : ℕ → Bool) (n : ℕ) (r : Regex) (Q : ℕ → Type 0) (at c : ℕ) (w s : Str) (g : List (ℕ × Str))
    {u : Cursor}
    → ((x at : ℕ) (s : Str) (g : List (ℕ × Str)) → Q x → matches r (cursor at (x ∷ s) g) ≡ [])
    → All (λ x. p x ≡ true) (c ∷ w)
    → All Q w
    → First r (cursor (at_after at (c ∷ w)) s ((n, c ∷ w) ∷ g)) u
    → First (seq (group n (lazy_plus p)) r) (cursor at (c ∷ (w ++ s)) g) u
unfolding matches
First-lazy p n r Q at c w s g {u} skips (pc, ps) qs (first us e) =
    let m = cursor at (c ∷ (w ++ s)) g in
    let (others, found) =
      lazy_skips p n m (matches r) Q (suc at) w s g u us skips ps qs
        (ap (matches r) (capture_text n at (c ∷ w) s g) ∙ e) in
    first others (rw (pc, append-nil (lazy_from p (suc at) (w ++ s) g)) found)
