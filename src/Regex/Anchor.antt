-- ===== src/Regex/Anchor.antt =====
-- Anchored patterns that cannot match.
use hackathon.Common.{
  ℕ, suc, Bool, true, false, none, List, [], ◌∷◌, ◌++◌, ◌≡◌, refl, ◌∙◌, arith, Str, ◌==◌, All,
  All-append,
}
use hackathon.Regex.{
  Regex, Cursor, seq, start, cursor, star_from, each, matches, match_at, exec_from, exec,
}
use hackathon.Regex.Scan.{exec_lem}
use hackathon.Regex.Fails.{at_after, Stops}

match_at-start_later : (r : Regex) (at : ℕ) (s : Str) → match_at (seq start r) (suc at) s ≡ none
unfolding matches each
match_at-start_later r at s = let off : (suc at == 0) ≡ false = ground arith in rw off

exec_from-start_later : (r : Regex) (at : ℕ) (s : Str) → exec_from (seq start r) (suc at) s ≡ none
unfolding exec_from
exec_from-start_later r at [] = match_at-start_later r at []
exec_from-start_later r at (c ∷ s) =
    rw (match_at-start_later r at (c ∷ s), exec_from) (exec_from-start_later r (suc at) s)

match_at-start_fails :
    (r : Regex) (s : Str) → matches r (cursor 0 s []) ≡ [] → match_at (seq start r) 0 s ≡ none
unfolding matches each
match_at-start_fails r s h = rw h

-- An anchored pattern is tried at the beginning only.
pub exec-start_fails :
    (r : Regex) (c : ℕ) (s : Str)
    → matches r (cursor 0 (c ∷ s) []) ≡ []
    → exec (seq start r) (c ∷ s) ≡ none
unfolding exec_from
exec-start_fails r c s h =
    exec_lem (seq start r) (c ∷ s)
    ∙ rw (match_at-start_fails r (c ∷ s) h, exec_from) (exec_from-start_later r 0 s)

module _ (f : Cursor → List Cursor) where
  pub each-fails : (ts : List Cursor) → All (λ t. f t ≡ []) ts → each ts f ≡ []
  unfolding each
  each-fails [] h = refl
  each-fails (t ∷ ts) (h, hs) = rw h (each-fails ts hs)

-- All the runs of a class that a `*` tries in `w`, which ends in front of `s`.
pub star_from-All :
    (P : Cursor → Type 0) (p : ℕ → Bool) (at : ℕ) (w s : Str) (g : List (ℕ × Str))
    → ((x at : ℕ) (s : Str) → p x ≡ true → P (cursor at (x ∷ s) g))
    → P (cursor (at_after at w) s g)
    → All (λ c. p c ≡ true) w
    → Stops p s
    → All P (star_from p at (w ++ s) g)
unfolding star_from
star_from-All P p at [] [] g inside behind h k = (behind, tt)
star_from-All P p at [] (c ∷ s) g inside behind h k = rw k (behind, tt)
star_from-All P p at (c ∷ w) s g inside behind (h, hs) k =
    let rest = star_from-All P p (suc at) w s g inside behind hs k in
    rw h (All-append P (star_from p (suc at) (w ++ s) g) _ rest (inside c at (w ++ s) h, tt))
