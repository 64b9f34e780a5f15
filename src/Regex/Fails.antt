-- ===== src/Regex/Fails.antt =====
-- Patterns that cannot match: one that begins with a class of which the input has no unit.
use hackathon.Common.{ℕ, suc, Bool, false, none, List, [], ◌∷◌, ◌++◌, ◌≡◌, refl, arith, Str, All}
use hackathon.Regex.{Regex, unit, seq, cursor, matches, exec_from, exec}

-- The input has no unit of the class.
abbrev pub Lacks : (ℕ → Bool) → Str → Type 0
Lacks p = All (λ c. p c ≡ false)

-- The next unit is not of the class, or there is none.
abbrev pub Stops : (ℕ → Bool) → Str → Type 0
Stops p [] = Unit
Stops p (c ∷ s) = p c ≡ false

-- The place after a text that begins at `at`.
abbrev pub at_after : ℕ → Str → ℕ
at_after at [] = at
at_after at (c ∷ w) = at_after (suc at) w

pub matches-unit_fails :
    (p : ℕ → Bool) (r : Regex) (at : ℕ) (s : Str) (g : List (ℕ × Str))
    → Stops p s
    → matches (seq (unit p) r) (cursor at s g) ≡ []
unfolding matches
matches-unit_fails p r at [] g h = refl
matches-unit_fails p r at (c ∷ s) g h = rw h

pub exec_from-Lacks :
    (p : ℕ → Bool) (r : Regex) (at : ℕ) (s : Str)
    → Lacks p s
    → exec_from (seq (unit p) r) at s ≡ none
unfolding exec_from
exec_from-Lacks p r at [] h = refl
exec_from-Lacks p r at (c ∷ s) h = ground (arith, exec_from-Lacks p r (suc at) s h.1, h.0)

pub exec-Lacks : (p : ℕ → Bool) (r : Regex) (s : Str) → Lacks p s → exec (seq (unit p) r) s ≡ none
unfolding exec
exec-Lacks p r s h = exec_from-Lacks p r 0 s h

-- Units that are not of the first class are passed over.
pub exec_from-skip :
    (p : ℕ → Bool) (r : Regex) (at : ℕ) (w s : Str)
    → Lacks p w
    → exec_from (seq (unit p) r) at (w ++ s) ≡ exec_from (seq (unit p) r) (at_after at w) s
unfolding exec_from
exec_from-skip p r at [] s h = refl
exec_from-skip p r at (c ∷ w) s h = ground (arith, exec_from-skip p r (suc at) w s h.1, h.0)
