-- ===== src/Regex/Scan.antt =====
-- The loop over `re.exec`: units where no match begins are passed over, and a match is recorded.
use hackathon.Common.{
  ℕ, zero, suc, ◌+◌, ◌-◌, Bool, false, [], ◌∷◌, ◌++◌, ◌≡◌, refl, ap, arith, Str, All, length,
}
use hackathon.Regex.Fails.{at_after, matches-unit_fails}
use hackathon.Regex.First.{First, first}
use hackathon.Regex.{
  Regex, Cursor, cursor, unit, seq, matches, exec_all_from, exec_all, exec, exec_from,
}

pub exec_all_from-skip :
    (r : Regex) (at : ℕ) (w s : Str)
    → exec_all_from r at (length w) (w ++ s) ≡ exec_all_from r (at_after at w) zero s
unfolding exec_all_from
exec_all_from-skip r at [] s = refl
exec_all_from-skip r at (c ∷ w) s = exec_all_from-skip r (suc at) w s

-- No match of the pattern begins at the unit, whatever follows it.
abbrev pub Refuses : Regex → ℕ → Type 0
Refuses r c = (at : ℕ) (s : Str) → matches r (cursor at (c ∷ s) []) ≡ []

pub exec_all_from-pass :
    (r : Regex) (at : ℕ) (w s : Str)
    → All (Refuses r) w
    → exec_all_from r at zero (w ++ s) ≡ exec_all_from r (at_after at w) zero s
unfolding exec_all_from
exec_all_from-pass r at [] s h = refl
exec_all_from-pass r at (c ∷ w) s h =
    rw (h.0 at (w ++ s), exec_all_from) (exec_all_from-pass r (suc at) w s h.1)

-- A match that ends before `s`, `length w` units after its first unit.
pub exec_all_from-match :
    (r : Regex) (at c : ℕ) (w s text : Str) {t : Cursor}
    → First r (cursor at (c ∷ text) []) t
    → text ≡ w ++ s
    → t.at ≡ suc at + length w
    → exec_all_from r at zero (c ∷ text) ≡ t ∷ exec_all_from r (at_after (suc at) w) zero s
unfolding exec_all_from
exec_all_from-match r at c w s text {t} (first others e) split ends =
    let run : t.at - suc at ≡ length w = omega arith in
    rw (e, exec_all_from) (rw (run, split) (ap (◌∷◌ t) (exec_all_from-skip r (suc at) w s)))

pub seq_unit-Refuses : (p : ℕ → Bool) (r : Regex) (c : ℕ) → p c ≡ false → Refuses (seq (unit p) r) c
seq_unit-Refuses p r c h at s = matches-unit_fails p r at (c ∷ s) [] h

pub exec_all_from-nil : (r : Regex) (at : ℕ) → exec_all_from r at zero [] ≡ []
unfolding exec_all_from
exec_all_from-nil r at = refl

pub exec_all_lem : (r : Regex) (s : Str) → exec_all r s ≡ exec_all_from r 0 zero s
unfolding exec_all
exec_all_lem r s = refl

pub exec_lem : (r : Regex) (s : Str) → exec r s ≡ exec_from r 0 s
unfolding exec
exec_lem r s = refl
