-- ===== src/Query/Normalize/Severity.antt =====
-- The keyword table of `normalizeLogEntry` in web/src/lib/queryParser.js.
use hackathon.Common.{
  ℕ, ◌≤◌, true, false, List, [], ◌∷◌, ◌≡◌, refl, sym, subst, arith, Str, All, All-map, ◌⊎◌, inl,
  inr, Bool-cases, if◌then◌else◌,
}
use hackathon.Query.Normalize.{
  Level, critical, error, warn, info, debug, trace, sev_keywords, includes, lower, detect,
}

-- How severe a level that a keyword stands for is.
abbrev pub rank : Level → ℕ
rank critical = 4
rank error = 3
rank warn = 2
rank info = 0
rank debug = 1
rank trace = 0

-- Some keyword of the list stands in the text and has the level.
abbrev pub Names : List (Str × Level) → Str → Level → Type 0
Names [] s sev = ⊥
Names ((k, l) ∷ ks) s sev = ((includes k s ≡ true) × (l ≡ sev)) ⊎ Names ks s sev

-- No keyword of the list that stands in the text is more severe than the level.
abbrev pub IsWorst : List (Str × Level) → Str → Level → Type 0
IsWorst ks s sev = All (λ p. includes p.0 s ≡ true → rank p.1 ≤ rank sev) ks

abbrev IsSorted : List (Str × Level) → Type 0
IsSorted [] = Unit
IsSorted ((k, l) ∷ ks) = All (λ p. rank p.1 ≤ rank l) ks × IsSorted ks

-- What `detect` answers: a most severe keyword's level, or INFO where there is none.
abbrev pub IsDetected : List (Str × Level) → Str → Level → Type 0
IsDetected ks s sev =
    (Names ks s sev × IsWorst ks s sev) ⊎ (All (λ p. includes p.0 s ≡ false) ks × (sev ≡ info))

IsDetected-here :
    (k s : Str) (l : Level) (ks : List (Str × Level))
    → All (λ p. rank p.1 ≤ rank l) ks
    → includes k s ≡ true
    → IsDetected ((k, l) ∷ ks) s l
IsDetected-here k s l ks below there =
    inl (inl (there, refl), ((λ _. omega arith), All-map _ (λ p b _. b) ks below))

IsDetected-later :
    (k s : Str) (l sev : Level) (ks : List (Str × Level))
    → includes k s ≡ false
    → IsDetected ks s sev
    → IsDetected ((k, l) ∷ ks) s sev
IsDetected-later k s l sev ks gone (inl (named, worst)) = inl (inr named, ((λ e. cc), worst))
IsDetected-later k s l sev ks gone (inr (absent, same)) = inr ((gone, absent), same)

detect_cons :
    (k s : Str) (l : Level) (ks : List (Str × Level))
    → detect ((k, l) ∷ ks) s ≡ (if includes k s then l else detect ks s)
unfolding detect
detect_cons k s l ks = refl

detect-IsDetected :
    (ks : List (Str × Level)) (s : Str) → IsSorted ks → IsDetected ks s (detect ks s)
detect-IsDetected [] s h = inr (tt, unfold detect in refl)
detect-IsDetected ((k, l) ∷ ks) s (below, h) =
    let rest = detect-IsDetected ks s h in
    elim (Bool-cases (includes k s)) [
      | inl there ↦
          let e : detect ((k, l) ∷ ks) s ≡ l = ground (arith, detect_cons k s l ks) in
          subst (IsDetected ((k, l) ∷ ks) s) (sym e) (IsDetected-here k s l ks below there)
      | inr gone ↦
          let e : detect ((k, l) ∷ ks) s ≡ detect ks s = ground (arith, detect_cons k s l ks) in
          subst (IsDetected ((k, l) ∷ ks) s) (sym e) (IsDetected-later k s l _ ks gone rest)
    ]

-- The level of a plain line is that of a keyword in it than which no other keyword in it is more
-- severe, or INFO where none of the nine keywords stands in it.
pub detect_most_severe :
    (message : Str) → IsDetected sev_keywords (lower message) (detect sev_keywords (lower message))
detect_most_severe message = detect-IsDetected sev_keywords (lower message) (omega arith)
