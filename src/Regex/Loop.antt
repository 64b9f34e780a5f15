-- ===== src/Regex/Loop.antt =====
-- The loop `while ((m = re.exec(s)) !== null)` with the flag g, which goes on at `re.lastIndex`: an
-- empty match would leave it where it is, and the loop would not end.
use hackathon.Common.{
  ℕ, zero, suc, ◌-◌, ◌<◌, Option, none, some, List, [], ◌∷◌, ◌++◌, ◌≡◌, refl, sym, ap, ◌∙◌, arith,
  Str, length, length-append, drop, Option-cases, ◌⊎◌, inl, inr,
}
use hackathon.Regex.{Regex, Cursor, cursor, matches, match_at, exec_from, exec_all_from}
use hackathon.Regex.Fails.{at_after}
use hackathon.Regex.First.{at_after-add}
use hackathon.Regex.Scan.{exec_all_from-skip}
use hackathon.Regex.Moves.{Ahead, Moves, matches-Ahead, first-All}

abbrev cons? : Cursor → Option (List Cursor) → Option (List Cursor)
cons? t none = none
cons? t (some ts) = some (t ∷ ts)

-- `none` is a loop that has not ended within the fuel.
unfoldable pub exec_loop : ℕ → Regex → ℕ → Str → Option (List Cursor)
unfolding exec_from
exec_loop zero r at s = none
exec_loop (suc fuel) r at s = elim (exec_from r at s) [
  | none ↦ some []
  | some t ↦ cons? t (exec_loop fuel r t.at t.rest)
]

nothing-Ahead : (at : ℕ) (t : Cursor) → Ahead (cursor at [] []) t → at < t.at → ⊥
nothing-Ahead at t ([], e, a) lt = omega arith
nothing-Ahead at t (d ∷ w, e, a) lt = cc

module _ (r : Regex) (moves : Moves r) where
  match_at-Ahead :
      (at : ℕ) (s : Str) {t : Cursor}
      → match_at r at s ≡ some t
      → Ahead (cursor at s []) t × (at < t.at)
  match_at-Ahead at s e =
      let m = cursor at s [] in
      (
        first-All (Ahead m) (matches r m) e (matches-Ahead r m),
        first-All (λ u. m.at < u.at) (matches r m) e (moves m),
      )

  exec_from-cons :
      (at c : ℕ) (s : Str) {t : Cursor}
      → match_at r at (c ∷ s) ≡ some t
      → exec_from r at (c ∷ s) ≡ some t
  unfolding exec_from
  exec_from-cons at c s e = rw (e, exec_from) refl

  exec_from-later :
      (at c : ℕ) (s : Str)
      → match_at r at (c ∷ s) ≡ none
      → exec_from r at (c ∷ s) ≡ exec_from r (suc at) s
  unfolding exec_from
  exec_from-later at c s e = rw (e, exec_from) refl

  exec_all_from-later :
      (at c : ℕ) (s : Str)
      → match_at r at (c ∷ s) ≡ none
      → exec_all_from r at zero (c ∷ s) ≡ exec_all_from r (suc at) zero s
  unfolding exec_all_from
  exec_all_from-later at c s e = rw (e, exec_all_from) refl

  exec_all_from-cons :
      (at c : ℕ) (s : Str) {t : Cursor}
      → match_at r at (c ∷ s) ≡ some t
      → exec_all_from r at zero (c ∷ s) ≡ t ∷ exec_all_from r (suc at) (t.at - suc at) s
  unfolding exec_all_from
  exec_all_from-cons at c s e = rw (e, exec_all_from) refl

  -- The rest of the loop is the loop on the rest.
  skip_match :
      (at c : ℕ) (s : Str) (t : Cursor)
      → Ahead (cursor at (c ∷ s) []) t
      → at < t.at
      → (exec_all_from r (suc at) (t.at - suc at) s ≡ exec_all_from r t.at zero t.rest)
        × (length t.rest < suc (length s))
  skip_match at c s t ([], e, a) lt = absurd (omega arith)
  skip_match at c s t (d ∷ w, e, a) lt =
      let split : s ≡ w ++ t.rest = ap (drop 1) e in
      let gone : t.at - suc at ≡ length w = omega arith in
      let reached : at_after (suc at) w ≡ t.at = omega (arith, at_after-add (suc at) w) in
      (
        ap (λ n. exec_all_from r (suc at) n s) gone
            ∙ ap (exec_all_from r (suc at) (length w)) split
            ∙ exec_all_from-skip r (suc at) w t.rest
            ∙ ap (λ n. exec_all_from r n zero t.rest) reached,
        omega (arith, ap length split, length-append w t.rest),
      )

  exec_step :
      (at : ℕ) (s : Str)
      → ((exec_from r at s ≡ none) × (exec_all_from r at zero s ≡ []))
        ⊎ ((t : Cursor) × (exec_from r at s ≡ some t)
            × (exec_all_from r at zero s ≡ t ∷ exec_all_from r t.at zero t.rest)
            × (length t.rest < length s))
  unfolding exec_from exec_all_from
  exec_step at [] = elim (Option-cases (match_at r at [])) [
    | inl e ↦ inl (e, refl)
    | inr (t, e) ↦ let (ahead, lt) = match_at-Ahead at [] e in absurd (nothing-Ahead at t ahead lt)
  ]
  exec_step at (c ∷ s) = elim (Option-cases (match_at r at (c ∷ s))) [
    | inl e ↦ elim (exec_step (suc at) s) [
      | inl (f, g) ↦ inl (exec_from-later at c s e ∙ f, exec_all_from-later at c s e ∙ g)
      | inr (t, f, g, less) ↦
          inr
            (t, exec_from-later at c s e ∙ f, exec_all_from-later at c s e ∙ g, omega (arith, less))
    ]
    | inr (t, e) ↦
        let (ahead, lt) = match_at-Ahead at (c ∷ s) e in
        let (same, less) = skip_match at c s t ahead lt in
        inr (t, exec_from-cons at c s e, exec_all_from-cons at c s e ∙ ap (◌∷◌ t) same, less)
  ]

  -- Fuel beyond the length of the text is enough.
  pub exec_loop-ends :
      (fuel at : ℕ) (s : Str)
      → length s < fuel
      → exec_loop fuel r at s ≡ some (exec_all_from r at zero s)
  unfolding exec_loop
  exec_loop-ends zero at s h = absurd (omega arith)
  exec_loop-ends (suc fuel) at s h = elim (exec_step at s) [
    | inl (f, g) ↦ rw (f, exec_loop) (ap some (sym g))
    | inr (t, f, g, less) ↦
        rw (f, exec_loop)
          (ap (cons? t) (exec_loop-ends fuel t.at t.rest (omega (arith, less))) ∙ ap some (sym g))
  ]
