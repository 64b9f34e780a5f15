-- ===== src/Regex/Split.antt =====
-- The pieces of `split`, for an expression that captures what it matches.
use hackathon.Common.{
  ℕ, zero, suc, ◌-◌, ◌≤◌, none, some, List, [], ◌∷◌, ◌++◌, ◌≡◌, refl, ap, ◌∙◌, arith, Str, inl, inr,
  take, drop, take-drop, join, append_assoc, Option-cases,
}
use hackathon.Regex.{Regex, Cursor, match_at, split, split_from, captured_texts}

-- What a match takes, which is not empty, is its only group.
abbrev pub IsWhole : Regex → Type 0
IsWhole r =
    (at c : ℕ) (s : Str) (t : Cursor)
    → match_at r at (c ∷ s) ≡ some t
    → (captured_texts t.groups ≡ take (t.at - at) (c ∷ s) ∷ []) × (suc at ≤ t.at)

module _ (r : Regex) (whole : IsWhole r) where
  step_back : (at u : ℕ) → suc at ≤ u → u - at ≡ suc (u - suc at)
  step_back at u h = omega arith

  split_from-none :
      (at c : ℕ) (piece s : Str)
      → match_at r at (c ∷ s) ≡ none
      → split_from r at zero piece (c ∷ s) ≡ split_from r (suc at) zero (piece ++ c ∷ []) s
  unfolding split_from
  split_from-none at c piece s e = rw (e, split_from) refl

  split_from-some :
      (at c : ℕ) (piece s : Str) (t : Cursor)
      → match_at r at (c ∷ s) ≡ some t
      → split_from r at zero piece (c ∷ s)
        ≡ piece ∷ (captured_texts t.groups ++ split_from r (suc at) (t.at - suc at) [] s)
  unfolding split_from
  split_from-some at c piece s t e = rw (e, split_from) refl

  pieces_whole :
      (at c : ℕ) (piece s : Str) (t : Cursor) (rest : List Str)
      → captured_texts t.groups ≡ take (t.at - at) (c ∷ s) ∷ []
      → suc at ≤ t.at
      → join rest ≡ drop (t.at - suc at) s
      → join (piece ∷ (captured_texts t.groups ++ rest)) ≡ piece ++ c ∷ s
  pieces_whole at c piece s t rest captured later h =
      ap (λ x. join (piece ∷ (x ++ rest))) captured
      ∙ ap (λ n. piece ++ (take n (c ∷ s) ++ join rest)) (step_back at t.at later)
      ∙ ap (λ x. piece ++ (c ∷ (take (t.at - suc at) s ++ x))) h
      ∙ ap (λ x. piece ++ (c ∷ x)) (take-drop (t.at - suc at) s)

  join-split_from :
      (at skip : ℕ) (piece s : Str) → join (split_from r at skip piece s) ≡ piece ++ drop skip s
  unfolding split_from
  join-split_from at zero piece [] = refl
  join-split_from at (suc skip) piece [] = refl
  join-split_from at (suc skip) piece (c ∷ s) = join-split_from (suc at) skip piece s
  join-split_from at zero piece (c ∷ s) = elim (Option-cases (match_at r at (c ∷ s))) [
    | inl e ↦
        ap join (split_from-none at c piece s e)
        ∙ join-split_from (suc at) zero (piece ++ c ∷ []) s
        ∙ append_assoc piece (c ∷ []) s
    | inr (t, e) ↦
        let (captured, later) = whole at c s t e in
        let rest = join-split_from (suc at) (t.at - suc at) [] s in
        ap join (split_from-some at c piece s t e)
        ∙ pieces_whole at c piece s t _ captured later rest
  ]

  pub join-split : (s : Str) → join (split r s) ≡ s
  unfolding split
  join-split s = join-split_from 0 0 [] s
