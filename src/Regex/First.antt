-- ===== src/Regex/First.antt =====
-- The match that backtracking finds first, composed part by part.
use hackathon.Common.{
  ℕ, suc, ◌+◌, ◌-◌, Bool, true, some, List, [], ◌∷◌, ◌++◌, ◌≡◌, refl, arith, Str, All, length, take,
}
use hackathon.Regex.{
  Regex, Cursor, unit, start, end, seq, star, group, cursor, capture, star_from, each, capture_all,
  matches, exec_from,
}
use hackathon.Regex.Fails.{Stops, at_after}

pub data First (r : Regex) (m t : Cursor) : Type 0 where
  first : (others : List Cursor) → matches r m ≡ t ∷ others → First r m t

pub First-unit :
    (p : ℕ → Bool) (at c : ℕ) (s : Str) (g : List (ℕ × Str))
    → p c ≡ true
    → First (unit p) (cursor at (c ∷ s) g) (cursor (suc at) s g)
unfolding matches
First-unit p at c s g h = first [] (rw h)

pub First-seq : (a b : Regex) {m t u : Cursor} → First a m t → First b t u → First (seq a b) m u
unfolding matches
First-seq a b (first xs e) (first ys f) = first (ys ++ each xs (matches b)) (rw e (rw f))

star_from-first :
    (p : ℕ → Bool) (at : ℕ) (w s : Str) (g : List (ℕ × Str))
    → All (λ c. p c ≡ true) w
    → Stops p s
    → (others : List Cursor) × (star_from p at (w ++ s) g ≡ cursor (at_after at w) s g ∷ others)
unfolding star_from
star_from-first p at [] [] g h k = ([], refl)
star_from-first p at [] (c ∷ s) g h k = ([], rw k)
star_from-first p at (c ∷ w) s g h k =
    let (others, e) = star_from-first p (suc at) w s g h.1 k in
    (others ++ cursor at (c ∷ (w ++ s)) g ∷ [], rw (h.0, e))

pub First-star :
    (p : ℕ → Bool) (at : ℕ) (w s : Str) (g : List (ℕ × Str))
    → All (λ c. p c ≡ true) w
    → Stops p s
    → First (star p) (cursor at (w ++ s) g) (cursor (at_after at w) s g)
unfolding matches
First-star p at w s g h k = let (others, e) = star_from-first p at w s g h k in first others e

pub First-group :
    (n : ℕ) (r : Regex) {m t : Cursor} → First r m t → First (group n r) m (capture n m t)
unfolding matches
First-group n r {m} (first xs e) = first (capture_all n m xs) (rw e)

pub First-end : (at : ℕ) (g : List (ℕ × Str)) → First end (cursor at [] g) (cursor at [] g)
unfolding matches
First-end at g = first [] refl

pub First-start : (s : Str) (g : List (ℕ × Str)) → First start (cursor 0 s g) (cursor 0 s g)
unfolding matches
First-start s g = first [] refl

pub First-plus :
    (p : ℕ → Bool) (at c : ℕ) (w s : Str) (g : List (ℕ × Str))
    → All (λ x. p x ≡ true) (c ∷ w)
    → Stops p s
    → First (seq (unit p) (star p)) (cursor at (c ∷ (w ++ s)) g) (cursor (at_after at (c ∷ w)) s g)
First-plus p at c w s g h k =
    First-seq (unit p) (star p) (First-unit p at c (w ++ s) g h.0)
      (First-star p (suc at) w s g h.1 k)

pub at_after-add : (at : ℕ) (w : Str) → at_after at w ≡ at + length w
at_after-add at [] = omega arith
at_after-add at (c ∷ w) = omega (arith, at_after-add (suc at) w)

pub take-length {ℓ} : {A : Type ℓ} (w s : List A) → take (length w) (w ++ s) ≡ w
take-length [] s = refl
take-length (x ∷ w) s = rw (take-length w s)

-- What a group captures is the text that its part of the pattern ran over.
pub capture_text :
    (n at : ℕ) (w s : Str) (g : List (ℕ × Str))
    → capture n (cursor at (w ++ s) g) (cursor (at_after at w) s g)
      ≡ cursor (at_after at w) s ((n, w) ∷ g)
capture_text n at w s g =
    let gone : at_after at w - at ≡ length w = omega (arith, at_after-add at w) in
    rw (gone, take-length w s)

-- A group runs over a text `w` and captures it.
pub captures :
    (n : ℕ) (r : Regex) (at : ℕ) (w s : Str) (g : List (ℕ × Str))
    → First r (cursor at (w ++ s) g) (cursor (at_after at w) s g)
    → First (group n r) (cursor at (w ++ s) g) (cursor (at_after at w) s ((n, w) ∷ g))
captures n r at w s g h = rw (← capture_text n at w s g) (First-group n r h)

pub exec_from-First :
    (r : Regex) (at c : ℕ) (s : Str) {t : Cursor}
    → First r (cursor at (c ∷ s) []) t
    → exec_from r at (c ∷ s) ≡ some t
unfolding exec_from
exec_from-First r at c s (first others e) = rw (exec_from, e)
