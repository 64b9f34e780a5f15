-- ===== src/Regex/Moves.antt =====
-- Where matches end: ahead of where they were tried, and farther, if the pattern matches no empty
-- text.
use hackathon.Common.{
  ℕ, suc, ◌+◌, ◌<◌, Bool, true, false, some, List, [], ◌∷◌, ◌++◌, ◌≡◌, refl, sym, ap, ◌∙◌, arith,
  Str, length, All, All-map, All-append, append_assoc, length-append, ◌==◌, if◌then◌else◌,
}
use hackathon.Regex.{
  Regex, Cursor, cursor, capture, empty, unit, start, end, seq, alt, star, lazy, group, star_from,
  lazy_from, each, capture_all, matches, match_unit, is_nil, first_of_list,
}

-- What is between two cursors.
abbrev pub Ahead : Cursor → Cursor → Type 0
Ahead m t = (w : Str) × (m.rest ≡ w ++ t.rest) × (t.at ≡ m.at + length w)

pub Ahead-refl : (m : Cursor) → Ahead m m
Ahead-refl m = ([], refl, omega arith)

Ahead-trans : (m t u : Cursor) → Ahead m t → Ahead t u → Ahead m u
Ahead-trans m t u (w, e, a) (v, f, b) = (
  w ++ v,
  e ∙ ap (λ x. w ++ x) f ∙ sym (append_assoc w v u.rest),
  omega (arith, a, b, length-append w v),
)

All-each :
    (P Q : Cursor → Type 0) (ts : List Cursor) (f : Cursor → List Cursor)
    → All P ts
    → ((t : Cursor) → P t → All Q (f t))
    → All Q (each ts f)
unfolding each
All-each P Q [] f h k = tt
All-each P Q (t ∷ ts) f (h, hs) k = All-append Q (f t) (each ts f) (k t h) (All-each P Q ts f hs k)

step-Ahead :
    (at c : ℕ) (s : Str) (g : List (ℕ × Str)) (t : Cursor)
    → Ahead (cursor (suc at) s g) t
    → Ahead (cursor at (c ∷ s) g) t
step-Ahead at c s g t (w, e, a) = (c ∷ w, ap (◌∷◌ c) e, omega (arith, a))

All-if :
    (P : Cursor → Type 0) (b : Bool) (ts us : List Cursor)
    → All P ts
    → All P us
    → All P (if b then ts else us)
All-if P true ts us h k = h
All-if P false ts us h k = k

module _ (p : ℕ → Bool) where
  star_from-Ahead :
      (at : ℕ) (s : Str) (g : List (ℕ × Str)) → All (Ahead (cursor at s g)) (star_from p at s g)
  unfolding star_from
  star_from-Ahead at [] g = (Ahead-refl (cursor at [] g), tt)
  star_from-Ahead at (c ∷ s) g =
      let m = cursor at (c ∷ s) g in
      let rest = All-map (Ahead m) (step-Ahead at c s g) _ (star_from-Ahead (suc at) s g) in
      let stay : All (Ahead m) (m ∷ []) = (Ahead-refl m, tt) in
      All-if (Ahead m) (p c) _ _ (All-append (Ahead m) _ (m ∷ []) rest stay) stay

  lazy_from-Ahead :
      (at : ℕ) (s : Str) (g : List (ℕ × Str)) → All (Ahead (cursor at s g)) (lazy_from p at s g)
  unfolding lazy_from
  lazy_from-Ahead at [] g = (Ahead-refl (cursor at [] g), tt)
  lazy_from-Ahead at (c ∷ s) g =
      let m = cursor at (c ∷ s) g in
      let rest = All-map (Ahead m) (step-Ahead at c s g) _ (lazy_from-Ahead (suc at) s g) in
      (Ahead-refl m, All-if (Ahead m) (p c) _ [] rest tt)

  match_unit-Ahead :
      (at : ℕ) (s : Str) (g : List (ℕ × Str))
      → All (λ t. Ahead (cursor at s g) t × (at < t.at)) (match_unit p at s g)
  match_unit-Ahead at [] g = tt
  match_unit-Ahead at (c ∷ s) g =
      All-if _ (p c) (cursor (suc at) s g ∷ []) []
        (
          (
            step-Ahead at c s g (cursor (suc at) s g) (Ahead-refl (cursor (suc at) s g)),
            omega arith,
          ),
          tt,
        )
        tt

All-capture :
    (P : Cursor → Type 0) (n : ℕ) (m : Cursor) (ts : List Cursor)
    → ((t : Cursor) → P t → P (capture n m t))
    → All P ts
    → All P (capture_all n m ts)
unfolding capture_all
All-capture P n m [] f h = tt
All-capture P n m (t ∷ ts) f (h, hs) = (f t h, All-capture P n m ts f hs)

-- A match lies ahead of where it was tried.
pub matches-Ahead : (r : Regex) (m : Cursor) → All (Ahead m) (matches r m)
unfolding matches
matches-Ahead empty m = (Ahead-refl m, tt)
matches-Ahead (unit p) m =
    All-map (Ahead m) (λ t h. h.0) _ (match_unit-Ahead p m.at m.rest m.groups)
matches-Ahead start m = All-if (Ahead m) (m.at == 0) (m ∷ []) [] (Ahead-refl m, tt) tt
matches-Ahead end m = All-if (Ahead m) (is_nil m.rest) (m ∷ []) [] (Ahead-refl m, tt) tt
matches-Ahead (seq a b) m =
    All-each (Ahead m) (Ahead m) (matches a m) (matches b) (matches-Ahead a m)
      (λ t h. All-map (Ahead m) (λ u k. Ahead-trans m t u h k) (matches b t) (matches-Ahead b t))
matches-Ahead (alt a b) m =
    All-append (Ahead m) (matches a m) (matches b m) (matches-Ahead a m) (matches-Ahead b m)
matches-Ahead (star p) m = star_from-Ahead p m.at m.rest m.groups
matches-Ahead (lazy p) m = lazy_from-Ahead p m.at m.rest m.groups
matches-Ahead (group n r) m = All-capture (Ahead m) n m (matches r m) (λ t h. h) (matches-Ahead r m)

-- No match is empty.
abbrev pub Moves : Regex → Type 0
Moves r = (m : Cursor) → All (λ t. m.at < t.at) (matches r m)

pub unit-Moves : (p : ℕ → Bool) → Moves (unit p)
unfolding matches
unit-Moves p m = All-map (λ t. m.at < t.at) (λ t h. h.1) _ (match_unit-Ahead p m.at m.rest m.groups)

pub seq-Moves : (a b : Regex) → Moves a → Moves (seq a b)
unfolding matches
seq-Moves a b moves m =
    All-each (λ t. m.at < t.at) (λ t. m.at < t.at) (matches a m) (matches b) (moves m)
      (λ t h.
        All-map (λ u. m.at < u.at) (λ u k. omega (arith, h, k.2)) (matches b t) (matches-Ahead b t))

pub group-Moves : (n : ℕ) (r : Regex) → Moves r → Moves (group n r)
unfolding matches
group-Moves n r moves m = All-capture (λ t. m.at < t.at) n m (matches r m) (λ t h. h) (moves m)

pub first-All :
    (P : Cursor → Type 0) (ts : List Cursor) {t : Cursor}
    → first_of_list ts ≡ some t
    → All P ts
    → P t
first-All P [] e h = cc
first-All P (u ∷ ts) e (h, hs) = ground arith
