-- ===== src/Common/Members.antt =====
-- Membership in a list, with the place kept.
use mathlib.Core.Path.{◌≡◌, refl, ap, sym, subst, ◌∙◌}
use mathlib.Core.Logic.{◌⊎◌, inl, inr}
use mathlib.Core.Bool.{Bool, true, false}
use mathlib.Core.List.{List, [], ◌∷◌, ◌++◌, map}
use hackathon.Common.Tests.{if◌then◌else◌, Bool-cases}
use hackathon.Common.Lists.{All, filter}

module _ {A : Type 0} where
  abbrev pub In : A → List A → Type 0
  In a [] = ⊥
  In a (x ∷ xs) = (a ≡ x) ⊎ In a xs

  pub In-append_left : (a : A) (xs ys : List A) → In a xs → In a (xs ++ ys)
  In-append_left a [] ys m = elim m [ ]
  In-append_left a (x ∷ xs) ys (inl e) = inl e
  In-append_left a (x ∷ xs) ys (inr m) = inr (In-append_left a xs ys m)

  pub In-append_right : (a : A) (xs ys : List A) → In a ys → In a (xs ++ ys)
  In-append_right a [] ys m = m
  In-append_right a (x ∷ xs) ys m = inr (In-append_right a xs ys m)

  pub In-append : (a : A) (xs ys : List A) → In a (xs ++ ys) → In a xs ⊎ In a ys
  In-append a [] ys m = inr m
  In-append a (x ∷ xs) ys (inl e) = inl (inl e)
  In-append a (x ∷ xs) ys (inr m) = elim (In-append a xs ys m) [
    | inl left ↦ inl (inr left)
    | inr right ↦ inr right
  ]

  pub All-lookup {κ} : (P : A → Type κ) (a : A) (xs : List A) → All P xs → In a xs → P a
  All-lookup P a [] h m = elim m [ ]
  All-lookup P a (x ∷ xs) h (inl e) = subst P (sym e) h.0
  All-lookup P a (x ∷ xs) h (inr m) = All-lookup P a xs h.1 m

  pub In-filter : (p : A → Bool) (a : A) (xs : List A) → In a xs → p a ≡ true → In a (filter p xs)
  In-filter p a [] m h = elim m [ ]
  In-filter p a (x ∷ xs) (inl e) h = rw (sym (ap p e) ∙ h) (inl e)
  In-filter p a (x ∷ xs) (inr m) h =
      elim (p x) as (λ b. In a (if b then x ∷ filter p xs else filter p xs)) [
        | true ↦ inr (In-filter p a xs m h)
        | false ↦ In-filter p a xs m h
      ]

  pub filter-In : (p : A → Bool) (a : A) (xs : List A) → In a (filter p xs) → In a xs × (p a ≡ true)
  filter-In p a [] m = elim m [ ]
  filter-In p a (x ∷ xs) m = elim (Bool-cases (p x)) [
    | inl kept ↦
        let m' : In a (x ∷ filter p xs) = rw kept at m in
        elim m' [
          | inl e ↦ (inl e, ap p e ∙ kept)
          | inr behind ↦ let (n, h) = filter-In p a xs behind in (inr n, h)
        ]
    | inr lost ↦ let (n, h) = filter-In p a xs (rw lost at m) in (inr n, h)
  ]

pub In-map : {A B : Type 0} (f : A → B) (a : A) (xs : List A) → In a xs → In (f a) (map f xs)
In-map f a [] m = elim m [ ]
In-map f a (x ∷ xs) (inl e) = inl (ap f e)
In-map f a (x ∷ xs) (inr m) = inr (In-map f a xs m)

pub map-In :
    {A B : Type 0} (f : A → B) (b : B) (xs : List A)
    → In b (map f xs)
    → (a : A) × (In a xs) × (b ≡ f a)
map-In f b [] m = elim m [ ]
map-In f b (x ∷ xs) (inl e) = (x, inl refl, e)
map-In f b (x ∷ xs) (inr m) = let (a, m', e) = map-In f b xs m in (a, inr m', e)
