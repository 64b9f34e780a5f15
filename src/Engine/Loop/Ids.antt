-- ===== src/Engine/Loop/Ids.antt =====
-- The ids that `SearchTerm` of engine/internal/search/query.go has seen, and the messages at them.
use hackathon.Common.{
  take, length, ℕ, zero, suc, ◌<◌, ◌≢◌, true, false, List, [], ◌∷◌, ◌≡◌, refl, sym, ap, ◌∙◌, ◌⊎◌,
  inl, inr, Option, none, some, map, All, In, Bool-cases, arith,
}
use hackathon.Engine.Keys.{Bytes, LogId}
use hackathon.Engine.Find.{same_id, has_id}
use hackathon.Engine.Find.Listed.{fresh}
use hackathon.Engine.Items.{Log, id_of}
use hackathon.Engine.Loop.Written.{message_of, same_id_iff}

-- No two ids are the same.
abbrev pub DistinctIds : List LogId → Type 0
DistinctIds [] = Unit
DistinctIds (i ∷ ids) = (has_id i ids ≡ false) × DistinctIds ids

pub In-has_id : (l : Log) (ls : List Log) → In l ls → has_id (id_of l) (map id_of ls) ≡ true
unfolding has_id
In-has_id l [] m = elim m [ ]
In-has_id l (x ∷ ls) (inl e) = ground (arith, same_id_iff (id_of l) (id_of x), ap id_of e)
In-has_id l (x ∷ ls) (inr m) = ground (arith, In-has_id l ls m)

taken_twice :
    (x l : Log) (ls : List Log)
    → has_id (id_of x) (map id_of ls) ≡ false
    → In l ls
    → id_of x ≡ id_of l
    → ⊥
taken_twice x l ls new m e = ground (arith, In-has_id l ls m, ap (λ i. has_id i (map id_of ls)) e)

pub same_log :
    (ls : List Log) (l l' : Log)
    → DistinctIds (map id_of ls)
    → In l ls
    → In l' ls
    → id_of l ≡ id_of l'
    → l ≡ l'
same_log [] l l' d m m' e = elim m [ ]
same_log (x ∷ ls) l l' d (inl p) (inl p') e = p ∙ sym p'
same_log (x ∷ ls) l l' d (inl p) (inr m') e =
    absurd (taken_twice x l' ls d.0 m' (ap id_of (sym p) ∙ e))
same_log (x ∷ ls) l l' d (inr m) (inl p') e =
    absurd (taken_twice x l ls d.0 m (ap id_of (sym p') ∙ sym e))
same_log (x ∷ ls) l l' d (inr m) (inr m') e = same_log ls l l' d.1 m m' e

pub found_message :
    (id : LogId) (ls : List Log) (o : Option Bytes) (m : Bytes)
    → message_of id ls o ≡ some m
    → (o ≡ some m) ⊎ ((l : Log) × (In l ls) × (id_of l ≡ id) × (m ≡ l.message))
unfolding message_of
found_message id [] o m e = inl e
found_message id (l ∷ ls) o m e = elim (found_message id ls _ m e) [
  | inr (l', ml, same, text) ↦ inr (l', inr ml, same, text)
  | inl here ↦ elim (Bool-cases (same_id (id_of l) id)) [
    | inl same ↦ inr (l, inl refl, (same_id_iff (id_of l) id).0 same, ground arith)
    | inr other ↦ inl (rw other at here)
  ]
]

message_kept :
    (id : LogId) (ls : List Log) (o : Option Bytes) → o ≢ none → message_of id ls o ≢ none
unfolding message_of
message_kept id [] o h = h
message_kept id (l ∷ ls) o h = message_kept id ls _ (ground arith)

pub message_there :
    (l : Log) (ls : List Log) (o : Option Bytes) → In l ls → message_of (id_of l) ls o ≢ none
unfolding message_of
message_there l [] o m = elim m [ ]
message_there l (x ∷ ls) o (inl e) =
    message_kept (id_of l) ls _ (ground (arith, same_id_iff (id_of x) (id_of l), ap id_of e))
message_there l (x ∷ ls) o (inr m) = message_there l ls _ m

has_id-fresh :
    (i : LogId) (seen ids : List LogId) → has_id i seen ≡ true → has_id i (fresh seen ids) ≡ false
unfolding has_id fresh
has_id-fresh i seen [] h = refl
has_id-fresh i seen (j ∷ ids) h = elim (Bool-cases (has_id j seen)) [
  | inl old ↦ rw old (has_id-fresh i seen ids h)
  | inr new ↦ rw new (
      ground (
        arith,
        has_id-fresh i (j ∷ seen) ids (ground arith),
        same_id_iff i j,
        λ (e : i ≡ j). ap (λ k. has_id k seen) e,
      ))
]

pub DistinctIds-fresh : (seen ids : List LogId) → DistinctIds (fresh seen ids)
unfolding fresh has_id
DistinctIds-fresh seen [] = tt
DistinctIds-fresh seen (i ∷ ids) = elim (Bool-cases (has_id i seen)) [
  | inl old ↦ rw old (DistinctIds-fresh seen ids)
  | inr new ↦ rw new (
    has_id-fresh i (i ∷ seen) ids (ground (arith, same_id_iff i i)),
    DistinctIds-fresh (i ∷ seen) ids,
  )
]

pub All-fresh : (P : LogId → Type 0) (seen ids : List LogId) → All P ids → All P (fresh seen ids)
unfolding fresh
All-fresh P seen [] h = tt
All-fresh P seen (i ∷ ids) h = elim (Bool-cases (has_id i seen)) [
  | inl old ↦ rw old (All-fresh P seen ids h.1)
  | inr new ↦ rw new (h.0, All-fresh P (i ∷ seen) ids h.1)
]

pub In-fresh :
    (i : LogId) (seen ids : List LogId) → In i ids → has_id i seen ≡ false → In i (fresh seen ids)
unfolding fresh has_id
In-fresh i seen [] m h = elim m [ ]
In-fresh i seen (j ∷ ids) (inl e) h = rw (ap (λ k. has_id k seen) (sym e) ∙ h) (inl e)
In-fresh i seen (j ∷ ids) (inr m) h = elim (Bool-cases (has_id j seen)) [
  | inl old ↦ rw old (In-fresh i seen ids m h)
  | inr new ↦ rw new (elim (Bool-cases (same_id i j)) [
    | inl same ↦ inl ((same_id_iff i j).0 same)
    | inr other ↦ inr (In-fresh i (j ∷ seen) ids m (rw (other, h) refl))
  ])
]

pub map-take :
    {A B : Type 0} (f : A → B) (n : ℕ) (xs : List A) → take n (map f xs) ≡ map f (take n xs)
map-take f zero xs = refl
map-take f (suc n) [] = refl
map-take f (suc n) (x ∷ xs) = ap (◌∷◌ (f x)) (map-take f n xs)

pub All-take : {A : Type 0} (P : A → Type 0) (n : ℕ) (xs : List A) → All P xs → All P (take n xs)
All-take P zero xs h = tt
All-take P (suc n) [] h = tt
All-take P (suc n) (x ∷ xs) h = (h.0, All-take P n xs h.1)

has_id-take :
    (i : LogId) (n : ℕ) (ls : List Log)
    → has_id i (map id_of ls) ≡ false
    → has_id i (map id_of (take n ls)) ≡ false
unfolding has_id
has_id-take i zero ls h = refl
has_id-take i (suc n) [] h = refl
has_id-take i (suc n) (l ∷ ls) h = ground (arith, has_id-take i n ls)

pub DistinctIds-take :
    (n : ℕ) (ls : List Log) → DistinctIds (map id_of ls) → DistinctIds (map id_of (take n ls))
DistinctIds-take zero ls d = tt
DistinctIds-take (suc n) [] d = tt
DistinctIds-take (suc n) (l ∷ ls) d = (has_id-take (id_of l) n ls d.0, DistinctIds-take n ls d.1)

pub take-whole : {A : Type 0} (n : ℕ) (xs : List A) → length (take n xs) < n → take n xs ≡ xs
take-whole zero xs h = absurd (omega arith)
take-whole (suc n) [] h = refl
take-whole (suc n) (x ∷ xs) h = ap (◌∷◌ x) (take-whole n xs (omega arith))
