-- ===== src/Engine/Db/Memory.antt =====
-- A database that meets what the engine relies on: the puts in their order, listed by a sort.
use hackathon.Common.{
  ◌≢◌, Bool, true, false, List, [], ◌∷◌, ◌++◌, ◌≡◌, refl, sym, ap, subst, ◌∙◌, inl, inr, none, All,
  All-map, In, arith, str_eq, str_eq_iff, ◌==◌, Bool-cases, if◌then◌else◌, ◌&&◌,
}
use hackathon.Engine.Keys.{Bytes}
use hackathon.Engine.Keys.Order.{bytes_less}
use hackathon.Engine.Db.{LevelDb, IsLawful, Put, get_after, IsAscending}
use hackathon.Engine.Db.Batches.{get_after-append, key_written, written_key}

bytes_less_trans :
    (s t u : Bytes) → bytes_less s t ≡ true → bytes_less t u ≡ true → bytes_less s u ≡ true
unfolding bytes_less
bytes_less_trans s [] u p q = cc
bytes_less_trans s t [] p q = cc
bytes_less_trans [] (y ∷ t) (z ∷ u) p q = refl
bytes_less_trans (x ∷ s) (y ∷ t) (z ∷ u) p q = ground (arith, bytes_less_trans s t u)

bytes_less_total :
    (s t : Bytes) → bytes_less s t ≡ false → str_eq s t ≡ false → bytes_less t s ≡ true
unfolding bytes_less str_eq
bytes_less_total [] [] p q = cc
bytes_less_total (x ∷ s) [] p q = refl
bytes_less_total [] (y ∷ t) p q = cc
bytes_less_total (x ∷ s) (y ∷ t) p q = ground (arith, bytes_less_total s t)

unfoldable pub insert : Bytes → List Bytes → List Bytes
unfolding bytes_less
insert k [] = k ∷ []
insert k (j ∷ ks) =
    if bytes_less k j then k ∷ j ∷ ks else if str_eq k j then j ∷ ks else j ∷ insert k ks

unfoldable pub starts_with : Bytes → Bytes → Bool
starts_with [] s = true
starts_with (c ∷ p) [] = false
starts_with (c ∷ p) (d ∷ s) = c == d && starts_with p s

unfoldable pub keys_in : Bytes → List Put → List Bytes
unfolding insert starts_with
keys_in prefix [] = []
keys_in prefix (p ∷ d) =
    if starts_with prefix p.key then insert p.key (keys_in prefix d) else keys_in prefix d

insert-All :
    (P : Bytes → Type 0) (k : Bytes) (ks : List Bytes) → P k → All P ks → All P (insert k ks)
unfolding insert
insert-All P k [] h hs = (h, tt)
insert-All P k (j ∷ ks) h hs = elim (Bool-cases (bytes_less k j)) [
  | inl first ↦ rw first (h, hs)
  | inr behind ↦ rw behind (elim (Bool-cases (str_eq k j)) [
    | inl same ↦ rw same hs
    | inr other ↦ rw other (hs.0, insert-All P k ks h hs.1)
  ])
]

insert-IsAscending : (k : Bytes) (ks : List Bytes) → IsAscending ks → IsAscending (insert k ks)
unfolding insert
insert-IsAscending k [] h = (tt, tt)
insert-IsAscending k (j ∷ ks) h = elim (Bool-cases (bytes_less k j)) [
  | inl first ↦ rw first (
    (first, All-map (λ i. bytes_less k i ≡ true) (λ i p. bytes_less_trans k j i first p) ks h.0),
    h,
  )
  | inr behind ↦ rw behind (elim (Bool-cases (str_eq k j)) [
    | inl same ↦ rw same h
    | inr other ↦ rw other (
      insert-All (λ i. bytes_less j i ≡ true) k ks (bytes_less_total k j behind other) h.0,
      insert-IsAscending k ks h.1,
    )
  ])
]

In-insert_self : (k : Bytes) (ks : List Bytes) → In k (insert k ks)
unfolding insert
In-insert_self k [] = inl refl
In-insert_self k (j ∷ ks) = elim (Bool-cases (bytes_less k j)) [
  | inl first ↦ rw first (inl refl)
  | inr behind ↦ rw behind (elim (Bool-cases (str_eq k j)) [
    | inl same ↦ rw same (inl ((str_eq_iff k j).0 same))
    | inr other ↦ rw other (inr (In-insert_self k ks))
  ])
]

later : (i j : Bytes) (ks ls : List Bytes) → In i (j ∷ ks) → (In i ks → In i ls) → In i (j ∷ ls)
later i j ks ls (inl e) f = inl e
later i j ks ls (inr m) f = inr (f m)

In-insert : (i k : Bytes) (ks : List Bytes) → In i ks → In i (insert k ks)
unfolding insert
In-insert i k [] m = elim m [ ]
In-insert i k (j ∷ ks) m = elim (Bool-cases (bytes_less k j)) [
  | inl first ↦ rw first (inr m)
  | inr behind ↦ rw behind (elim (Bool-cases (str_eq k j)) [
    | inl same ↦ rw same m
    | inr other ↦ rw other (later i j ks (insert k ks) m (λ n. In-insert i k ks n))
  ])
]

keys_in-All :
    (P : Bytes → Type 0) (prefix : Bytes) (d : List Put)
    → ((p : Put) → In p d → starts_with prefix p.key ≡ true → P p.key)
    → All P (keys_in prefix d)
unfolding keys_in
keys_in-All P prefix [] f = tt
keys_in-All P prefix (p ∷ d) f =
    let rest = keys_in-All P prefix d (λ q m h. f q (inr m) h) in
    elim (Bool-cases (starts_with prefix p.key)) [
      | inl fits ↦ rw fits (insert-All P p.key (keys_in prefix d) (f p (inl refl) fits) rest)
      | inr other ↦ rw other rest
    ]

keys_in-IsAscending : (prefix : Bytes) (d : List Put) → IsAscending (keys_in prefix d)
unfolding keys_in
keys_in-IsAscending prefix [] = tt
keys_in-IsAscending prefix (p ∷ d) = elim (Bool-cases (starts_with prefix p.key)) [
  | inl fits ↦ rw fits (insert-IsAscending p.key (keys_in prefix d) (keys_in-IsAscending prefix d))
  | inr other ↦ rw other (keys_in-IsAscending prefix d)
]

In-keys_in :
    (prefix : Bytes) (p : Put) (d : List Put)
    → In p d
    → starts_with prefix p.key ≡ true
    → In p.key (keys_in prefix d)
unfolding keys_in
In-keys_in prefix p [] m h = elim m [ ]
In-keys_in prefix p (q ∷ d) (inl e) h = rw (ap (λ r. starts_with prefix r.key) (sym e) ∙ h) (
    subst (λ r. In r.key (insert q.key (keys_in prefix d))) (sym e)
      (In-insert_self q.key (keys_in prefix d)))
In-keys_in prefix p (q ∷ d) (inr m) h = elim (Bool-cases (starts_with prefix q.key)) [
  | inl fits ↦ rw fits (In-insert p.key q.key (keys_in prefix d) (In-keys_in prefix p d m h))
  | inr other ↦ rw other (In-keys_in prefix p d m h)
]

starts_with-rest : (p s : Bytes) → starts_with p s ≡ true → (r : Bytes) × (s ≡ p ++ r)
unfolding starts_with
starts_with-rest [] s h = (s, refl)
starts_with-rest (c ∷ p) [] h = cc
starts_with-rest (c ∷ p) (d ∷ s) h =
    let (r, e) = starts_with-rest p s (ground arith) in (r, ground (arith, e))

starts_with-front : (p s : Bytes) → starts_with p (p ++ s) ≡ true
unfolding starts_with
starts_with-front [] s = refl
starts_with-front (c ∷ p) s = ground (arith, starts_with-front p s)

abbrev pub memory_db : LevelDb
memory_db = record {
  Db = List Put;
  empty = [];
  get = λ d k. get_after d k none;
  write = λ d batch. d ++ batch;
  keys = λ d prefix. keys_in prefix d;
  iter_error = λ d prefix. none;
}

put_there :
    (d : List Put) (k : Bytes) → get_after d k none ≢ none → (p : Put) × (In p d) × (p.key ≡ k)
put_there d k there = elim (written_key d k none there) [
  | inl nothing ↦ absurd (nothing refl)
  | inr found ↦ found
]

pub memory_db-IsLawful : IsLawful memory_db
unfolding get_after
memory_db-IsLawful = record {
  get-empty = λ k. refl;
  get-write = λ d batch k. get_after-append d batch k none;
  keys_present = λ d prefix.
      keys_in-All (λ k. get_after d k none ≢ none) prefix d (λ p m h. key_written d p none m);
  keys_prefixed = λ d prefix.
      keys_in-All (λ k. (s : Bytes) × (k ≡ prefix ++ s)) prefix d
        (λ p m h. starts_with-rest prefix p.key h);
  keys_ascending = λ d prefix. keys_in-IsAscending prefix d;
  keys_complete = λ d prefix s there.
      let (p, m, e) = put_there d (prefix ++ s) there in
      inl (
        subst (λ k. In k (keys_in prefix d)) e
          (In-keys_in prefix p d m (ap (starts_with prefix) e ∙ starts_with-front prefix s)));
}
