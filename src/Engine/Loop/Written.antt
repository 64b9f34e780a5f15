-- ===== src/Engine/Loop/Written.antt =====
-- What stands at the keys of engine/internal/storage/schema.go when logs were written.
use hackathon.Common.{
  ℕ, ◌<◌, ◌^◌, ◌≢◌, ◌↔◌, true, List, [], ◌∷◌, ◌++◌, ◌≡◌, refl, sym, ap, ◌∙◌, inl, inr, Option, none,
  some, map, join, In-map, map-In, In-append, In-append_left, In-append_right, All, In, arith,
  str_eq, str_eq_iff, if◌then◌else◌,
}
use hackathon.Engine.Keys.{Bytes, LogId, encode_log_key, encode_index_key, decode_log_key}
use hackathon.Engine.Keys.RoundTrip.{decode_log_key-encode}
use hackathon.Engine.Db.{Put, get_after}
use hackathon.Engine.Find.{same_id}
use hackathon.Engine.Tokens.{Runes, tokenize}
use hackathon.Engine.Items.{Log, id_of}
use hackathon.Engine.Loop.History.{IsLog, puts, puts_of}
use hackathon.Engine.Db.Batches.{get_after-append, key_written, written_key}

-- The message of the last log with an id.
unfoldable pub message_of : LogId → List Log → Option Bytes → Option Bytes
message_of id [] o = o
message_of id (l ∷ ls) o = message_of id ls (if same_id (id_of l) id then some l.message else o)

some_injective : {A : Type 0} (a b : A) → some a ≡ some b → a ≡ b
some_injective a b e = cc

abbrev pub IsId : LogId → Type 0
IsId id = (id.ts < 2 ^ 64) × (id.stream_id < 2 ^ 64)

pub same_id_iff : (i j : LogId) → (same_id i j ≡ true) ↔ (i ≡ j)
unfolding same_id
same_id_iff i j = ground arith

log_key_injective :
    (i j : LogId)
    → IsId i
    → IsId j
    → encode_log_key i.stream_id i.ts ≡ encode_log_key j.stream_id j.ts
    → i ≡ j
log_key_injective i j hi hj e = some_injective i j (
    sym (decode_log_key-encode [] i.ts i.stream_id hi.0 hi.1)
    ∙ ap decode_log_key e
    ∙ decode_log_key-encode [] j.ts j.stream_id hj.0 hj.1)

log_key-eq :
    (i j : LogId)
    → IsId i
    → IsId j
    → str_eq (encode_log_key i.stream_id i.ts) (encode_log_key j.stream_id j.ts) ≡ same_id i j
log_key-eq i j hi hj = ground (
  arith,
  str_eq_iff (encode_log_key i.stream_id i.ts) (encode_log_key j.stream_id j.ts),
  same_id_iff i j,
  log_key_injective i j hi hj,
  λ (e : i ≡ j). ap (λ id. encode_log_key id.stream_id id.ts) e,
)

In-join :
    {A B : Type 0} (f : A → List B) (xs : List A) (a : A) (b : B)
    → In a xs
    → In b (f a)
    → In b (join (map f xs))
In-join f [] a b m n = elim m [ ]
In-join f (x ∷ xs) a b (inl e) n = In-append_left b (f x) (join (map f xs)) (rw e at n)
In-join f (x ∷ xs) a b (inr m) n = In-append_right b (f x) (join (map f xs)) (In-join f xs a b m n)

join-In :
    {A B : Type 0} (f : A → List B) (b : B) (xs : List A)
    → In b (join (map f xs))
    → (a : A) × (In a xs) × (In b (f a))
join-In f b [] m = elim m [ ]
join-In f b (x ∷ xs) m = elim (In-append b (f x) (join (map f xs)) m) [
  | inl here ↦ (x, inl refl, here)
  | inr there ↦ let (a, ma, mb) = join-In f b xs there in (a, inr ma, mb)
]

one_ne_two : (s t : Bytes) → 1 ∷ s ≢ 2 ∷ t
one_ne_two s t = ground arith

module _ (runes : Runes) where
  -- Index keys are not the keys of logs.
  index_puts_other :
      (ts stream_id : ℕ) (tokens : List Bytes) (id : LogId) (o : Option Bytes)
      → get_after
          (map (λ term. record { key = encode_index_key term ts stream_id; value = [] }) tokens)
          (encode_log_key id.stream_id id.ts)
          o
        ≡ o
  unfolding get_after encode_index_key encode_log_key str_eq
  index_puts_other ts stream_id [] id o = refl
  index_puts_other ts stream_id (t ∷ tokens) id o = index_puts_other ts stream_id tokens id o

  pub get_after-message :
      (ls : List Log) (id : LogId) (o : Option Bytes)
      → All IsLog ls
      → IsId id
      → get_after (puts_of runes ls) (encode_log_key id.stream_id id.ts) o ≡ message_of id ls o
  unfolding get_after message_of
  get_after-message [] id o h is_id = refl
  get_after-message (l ∷ ls) id o h is_id =
      let log = h.0 in
      let l_id : IsId (id_of l) = (omega (arith, log.time), log.stream) in
      let index_puts : List Put =
        map (λ term. record { key = encode_index_key term l.ts l.stream_id; value = [] })
          (tokenize runes l.message) in
      let o' = if same_id (id_of l) id then some l.message else o in
      ap
        (λ b.
          get_after (index_puts ++ puts_of runes ls) (encode_log_key id.stream_id id.ts)
            (if b then some l.message else o))
        (log_key-eq (id_of l) id l_id is_id)
      ∙ get_after-append index_puts (puts_of runes ls) (encode_log_key id.stream_id id.ts) o'
      ∙ ap (get_after (puts_of runes ls) (encode_log_key id.stream_id id.ts))
          (index_puts_other l.ts l.stream_id (tokenize runes l.message) id o')
      ∙ get_after-message ls id o' h.1 is_id

  -- Whether anything stands at an index key.
  pub index_key_written :
      (ls : List Log) (l : Log) (t : Bytes)
      → In l ls
      → In t (tokenize runes l.message)
      → get_after (puts_of runes ls) (encode_index_key t l.ts l.stream_id) none ≢ none
  index_key_written ls l t ml mt =
      key_written (puts_of runes ls)
        (record { key = encode_index_key t l.ts l.stream_id; value = [] }) none
        (In-join (puts runes) ls l _ ml (
          inr (
            In-map (λ term. record { key = encode_index_key term l.ts l.stream_id; value = [] }) t
              (tokenize runes l.message) mt)))

  pub written_index_key :
      (ls : List Log) (rest : Bytes)
      → get_after (puts_of runes ls) (2 ∷ rest) none ≢ none
      → (l : Log) × (t : Bytes) × (In l ls)
        × (In t (tokenize runes l.message))
        × (2 ∷ rest ≡ encode_index_key t l.ts l.stream_id)
  unfolding encode_log_key
  written_index_key ls rest there = elim (written_key (puts_of runes ls) (2 ∷ rest) none there) [
    | inl some_before ↦ absurd (some_before refl)
    | inr (p, m, key) ↦
        let (l, ml, mp) = join-In (puts runes) p ls m in
        elim mp [
          | inl e ↦ absurd (one_ne_two _ rest (sym (ap (λ q. q.key) e) ∙ key))
          | inr mt ↦
              let (t, ht, e) = map-In _ p (tokenize runes l.message) mt in
              (l, t, ml, ht, sym key ∙ ap (λ q. q.key) e)
        ]
  ]
