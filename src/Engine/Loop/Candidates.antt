-- ===== src/Engine/Loop/Candidates.antt =====
-- The logs that `SearchTerm` of engine/internal/search/query.go goes through, in the states of the
-- loop of engine/cmd/server/main.go.
use hackathon.Common.{
  ℕ, ◌<◌, ◌^◌, ◌≢◌, true, false, List, [], ◌∷◌, ◌++◌, append_assoc, ◌≡◌, refl, sym, ap, subst, ◌∙◌,
  inl, inr, Option, none, some, map, drop, filter, All, All-lookup, In, Bool-cases, arith, str_eq,
  str_eq_iff, ltb, if◌then◌else◌,
}
use hackathon.Engine.Keys.{
  Bytes, LogId, IndexKey, encode_index_key, decode_index_key, put_uint64, less64,
}
use hackathon.Engine.Keys.RoundTrip.{IsNonzero, decode_index_key-encode}
use hackathon.Engine.Keys.Order.{bytes_less, encode_index_key-order}
use hackathon.Engine.Db.{IsAscending, get_after}
use hackathon.Engine.Index.{is_within}
use hackathon.Engine.Find.{index_prefix, posting_id}
use hackathon.Engine.Find.Listed.{IsCut, scanned}
use hackathon.Engine.Tokens.{Runes, IsUnicode, IsToken, tokenize, contains, tokenize-IsToken}
use hackathon.Engine.Tokens.Distinct.{IsNonzero-of_token}
use hackathon.Engine.Items.{Log, id_of}
use hackathon.Engine.Loop.History.{History, IsLog, puts_of, has_token, posting_of}
use hackathon.Engine.Loop.Written.{written_index_key}

pub All-zip :
    {A : Type 0} {P Q : A → Type 0} (R : A → Type 0)
    → ((a : A) → P a → Q a → R a)
    → (xs : List A) → All P xs
    → All Q xs
    → All R xs
All-zip R f [] hp hq = tt
All-zip R f (x ∷ xs) hp hq = (f x hp.0 hq.0, All-zip R f xs hp.1 hq.1)

pub contains-In : (t : Bytes) (ts : List Bytes) → (contains t ts ≡ true) → In t ts
unfolding contains
contains-In t [] h = cc
contains-In t (u ∷ ts) h = elim (Bool-cases (str_eq t u)) [
  | inl same ↦ inl ((str_eq_iff t u).0 same)
  | inr other ↦ inr (contains-In t ts (ground arith))
]

In-contains : (t : Bytes) (ts : List Bytes) → In t ts → contains t ts ≡ true
unfolding contains
In-contains t [] m = elim m [ ]
In-contains t (u ∷ ts) (inl e) = ground (arith, str_eq_iff t u)
In-contains t (u ∷ ts) (inr m) = ground (arith, In-contains t ts m)

same_term :
    (t term s r : Bytes)
    → All IsNonzero t
    → All IsNonzero term
    → t ++ 0 ∷ s ≡ term ++ 0 ∷ r
    → t ≡ term
same_term [] [] s r ht hterm e = refl
same_term [] (c ∷ term) s r ht hterm e = ground arith
same_term (c ∷ t) [] s r ht hterm e = ground arith
same_term (c ∷ t) (d ∷ term) s r ht hterm e = ground (arith, same_term t term s r ht.1 hterm.1)

abbrev ts_of : Option IndexKey → ℕ
ts_of none = 0
ts_of (some k) = k.ts

within_parts :
    (start_nano end_nano ts : ℕ)
    → is_within start_nano end_nano ts ≡ true
    → (less64 ts start_nano ≡ false) × (less64 end_nano ts ≡ false)
within_parts start_nano end_nano ts h = ground arith

module _ (runes : Runes) (unicode : IsUnicode runes) (h : History) (logs : All IsLog h.taken)
    (written_taken : All (λ l. In l h.taken) h.written) (term : Bytes)
    (plain : All IsNonzero term) where
  -- The index key of a log that was written and has the term.
  abbrev pub IsIndexKey : Bytes → Type 0
  IsIndexKey k =
      (l : Log) × (In l h.written)
      × (has_token runes term l ≡ true)
      × (k ≡ encode_index_key term l.ts l.stream_id)

  written_log : (l : Log) → In l h.written → IsLog l
  written_log l m =
      All-lookup IsLog l h.taken logs (All-lookup (λ l. In l h.taken) l h.written written_taken m)

  pub IsIndexKey-of :
      (k s : Bytes)
      → k ≡ index_prefix term ++ s
      → get_after (puts_of runes h.written) k none ≢ none
      → IsIndexKey k
  unfolding encode_index_key
  IsIndexKey-of k s prefixed there =
      let (l, t, ml, mt, e) =
        written_index_key runes h.written ((term ++ 0 ∷ []) ++ s)
          (subst (λ k. get_after (puts_of runes h.written) k none ≢ none) prefixed there) in
      let is_token =
        All-lookup IsToken t (tokenize runes l.message) (tokenize-IsToken runes unicode l.message)
          mt in
      let same : t ≡ term =
        same_term t term (put_uint64 l.ts ++ put_uint64 l.stream_id) s
          (IsNonzero-of_token t is_token.bytes) plain
          (ap (drop 1) (sym e) ∙ append_assoc term (0 ∷ []) s) in
      (
        l,
        ml,
        subst (λ u. has_token runes u l ≡ true) same (In-contains t (tokenize runes l.message) mt),
        prefixed ∙ e ∙ ap (λ u. encode_index_key u l.ts l.stream_id) same,
      )

  module _ (start_nano end_nano : ℕ) where
    -- A log that was taken, with the term and in the window.
    abbrev pub IsMatch : Log → Type 0
    IsMatch l =
        (In l h.taken)
        × (has_token runes term l ≡ true)
        × (is_within start_nano end_nano l.ts ≡ true)

    abbrev pub IsMatchId : LogId → Type 0
    IsMatchId id = (l : Log) × (id_of l ≡ id) × IsMatch l

    pub hot-IsMatchId :
        (ls : List Log)
        → All (λ l. In l h.taken) ls
        → All IsMatchId (
            map posting_id (
              filter
                (λ e. is_within start_nano end_nano e.timestamp_nano)
                (map posting_of (filter (has_token runes term) ls))))
    hot-IsMatchId [] m = tt
    hot-IsMatchId (l ∷ ls) m = elim (Bool-cases (has_token runes term l)) [
      | inr lacks ↦ rw lacks (hot-IsMatchId ls m.1)
      | inl has ↦ rw has (elim (Bool-cases (is_within start_nano end_nano l.ts)) [
        | inr outside ↦ rw outside (hot-IsMatchId ls m.1)
        | inl within ↦ rw within ((l, refl, (m.0, has, within)), hot-IsMatchId ls m.1)
      ])
    ]

    scanned-key :
        (k : Bytes) (l : Log) (ks : List Bytes)
        → In l h.written
        → k ≡ encode_index_key term l.ts l.stream_id
        → scanned start_nano end_nano (k ∷ ks) ≡ (
            if less64 l.ts start_nano
            then scanned start_nano end_nano ks
            else if less64 end_nano l.ts
            then []
            else id_of l ∷ scanned start_nano end_nano ks)
    unfolding scanned
    scanned-key k l ks m key =
        let log = written_log l m in
        let ok =
          ap decode_index_key key
          ∙ decode_index_key-encode term l.ts l.stream_id (omega (arith, log.time)) log.stream
              plain in
        rw (ok, scanned) refl

    pub scanned-IsMatchId :
        (ks : List Bytes) → All IsIndexKey ks → All IsMatchId (scanned start_nano end_nano ks)
    unfolding scanned
    scanned-IsMatchId [] hk = tt
    scanned-IsMatchId (k ∷ ks) hk =
        let (l, m, has, key) = hk.0 in
        let rest = scanned-IsMatchId ks hk.1 in
        rw (scanned-key k l ks m key) (elim (Bool-cases (less64 l.ts start_nano)) [
          | inl before ↦ rw before rest
          | inr from ↦ rw from (elim (Bool-cases (less64 end_nano l.ts)) [
            | inl behind ↦ rw behind tt
            | inr until ↦ rw until (
              (
                l,
                refl,
                (
                  All-lookup (λ l. In l h.taken) l h.written written_taken m,
                  has,
                  rw (from, until) refl,
                ),
              ),
              rest,
            )
          ])
        ])

    less64-order :
        (a b : ℕ)
        → a < 2 ^ 63
        → b < 2 ^ 63
        → ltb b a ≡ false
        → less64 end_nano b ≡ false
        → less64 end_nano a ≡ false
    less64-order a b ha hb le within = ground arith

    in_window :
        (l : Log) (ids : List LogId)
        → is_within start_nano end_nano l.ts ≡ true
        → In (id_of l) (
            if less64 l.ts start_nano
            then ids
            else if less64 end_nano l.ts
            then []
            else id_of l ∷ ids)
    in_window l ids within =
        let (from, until) = within_parts start_nano end_nano l.ts within in
        rw (from, until) (inl refl)

    behind_window :
        (l l' : Log) (ids : List LogId)
        → IsLog l
        → IsLog l'
        → is_within start_nano end_nano l.ts ≡ true
        → bytes_less
            (encode_index_key term l'.ts l'.stream_id)
            (encode_index_key term l.ts l.stream_id)
          ≡ true
        → In (id_of l) ids
        → In (id_of l) (
            if less64 l'.ts start_nano
            then ids
            else if less64 end_nano l'.ts
            then []
            else id_of l' ∷ ids)
    behind_window l l' ids log log' within below m =
        let order =
          encode_index_key-order term l'.ts l'.stream_id l.ts l.stream_id (omega (arith, log'.time))
            log'.stream (omega (arith, log.time)) log.stream in
        let (from, until) = within_parts start_nano end_nano l.ts within in
        let until' : less64 end_nano l'.ts ≡ false =
          less64-order l'.ts l.ts log'.time log.time (ground (arith, order, below)) until in
        elim (Bool-cases (less64 l'.ts start_nano)) [
          | inl before ↦ rw before m
          | inr from' ↦ rw (from', until') (inr m)
        ]

    -- No key in front of that of a log in the window is behind the window.
    pub no-IsCut :
        (ks : List Bytes) (l : Log)
        → All IsIndexKey ks
        → In l h.written
        → is_within start_nano end_nano l.ts ≡ true
        → All (λ k. bytes_less k (encode_index_key term l.ts l.stream_id) ≡ true) ks
        → ¬ IsCut start_nano end_nano ks
    no-IsCut ks l hk ml within below (key, m, k, ok, from, late) =
        let (l', ml', has', key') = All-lookup IsIndexKey key ks hk m in
        let log = written_log l ml in
        let log' = written_log l' ml' in
        let less =
          subst (λ j. bytes_less j (encode_index_key term l.ts l.stream_id) ≡ true) key'
            (All-lookup (λ j. bytes_less j (encode_index_key term l.ts l.stream_id) ≡ true) key ks
              below m) in
        let order =
          encode_index_key-order term l'.ts l'.stream_id l.ts l.stream_id (omega (arith, log'.time))
            log'.stream (omega (arith, log.time)) log.stream in
        let decoded =
          sym ok
          ∙ ap decode_index_key key'
          ∙ decode_index_key-encode term l'.ts l'.stream_id (omega (arith, log'.time)) log'.stream
              plain in
        let same : k.ts ≡ l'.ts = ap ts_of decoded in
        let until =
          less64-order l'.ts l.ts log'.time log.time (ground (arith, order, less))
            (within_parts start_nano end_nano l.ts within).1 in
        cc (subst (λ t. less64 end_nano t ≡ true) same late, until)

    -- A key behind one that is behind the window is behind it too, so the loop may end there.
    pub In-scanned :
        (ks : List Bytes) (l : Log)
        → All IsIndexKey ks
        → IsAscending ks
        → In l h.written
        → is_within start_nano end_nano l.ts ≡ true
        → In (encode_index_key term l.ts l.stream_id) ks
        → In (id_of l) (scanned start_nano end_nano ks)
    In-scanned [] l hk asc ml within m = elim m [ ]
    In-scanned (k ∷ ks) l hk asc ml within (inl e) =
        rw (scanned-key k l ks ml (sym e)) (in_window l (scanned start_nano end_nano ks) within)
    In-scanned (k ∷ ks) l hk asc ml within (inr m) =
        let (l', ml', has', key') = hk.0 in
        let below =
          All-lookup (λ j. bytes_less k j ≡ true) (encode_index_key term l.ts l.stream_id) ks asc.0
            m in
        rw (scanned-key k l' ks ml' key') (
          behind_window l l' (scanned start_nano end_nano ks) (written_log l ml)
            (written_log l' ml') within
            (ap (λ j. bytes_less j (encode_index_key term l.ts l.stream_id)) (sym key') ∙ below)
            (In-scanned ks l hk.1 asc.1 ml within m))
