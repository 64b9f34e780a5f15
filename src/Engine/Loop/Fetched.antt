-- ===== src/Engine/Loop/Fetched.antt =====
-- What `fetchLog` of engine/internal/search/query.go finds in the states of the loop of
-- engine/cmd/server/main.go.
use hackathon.Common.{
  ℕ, ◌≢◌, true, false, List, [], ◌∷◌, ◌++◌, append_assoc, ◌≡◌, refl, sym, ap, subst, ◌∙◌, ◌⊎◌, inl,
  inr, Option, none, some, map, All, All-map, All-append, All-lookup, In, In-append_right,
  Option-cases, arith,
}
use hackathon.Engine.Keys.{Bytes, LogId, encode_log_key, encode_index_key, put_uint64}
use hackathon.Engine.Keys.RoundTrip.{IsNonzero}
use hackathon.Engine.Keys.Order.{bytes_less}
use hackathon.Engine.Db.{LevelDb, IsLawful}
use hackathon.Engine.Index.{query, is_within}
use hackathon.Engine.Find.{same_id, has_id, index_prefix, posting_id, message_at}
use hackathon.Engine.Find.Listed.{IsCut, scanned, stored, candidates}
use hackathon.Engine.Tokens.{Runes, IsUnicode, tokenize}
use hackathon.Engine.Items.{Log, id_of}
use hackathon.Engine.Loop.{Engine}
use hackathon.Engine.Loop.History.{History, IsLog, has_token, IsConsistent}
use hackathon.Engine.Loop.Written.{message_of, get_after-message, index_key_written}
use hackathon.Engine.Loop.Candidates.{
  IsIndexKey, IsMatchId, IsIndexKey-of, hot-IsMatchId, scanned-IsMatchId, In-scanned, no-IsCut,
  contains-In, All-zip,
}
use hackathon.Engine.Loop.Ids.{DistinctIds, same_log, found_message, message_there}

-- A log that was written, has the term and lies in the window.
module _ (runes : Runes) (h : History) (term : Bytes) (start_nano end_nano : ℕ) where
  abbrev pub IsAnswer : Log → Type 0
  IsAnswer l =
      (In l h.written)
      × (has_token runes term l ≡ true)
      × (is_within start_nano end_nano l.ts ≡ true)

module _ (level_db : LevelDb) (lawful : IsLawful level_db) (runes : Runes)
    (unicode : IsUnicode runes) where
  open level_db use {Db, get, keys, iter_error}

  module _ (h : History) (e : Engine Db) (c : IsConsistent level_db runes h e)
      (distinct : DistinctIds (map id_of h.taken)) (term : Bytes) (plain : All IsNonzero term)
      (start_nano end_nano : ℕ) where
    taken_log : (l : Log) → In l h.taken → IsLog l
    taken_log l m = All-lookup IsLog l h.taken c.logs m

    -- What stands in the database at the id of a log.
    message_at-log :
        (l : Log)
        → IsLog l
        → message_at level_db e.db (id_of l) ≡ message_of (id_of l) h.written none
    message_at-log l log =
        c.stored (encode_log_key l.stream_id l.ts)
        ∙ get_after-message runes h.written (id_of l) none
            (All-map IsLog taken_log h.written c.written_taken)
            (omega (arith, log.time), log.stream)

    -- The log of a message that was fetched.
    fetched_log :
        (i : LogId) (text : Bytes)
        → IsMatchId runes unicode h c.logs c.written_taken term plain start_nano end_nano i
        → message_at level_db e.db i ≡ some text
        → (l : Log) × (id_of l ≡ i)
          × (text ≡ l.message)
          × IsAnswer runes h term start_nano end_nano l
    fetched_log i text (l0, same0, (taken, has, within)) there =
        let there' : message_of (id_of l0) h.written none ≡ some text =
          sym (message_at-log l0 (taken_log l0 taken))
          ∙ ap (message_at level_db e.db) same0
          ∙ there in
        elim (found_message (id_of l0) h.written none text there') [
          | inl no_text ↦ cc
          | inr (l, ml, same, said) ↦
              let one : l0 ≡ l =
                same_log h.taken l0 l distinct taken
                  (All-lookup (λ l. In l h.taken) l h.written c.written_taken ml) (sym same) in
              (
                l,
                same ∙ same0,
                said,
                (
                  ml,
                  ap (has_token runes term) (sym one) ∙ has,
                  ap (λ l. is_within start_nano end_nano l.ts) (sym one) ∙ within,
                ),
              )
        ]

    pub stored-answers :
        (ids : List LogId)
        → All (IsMatchId runes unicode h c.logs c.written_taken term plain start_nano end_nano) ids
        → DistinctIds ids
        → (found : List Log) × (stored level_db e.db ids ≡ map (λ l. l.message) found)
          × (All (IsAnswer runes h term start_nano end_nano) found)
          × (DistinctIds (map id_of found))
          × ((i : LogId) → has_id i ids ≡ false → has_id i (map id_of found) ≡ false)
    unfolding stored has_id
    stored-answers [] m d = ([], refl, tt, tt, λ i h. refl)
    stored-answers (i ∷ ids) m d =
        let (found, texts, answers, once, others) = stored-answers ids m.1 d.1 in
        elim (Option-cases (message_at level_db e.db i)) [
          | inl absent ↦
              (found, rw (absent, stored) texts, answers, once, λ j new. others j (ground arith))
          | inr (text, there) ↦
              let (l, same, said, answer) = fetched_log i text m.0 there in
              (
                l ∷ found,
                rw (there, stored)
                    (ap (λ t. t ∷ stored level_db e.db ids) said ∙ ap (◌∷◌ l.message) texts),
                (answer, answers),
                (others (id_of l) (ap (λ j. has_id j ids) same ∙ d.0), once),
                λ j new. ground (arith, others j, ap (same_id j) same),
              )
        ]

    index_keys :
        All
          (IsIndexKey runes unicode h c.logs c.written_taken term plain)
          (keys e.db (index_prefix term))
    index_keys =
        All-zip (IsIndexKey runes unicode h c.logs c.written_taken term plain)
          (λ k there prefixed.
            IsIndexKey-of runes unicode h c.logs c.written_taken term plain k prefixed.0 prefixed.1
              (subst (λ o. o ≢ none) (c.stored k) there))
          (keys e.db (index_prefix term)) (lawful.keys_present e.db (index_prefix term))
          (lawful.keys_prefixed e.db (index_prefix term))

    pub candidates-IsMatchId :
        All
          (IsMatchId runes unicode h c.logs c.written_taken term plain start_nano end_nano)
          (candidates level_db e.db e.mem_index term start_nano end_nano)
    unfolding candidates query
    candidates-IsMatchId =
        All-append (IsMatchId runes unicode h c.logs c.written_taken term plain start_nano end_nano)
          _ _
          (rw (c.indexed term) (
            hot-IsMatchId runes unicode h c.logs c.written_taken term plain start_nano end_nano
              h.hot c.hot_taken))
          (scanned-IsMatchId runes unicode h c.logs c.written_taken term plain start_nano end_nano
            (keys e.db (index_prefix term)) index_keys)

    last_said :
        (l : Log)
        → In l h.taken
        → (text : Bytes)
        → (◌≡◌ {A = Option Bytes} none (some text))
          ⊎ ((l' : Log) × (In l' h.written) × (id_of l' ≡ id_of l) × (text ≡ l'.message))
        → ◌≡◌ {A = Option Bytes} (some text) (some l.message)
    last_said l taken text (inl e) = cc
    last_said l taken text (inr (l', ml', same, said)) =
        let one =
          same_log h.taken l' l distinct
            (All-lookup (λ l. In l h.taken) l' h.written c.written_taken ml') taken same in
        ap some (said ∙ ap (λ l. l.message) one)

    message_at-written :
        (l : Log) → In l h.written → message_at level_db e.db (id_of l) ≡ some l.message
    message_at-written l ml =
        let taken = All-lookup (λ l. In l h.taken) l h.written c.written_taken ml in
        message_at-log l (taken_log l taken)
        ∙ elim (Option-cases (message_of (id_of l) h.written none)) [
          | inl nothing ↦ absurd (message_there l h.written none ml nothing)
          | inr (text, there) ↦
              there ∙ last_said l taken text (found_message (id_of l) h.written none text there)
        ]

    -- A log that was written is fetched where it is among the candidates.
    pub stored-In :
        (l : Log) (ids : List LogId)
        → In l h.written
        → In (id_of l) ids
        → In l.message (stored level_db e.db ids)
    unfolding stored
    stored-In l [] ml m = elim m [ ]
    stored-In l (i ∷ ids) ml (inl same) =
        rw (ap (message_at level_db e.db) (sym same) ∙ message_at-written l ml, stored) (inl refl)
    stored-In l (i ∷ ids) ml (inr m) = elim (Option-cases (message_at level_db e.db i)) [
      | inl absent ↦ rw (absent, stored) (stored-In l ids ml m)
      | inr (text, there) ↦ rw (there, stored) (inr (stored-In l ids ml m))
    ]

    -- What LevelDB says of a key that is there.
    abbrev Listed : Bytes → Type 0
    Listed k =
        In k (keys e.db (index_prefix term))
        ⊎ ((iter_error e.db (index_prefix term) ≢ none)
            × All (λ j. bytes_less j k ≡ true) (keys e.db (index_prefix term)))

    pub In-candidates :
        (l : Log)
        → IsAnswer runes h term start_nano end_nano l
        → (iter_error e.db (index_prefix term) ≡ none)
          ⊎ IsCut start_nano end_nano (keys e.db (index_prefix term))
        → In (id_of l) (candidates level_db e.db e.mem_index term start_nano end_nano)
    unfolding candidates encode_index_key
    In-candidates l (ml, has, within) ended =
        let numbers = put_uint64 l.ts ++ put_uint64 l.stream_id in
        let k = encode_index_key term l.ts l.stream_id in
        let split : k ≡ index_prefix term ++ numbers =
          ap (◌∷◌ 2) (sym (append_assoc term (0 ∷ []) numbers)) in
        let there : get e.db k ≢ none =
          subst (λ o. o ≢ none) (sym (c.stored k))
            (index_key_written runes h.written l term ml
              (contains-In term (tokenize runes l.message) has)) in
        let listed : In k (keys e.db (index_prefix term)) =
          elim (subst Listed (sym split) (
            lawful.keys_complete e.db (index_prefix term) numbers
              (subst (λ k. get e.db k ≢ none) split there))) [
                | inl m ↦ m
                | inr (failed, below) ↦ absurd (elim ended [
                  | inl fine ↦ failed fine
                  | inr cut ↦
                      no-IsCut runes unicode h c.logs c.written_taken term plain start_nano end_nano
                        (keys e.db (index_prefix term)) l index_keys ml within below cut
                ])
              ] in
        In-append_right (id_of l) (map posting_id (query term start_nano end_nano e.mem_index))
          (scanned start_nano end_nano (keys e.db (index_prefix term)))
          (In-scanned runes unicode h c.logs c.written_taken term plain start_nano end_nano
            (keys e.db (index_prefix term)) l index_keys
            (lawful.keys_ascending e.db (index_prefix term)) ml within listed)
