-- ===== src/Engine/Loop/Oldest.antt =====
-- Which of many hits `SearchTerm` of engine/internal/search/query.go returns.
use hackathon.Common.{
  ℕ, ◌≤◌, List, [], ◌∷◌, ◌++◌, ◌≡◌, refl, ap, ◌∙◌, inl, inr, map, length, take, take_front, filter,
  Bool-cases, Option-cases, if◌then◌else◌,
}
use hackathon.Engine.Keys.{Bytes, LogId}
use hackathon.Engine.Db.{LevelDb, IsLawful}
use hackathon.Engine.Index.{is_within, query}
use hackathon.Engine.Find.{has_id, index_prefix, posting_id, limit_or, message_at, search_term}
use hackathon.Engine.Find.Listed.{fresh, scanned, stored, candidates}
use hackathon.Engine.Find.Reference.{search_term-candidates}
use hackathon.Engine.Tokens.{Runes, IsUnicode}
use hackathon.Engine.Items.{Log, id_of}
use hackathon.Engine.Loop.{Engine}
use hackathon.Engine.Loop.History.{History, Reach, has_token, posting_of}
use hackathon.Engine.Loop.Consistent.{Reach-IsConsistent}

-- The ids that have been seen behind a list of them.
seen_behind : List LogId → List LogId → List LogId
seen_behind seen [] = seen
seen_behind seen (i ∷ ids) = seen_behind (if has_id i seen then seen else i ∷ seen) ids

fresh-append :
    (seen is js : List LogId)
    → fresh seen (is ++ js) ≡ fresh seen is ++ fresh (seen_behind seen is) js
unfolding fresh seen_behind
fresh-append seen [] js = refl
fresh-append seen (i ∷ is) js = elim (Bool-cases (has_id i seen)) [
  | inl old ↦ rw old (fresh-append seen is js)
  | inr new ↦ rw new (ap (◌∷◌ i) (fresh-append (i ∷ seen) is js))
]

hits-posting_id :
    (start_nano end_nano : ℕ) (ls : List Log)
    → map posting_id
        (filter (λ e. is_within start_nano end_nano e.timestamp_nano) (map posting_of ls))
      ≡ map id_of (filter (λ l. is_within start_nano end_nano l.ts) ls)
hits-posting_id start_nano end_nano [] = refl
hits-posting_id start_nano end_nano (l ∷ ls) =
    elim (Bool-cases (is_within start_nano end_nano l.ts)) [
      | inl within ↦ rw within (ap (◌∷◌ (id_of l)) (hits-posting_id start_nano end_nano ls))
      | inr outside ↦ rw outside (hits-posting_id start_nano end_nano ls)
    ]

module _ (runes : Runes) where
  -- The logs since the last start that have the term and lie in the window, as they were taken.
  abbrev pub hits : History → Bytes → ℕ → ℕ → List Log
  hits h term start_nano end_nano =
      filter (λ l. is_within start_nano end_nano l.ts) (filter (has_token runes term) h.hot)

module _ (level_db : LevelDb) (lawful : IsLawful level_db) (runes : Runes)
    (unicode : IsUnicode runes) where
  open level_db use {Db, keys}

  stored-append :
      (d : Db) (is js : List LogId)
      → stored level_db d (is ++ js) ≡ stored level_db d is ++ stored level_db d js
  unfolding stored
  stored-append d [] js = refl
  stored-append d (i ∷ is) js = elim (Option-cases (message_at level_db d i)) [
    | inl absent ↦ rw (absent, stored) (stored-append d is js)
    | inr (text, there) ↦ rw (there, stored) (ap (◌∷◌ text) (stored-append d is js))
  ]

  -- In any state that the engine can come to, where the logs with the term in the window that were
  -- taken since the last start, each once and with a message in the database, are as many as the
  -- limit, the results are the messages of the first of them that were taken: the latest are left
  -- out.
  pub oldest_found :
      {h : History} {e : Engine Db}
      → Reach level_db runes h e
      → (term : Bytes) (start_nano end_nano limit : ℕ)
      → limit_or limit
        ≤ length
            (stored level_db e.db (fresh [] (map id_of (hits runes h term start_nano end_nano))))
      → (search_term level_db e.db e.mem_index term start_nano end_nano limit).0
        ≡ take
            (limit_or limit)
            (stored level_db e.db (fresh [] (map id_of (hits runes h term start_nano end_nano))))
  unfolding candidates query
  oldest_found {h} {e} r term start_nano end_nano limit many =
      let c = Reach-IsConsistent level_db lawful runes unicode r in
      let ids = map id_of (hits runes h term start_nano end_nano) in
      let cold = scanned start_nano end_nano (keys e.db (index_prefix term)) in
      let in_memory : map posting_id (query term start_nano end_nano e.mem_index) ≡ ids =
        ap (λ ps. map posting_id (filter (λ p. is_within start_nano end_nano p.timestamp_nano) ps))
          (c.indexed term)
        ∙ hits-posting_id start_nano end_nano (filter (has_token runes term) h.hot) in
      search_term-candidates level_db e.db e.mem_index term start_nano end_nano limit
      ∙ ap (λ is. take (limit_or limit) (stored level_db e.db (fresh [] (is ++ cold)))) in_memory
      ∙ ap (λ is. take (limit_or limit) (stored level_db e.db is)) (fresh-append [] ids cold)
      ∙ ap (take (limit_or limit))
          (stored-append e.db (fresh [] ids) (fresh (seen_behind [] ids) cold))
      ∙ take_front (limit_or limit) (stored level_db e.db (fresh [] ids)) _ many
