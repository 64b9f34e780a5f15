-- ===== src/Engine/Service/Nothing.antt =====
-- Searches that find nothing, whatever is in the engine.
use hackathon.Common.{ℕ, List, [], ◌∷◌, ◌≡◌, refl, ◌∙◌, map, All, All-lookup}
use hackathon.Engine.Keys.{Bytes}
use hackathon.Engine.Keys.RoundTrip.{IsNonzero}
use hackathon.Engine.Db.{LevelDb, IsLawful}
use hackathon.Engine.Find.{search_term}
use hackathon.Engine.Tokens.{Runes, IsUnicode, IsToken, tokenize, tokenize-IsToken}
use hackathon.Engine.Items.{Log, id_of}
use hackathon.Engine.Loop.{Engine}
use hackathon.Engine.Loop.History.{History, Reach}
use hackathon.Engine.Loop.Candidates.{contains-In}
use hackathon.Engine.Loop.Fetched.{IsAnswer}
use hackathon.Engine.Loop.Answers.{DistinctIds, search_sound}

module _ (level_db : LevelDb) (lawful : IsLawful level_db) (runes : Runes)
    (unicode : IsUnicode runes) where
  open level_db use {Db}

  no_answers :
      (h : History) (term : Bytes) (start_nano end_nano : ℕ) (found : List Log)
      → ¬ IsToken term
      → All (IsAnswer runes h term start_nano end_nano) found
      → map (λ l. l.message) found ≡ []
  no_answers h term start_nano end_nano [] odd answers = refl
  no_answers h term start_nano end_nano (l ∷ found) odd answers =
      let (written, has, within) = answers.0 in
      absurd (
        odd (
          All-lookup IsToken term (tokenize runes l.message)
            (tokenize-IsToken runes unicode l.message)
            (contains-In term (tokenize runes l.message) has)))

  -- In any state that the engine can come to, a search finds nothing for a term that is no token:
  -- one that is empty or has a capital letter, a space or another sign of ASCII, but no zero byte.
  pub search_no_token :
      {h : History} {e : Engine Db}
      → Reach level_db runes h e
      → DistinctIds (map id_of h.taken)
      → (term : Bytes) → All IsNonzero term
      → ¬ IsToken term
      → (start_nano end_nano limit : ℕ)
      → (search_term level_db e.db e.mem_index term start_nano end_nano limit).0 ≡ []
  search_no_token {h} r distinct term plain odd start_nano end_nano limit =
      let (found, texts, answers, once, few) =
        search_sound level_db lawful runes unicode r distinct term plain start_nano end_nano
          limit in
      texts ∙ no_answers h term start_nano end_nano found odd answers
