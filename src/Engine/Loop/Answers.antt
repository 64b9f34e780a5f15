-- ===== src/Engine/Loop/Answers.antt =====
-- What `SearchTerm` of engine/internal/search/query.go finds in the states of the loop of
-- engine/cmd/server/main.go.
use hackathon.Common.{
  ℕ, ◌≤◌, ◌<◌, List, [], ◌≡◌, refl, sym, ap, subst, ◌∙◌, ◌⊎◌, inl, inr, Option, none, map, length,
  length-take-le, take, Str, All, In,
}
use hackathon.Engine.Keys.{Bytes}
use hackathon.Engine.Keys.RoundTrip.{IsNonzero}
use hackathon.Engine.Db.{LevelDb, IsLawful}
use hackathon.Engine.Find.{has_id, limit_or, search_term}
use hackathon.Engine.Find.Listed.{fresh, stored, candidates}
use hackathon.Engine.Find.Reference.{search_term-candidates, search_term_error}
use hackathon.Engine.Tokens.{Runes, IsUnicode}
use hackathon.Engine.Items.{Log, id_of}
use hackathon.Engine.Loop.{Engine}
use hackathon.Engine.Loop.History.{History, Reach}
use hackathon.Engine.Loop.Consistent.{Reach-IsConsistent}
pub use hackathon.Engine.Loop.Ids.{DistinctIds}
use hackathon.Engine.Loop.Ids.{
  DistinctIds-fresh, All-fresh, In-fresh, map-take, All-take, DistinctIds-take, take-whole,
}
use hackathon.Engine.Loop.Fetched.{
  IsAnswer, stored-answers, candidates-IsMatchId, stored-In, In-candidates,
}

told_ended :
    {C : Type 0} {err failure : Option Str}
    → err ≡ none
    → (err ≡ failure) ⊎ ((err ≡ none) × C)
    → (failure ≡ none) ⊎ C
told_ended fine (inl told) = inl (sym told ∙ fine)
told_ended fine (inr (_, cut)) = inr cut

module _ (level_db : LevelDb) (lawful : IsLawful level_db) (runes : Runes)
    (unicode : IsUnicode runes) where
  open level_db use {Db, get, keys, iter_error}

  module _ {h : History} {e : Engine Db} (r : Reach level_db runes h e)
      (distinct : DistinctIds (map id_of h.taken)) (term : Bytes) (plain : All IsNonzero term)
      (start_nano end_nano limit : ℕ) where
    abbrev answer : List Bytes × Option Str
    answer = search_term level_db e.db e.mem_index term start_nano end_nano limit

    -- In any state that the engine can come to, a search for a term without a zero byte finds the
    -- messages of logs that were written, have the term as a token and lie in the window, no log
    -- twice, and no more than the limit, where no two logs that were taken have the same stream and
    -- time.
    pub search_sound :
        (found : List Log) × (answer.0 ≡ map (λ l. l.message) found)
        × (All (IsAnswer runes h term start_nano end_nano) found)
        × (DistinctIds (map id_of found))
        × (length found ≤ limit_or limit)
    search_sound =
        let c = Reach-IsConsistent level_db lawful runes unicode r in
        let ids = fresh [] (candidates level_db e.db e.mem_index term start_nano end_nano) in
        let (found, texts, answers, once, others) =
          stored-answers level_db lawful runes unicode h e c distinct term plain start_nano end_nano
            ids
            (All-fresh _ [] _ (
              candidates-IsMatchId level_db lawful runes unicode h e c distinct term plain
                start_nano end_nano))
            (DistinctIds-fresh []
              (candidates level_db e.db e.mem_index term start_nano end_nano)) in
        (
          take (limit_or limit) found,
          search_term-candidates level_db e.db e.mem_index term start_nano end_nano limit
              ∙ ap (take (limit_or limit)) texts
              ∙ map-take (λ l. l.message) (limit_or limit) found,
          All-take _ (limit_or limit) found answers,
          DistinctIds-take (limit_or limit) found once,
          length-take-le (limit_or limit) found,
        )

    -- A search that finds fewer messages than the limit and tells no error has found every log that
    -- was written, has the term and lies in the window.
    pub search_complete :
        (l : Log)
        → IsAnswer runes h term start_nano end_nano l
        → length answer.0 < limit_or limit
        → answer.1 ≡ none
        → In l.message answer.0
    unfolding has_id
    search_complete l is_answer room fine =
        let c = Reach-IsConsistent level_db lawful runes unicode r in
        let cands = candidates level_db e.db e.mem_index term start_nano end_nano in
        let found =
          search_term-candidates level_db e.db e.mem_index term start_nano end_nano limit in
        let ended =
          told_ended fine
            (search_term_error level_db e.db e.mem_index term start_nano end_nano limit room) in
        let whole : answer.0 ≡ stored level_db e.db (fresh [] cands) =
          found
          ∙ take-whole (limit_or limit) (stored level_db e.db (fresh [] cands))
              (subst (λ ms. length ms < limit_or limit) found room) in
        subst (In l.message) (sym whole) (
          stored-In level_db lawful runes unicode h e c distinct term plain start_nano end_nano l
            (fresh [] cands) is_answer.0
            (In-fresh (id_of l) [] cands
              (In-candidates level_db lawful runes unicode h e c distinct term plain start_nano
                end_nano l is_answer ended)
              refl))
