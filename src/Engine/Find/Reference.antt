-- ===== src/Engine/Find/Reference.antt =====
-- `SearchTerm` of engine/internal/search/query.go against the list of logs that it goes through.
use hackathon.Common.{
  ℕ, ◌≤◌, ◌<◌, ◌⊎◌, inl, inr, Option, none, List, [], ◌++◌, ◌≡◌, refl, sym, ap, ◌∙◌, arith, Str,
  length, take, map,
}
use hackathon.Engine.Keys.{Bytes}
use hackathon.Engine.Db.{LevelDb}
use hackathon.Engine.Index.{Terms, query}
use hackathon.Engine.Find.{
  Found, Loop, finished, goes_on, nothing_found, posting_id, limit_or, index_prefix, hot_tier,
  scan_index, scan_result, then_scan, search_term,
}
use hackathon.Engine.Find.Listed.{IsCut, fresh, scanned, stored, candidates}
use hackathon.Engine.Find.Rounds.{
  found_of, scan-IsCut, behind, hot_tier-over, scan_index-over, over-append, over_lem, over_full,
}

module _ (level_db : LevelDb) where
  open level_db use {Db, get, keys, iter_error}

  module _ (d : Db) (terms : Terms) (term : Bytes) (start_nano end_nano limit : ℕ) where
    abbrev answer : List Bytes × Option Str
    answer = search_term level_db d terms term start_nano end_nano limit

    limit_or_pos : 0 < limit_or limit
    limit_or_pos = ground arith

    abbrev listed : List Bytes
    listed = keys d (index_prefix term)

    abbrev failure : Option Str
    failure = iter_error d (index_prefix term)

    -- What a search that had room says of an error.
    abbrev IsTold : Option Str → Type 0
    IsTold err = (err ≡ failure) ⊎ ((err ≡ none) × IsCut start_nano end_nano listed)

    scan_result-found : (err : Option Str) (l : Loop) → (scan_result err l).0 ≡ (found_of l).results
    scan_result-found err (finished f) = refl
    scan_result-found err (goes_on f) = refl

    then_scan-over :
        (l : Loop)
        → (then_scan level_db d term start_nano end_nano (limit_or limit) l).0
          ≡ (behind level_db d
              (limit_or limit)
              (scanned start_nano end_nano (keys d (index_prefix term)))
              l).results
    unfolding then_scan
    then_scan-over (finished f) = refl
    then_scan-over (goes_on f) =
        scan_result-found failure
          (scan_index level_db d start_nano end_nano (limit_or limit) listed f)
        ∙ ap (λ g. g.results)
            (scan_index-over level_db d start_nano end_nano (limit_or limit)
              (keys d (index_prefix term)) f)

    -- The results of a search are the messages that stand at its candidates, each candidate once,
    -- in their order, and as many as the limit.
    pub search_term-candidates :
        answer.0
        ≡ take
            (limit_or limit)
            (stored level_db d (fresh [] (candidates level_db d terms term start_nano end_nano)))
    unfolding search_term candidates
    search_term-candidates =
        let hot = map posting_id (query term start_nano end_nano terms) in
        let cold = scanned start_nano end_nano (keys d (index_prefix term)) in
        then_scan-over (
          hot_tier level_db d (limit_or limit) (query term start_nano end_nano terms) nothing_found)
        ∙ ap (λ l. (behind level_db d (limit_or limit) cold l).results)
            (hot_tier-over level_db d (limit_or limit) (query term start_nano end_nano terms)
              nothing_found)
        ∙ sym (ap (λ g. g.results) (over-append level_db d (limit_or limit) hot cold nothing_found))
        ∙ over_lem level_db d (limit_or limit) (hot ++ cold) nothing_found limit_or_pos
        ∙ ap (λ n. take n (stored level_db d (fresh [] (hot ++ cold)))) (omega arith)

    scan_error :
        (l : Loop)
        → ((f : Found)
            → l ≡ finished f
            → (limit_or limit ≤ length f.results) ⊎ IsCut start_nano end_nano listed)
        → length (scan_result failure l).0 < limit_or limit
        → IsTold (scan_result failure l).1
    scan_error (finished f) cut room = elim (cut f refl) [
      | inl full ↦ absurd (omega (arith, full))
      | inr behind ↦ inr (refl, behind)
    ]
    scan_error (goes_on f) cut room = inl refl

    then_scan_error :
        (l : Loop)
        → ((f : Found) → l ≡ finished f → limit_or limit ≤ length f.results)
        → length (then_scan level_db d term start_nano end_nano (limit_or limit) l).0
          < limit_or limit
        → IsTold (then_scan level_db d term start_nano end_nano (limit_or limit) l).1
    unfolding then_scan
    then_scan_error (finished f) full room = absurd (omega (arith, full f refl))
    then_scan_error (goes_on f) full room =
        scan_error _ (scan-IsCut level_db d start_nano end_nano (limit_or limit) listed f) room

    -- Where there was room, the error of the iteration is told, unless a key behind the window
    -- broke it off.
    pub search_term_error : length answer.0 < limit_or limit → IsTold answer.1
    unfolding search_term
    search_term_error room =
        let ms = query term start_nano end_nano terms in
        then_scan_error _
          (λ f e.
            over_full level_db d (limit_or limit) (map posting_id ms) nothing_found f
              (sym (hot_tier-over level_db d (limit_or limit) ms nothing_found) ∙ e))
          room

    scan_result-fine : (l : Loop) → failure ≡ none → (scan_result failure l).1 ≡ none
    scan_result-fine (finished f) fine = refl
    scan_result-fine (goes_on f) fine = fine

    then_scan-fine :
        (l : Loop)
        → failure ≡ none
        → (then_scan level_db d term start_nano end_nano (limit_or limit) l).1 ≡ none
    unfolding then_scan
    then_scan-fine (finished f) fine = refl
    then_scan-fine (goes_on f) fine =
        scan_result-fine (scan_index level_db d start_nano end_nano (limit_or limit) listed f) fine

    -- A search tells no error where the iteration over the index has none.
    pub search_term-fine : failure ≡ none → answer.1 ≡ none
    unfolding search_term
    search_term-fine fine =
        then_scan-fine
          (hot_tier level_db d (limit_or limit) (query term start_nano end_nano terms)
            nothing_found)
          fine
