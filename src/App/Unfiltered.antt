-- ===== src/App/Unfiltered.antt =====
-- A search of web/src/App.jsx all the way to the Go engine and back, for a query without `|`.
use hackathon.Common.{ℕ, ◌-◌, ◌*◌, ◌≤◌, none, List, [], ◌∷◌, ◌++◌, ◌≡◌, refl, ap, ◌∙◌, map, length}
use hackathon.Common.Number.{decimal}
use hackathon.Engine.{QueryRequest, QueryResponse, answered}
use hackathon.Engine.Db.{LevelDb, IsLawful}
use hackathon.Engine.Find.{index_prefix, search_term}
use hackathon.Engine.Find.Reference.{search_term-fine}
use hackathon.Engine.Tokens.{Runes, IsUnicode}
use hackathon.Engine.Items.{id_of}
use hackathon.Engine.Loop.{Engine}
use hackathon.Engine.Loop.History.{History, Reach}
use hackathon.Engine.Loop.Answers.{DistinctIds}
use hackathon.Engine.Service.{Wire, IsUtf8, query_rpc, reply_of, entries_of}
use hackathon.Engine.Service.Nothing.{search_no_token}
use hackathon.Regex.{is_unit}
use hackathon.Regex.Fails.{Lacks}
use hackathon.Query.Normalize.{Times}
use hackathon.Search.{Numbers, handle_search, asks}
use hackathon.App.{App, Search, run_query, finish_query, normalize_all}
use hackathon.App.Searches.{told_of}
use hackathon.App.Window.{Whole, max_exact}
use hackathon.App.Round.{run_query_shown, no_pipe_asks_all}

module _ (numbers : Numbers) where
  -- What the endpoint asks the engine for.
  abbrev pub unfiltered : App → ℕ → QueryRequest numbers.Num
  unfiltered a now = record {
    term = [];
    start_time_nano = numbers.nano (numbers.of_ms (now - a.time_range * 60000));
    end_time_nano = numbers.nano (numbers.of_ms now);
    limit = 500;
  }

-- The answer of a search that finds nothing.
abbrev pub no_logs : QueryResponse
no_logs = record { logs = []; total_found = b'0' ∷ []; error = [] }

module _ (level_db : LevelDb) (lawful : IsLawful level_db) (runes : Runes)
    (unicode : IsUnicode runes) (numbers : Numbers) (wire : Wire numbers.Num)
    (utf8 : IsUtf8 wire) where
  open level_db use {Db, iter_error}

  module _ {h : History} {e : Engine Db} (r : Reach level_db runes h e)
      (distinct : DistinctIds (map id_of h.taken))
      (fine : iter_error e.db (index_prefix []) ≡ none) where
    search_empty_term :
        (term : List ℕ) (start_nano end_nano limit : ℕ)
        → term ≡ []
        → search_term level_db e.db e.mem_index term start_nano end_nano limit ≡ ([], none)
    search_empty_term term start_nano end_nano limit empty =
        let nothing : (search_term level_db e.db e.mem_index [] start_nano end_nano limit).0 ≡ [] =
          search_no_token level_db lawful runes unicode r distinct [] tt
            (λ is_token. is_token.some_bytes refl) start_nano end_nano limit in
        let told : (search_term level_db e.db e.mem_index [] start_nano end_nano limit).1 ≡ none =
          search_term-fine level_db e.db e.mem_index [] start_nano end_nano limit fine in
        ap (λ t. search_term level_db e.db e.mem_index t start_nano end_nano limit) empty
        ∙ (λ i. (nothing i, told i))

    query_rpc-empty_term :
        (req : QueryRequest numbers.Num)
        → req.term ≡ []
        → query_rpc wire level_db e req ≡ answered no_logs
    unfolding query_rpc reply_of entries_of decimal
    query_rpc-empty_term req empty =
        let found =
          search_empty_term (wire.bytes_of req.term) (wire.word_of req.start_time_nano)
            (wire.word_of req.end_time_nano) req.limit (ap wire.bytes_of empty ∙ utf8.nothing) in
        ap (reply_of wire) found

    module _ (whole : Whole numbers) (times : Times) where
      -- A query with no `|` in it, whatever is written there, finds nothing, whatever logs the
      -- engine has taken: the endpoint asks it for the empty term, its answer has no record and no
      -- error, and the page then shows no line. No two logs that were taken have the same stream
      -- and time, the iteration over the index does not fail, the window does not begin before
      -- 1970, and the run is no later than 2 ^ 53 ms after.
      pub no_pipe_shows_nothing :
          (a : App) (now now' later : ℕ)
          → Lacks (is_unit b'|') a.query
          → a.time_range * 60000 ≤ now
          → now ≤ max_exact
          → let reply = query_rpc wire level_db e (unfiltered numbers a now) in
            let b = run_query none none now a in
            (s : Search) × (b.searches ≡ a.searches ++ s ∷ [])
            × (handle_search numbers s.request now' ≡ asks (unfiltered numbers a now))
            × (reply ≡ answered no_logs)
            × ((finish_query times (length a.searches) later (told_of reply) b).logs ≡ [])
      unfolding normalize_all
      no_pipe_shows_nothing a now now' later plain past exact =
          let (s, added, asked) = no_pipe_asks_all numbers whole a now now' plain past exact in
          let nothing = query_rpc-empty_term (unfiltered numbers a now) refl in
          let shown =
            run_query_shown numbers whole times a now now' later no_logs past exact refl in
          (s, added, asked, nothing, rw nothing shown.3)
