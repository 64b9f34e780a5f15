-- ===== src/App/Round.antt =====
-- A search of web/src/App.jsx all the way: `runQuery`, the endpoint of
-- server/src/controllers/queryController.js with the engine's reply, `searchLogs` of
-- web/src/lib/api.js, and `runQuery` behind its `await`.
use hackathon.Common.{
  ℕ, ◌-◌, ◌*◌, ◌≤◌, false, none, some, List, [], ◌∷◌, ◌++◌, ◌≡◌, refl, sym, ap, ◌∙◌, arith, map,
  filter, all, length,
}
use hackathon.Engine.{QueryResponse, answered}
use hackathon.Regex.{is_unit}
use hackathon.Regex.Fails.{Lacks}
use hackathon.Query.Pipe.{parse_query_no_pipe}
use hackathon.Query.{Label, parse_query}
use hackathon.Query.Filters.{has_label, filters_plain}
use hackathon.Query.Normalize.{Times}
use hackathon.Search.{Numbers, handle_search, asks, answer_search}
use hackathon.Search.Client.{Body, no_body, resolved, search_logs, raw_of}
use hackathon.App.{App, Search, run_query, finish_query, get_search, remove_search, normalize_all}
use hackathon.App.Searches.{told_of, finish_resolved}
use hackathon.App.Window.{Whole, max_exact, run_query_accepted}

get_search-last : (ss : List Search) (s : Search) → get_search (length ss) (ss ++ s ∷ []) ≡ some s
get_search-last [] s = refl
get_search-last (x ∷ ss) s = get_search-last ss s

remove_search-last : (ss : List Search) (s : Search) → remove_search (length ss) (ss ++ s ∷ []) ≡ ss
remove_search-last [] s = refl
remove_search-last (x ∷ ss) s = ap (◌∷◌ x) (remove_search-last ss s)

abbrev body_of : QueryResponse → Body
body_of r = record no_body { logs = map raw_of r.logs }

told_of-found : (r : QueryResponse) → r.error ≡ [] → told_of (answered r) ≡ resolved (body_of r)
unfolding answer_search search_logs
told_of-found r fine = ground (arith, fine)

run_query-error : (a : App) (now : ℕ) → (run_query none none now a).query_error ≡ none
unfolding run_query
run_query-error a now = refl

abbrev labels_at : ℕ → List Search → List Label
labels_at i ss = elim (get_search i ss) [ none ↦ [] | some s ↦ s.labels ]

labels_at-last : (ss : List Search) (s : Search) → labels_at (length ss) (ss ++ s ∷ []) ≡ s.labels
labels_at-last ss s = rw (get_search-last ss s, labels_at) refl

run_query-labels :
    (a : App) (now : ℕ) (s : Search)
    → (run_query none none now a).searches ≡ a.searches ++ s ∷ []
    → s.labels ≡ (parse_query a.query).labels
unfolding run_query
run_query-labels a now s e =
    sym (labels_at-last a.searches s)
    ∙ sym (ap (labels_at (length a.searches)) e)
    ∙ labels_at-last a.searches _

-- The search behind the others leaves them waiting.
finish_query-searches :
    (times : Times) (i later : ℕ) (a : App) (s : Search) (b : Body)
    → get_search i a.searches ≡ some s
    → (finish_query times i later (resolved b) a).searches ≡ remove_search i a.searches
unfolding finish_query
finish_query-searches times i later a s b waits = ground arith

-- For a query with no `|` in it, whatever is written there, the endpoint asks the engine for the
-- empty term over the minutes before. The window does not begin before
-- 1970, and the run is no later than 2 ^ 53 ms after.
pub no_pipe_asks_all :
    (numbers : Numbers) (whole : Whole numbers) (a : App) (now now' : ℕ)
    → Lacks (is_unit b'|') a.query
    → a.time_range * 60000 ≤ now
    → now ≤ max_exact
    → (s : Search) × ((run_query none none now a).searches ≡ a.searches ++ s ∷ [])
      × (handle_search numbers s.request now'
          ≡ asks (record {
            term = [];
            start_time_nano = numbers.nano (numbers.of_ms (now - a.time_range * 60000));
            end_time_nano = numbers.nano (numbers.of_ms now);
            limit = 500;
          }))
no_pipe_asks_all numbers whole a now now' plain past exact =
    let (s, added, asked) = run_query_accepted numbers whole a now now' past exact in
    (
      s,
      added,
      asked
          ∙ ap
              (λ t. asks (record {
                term = t;
                start_time_nano = numbers.nano (numbers.of_ms (now - a.time_range * 60000));
                end_time_nano = numbers.nano (numbers.of_ms now);
                limit = 500;
              }))
              (parse_query_no_pipe a.query plain).1,
    )

module _ (numbers : Numbers) (whole : Whole numbers) (times : Times) where
  -- A search from the query bar and back: the page adds it behind the searches that wait; the
  -- endpoint asks the engine for the primary term of the query and at most 500 records of the
  -- minutes before; and when the engine answers without an error, the page shows the records of
  -- the answer, normalised, in order, that fit all labels of the query, stops loading, shows no
  -- error and has the other searches wait. The window does not begin before 1970, and the run is no
  -- later than 2 ^ 53 ms after.
  pub run_query_shown :
      (a : App) (now now' later : ℕ) (r : QueryResponse)
      → a.time_range * 60000 ≤ now
      → now ≤ max_exact
      → r.error ≡ []
      → let b = run_query none none now a in
        let c = finish_query times (length a.searches) later (told_of (answered r)) b in
        (s : Search) × (b.searches ≡ a.searches ++ s ∷ [])
        × (handle_search numbers s.request now'
            ≡ asks (record {
              term = (parse_query a.query).primary_term;
              start_time_nano = numbers.nano (numbers.of_ms (now - a.time_range * 60000));
              end_time_nano = numbers.nano (numbers.of_ms now);
              limit = 500;
            }))
        × (c.logs
            ≡ filter
                (λ log. all (has_label log) (parse_query a.query).labels)
                (normalize_all times (map raw_of r.logs) 0 later))
        × (c.is_loading ≡ false)
        × (c.query_error ≡ none)
        × (c.searches ≡ a.searches)
  run_query_shown a now now' later r past exact fine =
      let b = run_query none none now a in
      let i = length a.searches in
      let (s, added, asked) = run_query_accepted numbers whole a now now' past exact in
      let waits = ap (get_search i) added ∙ get_search-last a.searches s in
      let (shown, kept, done) = finish_resolved times i later b waits (body_of r) in
      let told = told_of-found r fine in
      let lines = normalize_all times (map raw_of r.logs) 0 later in
      (
        s,
        added,
        asked,
        rw told (
            shown
            ∙ filters_plain lines s.labels
            ∙ ap (λ ls. filter (λ log. all (has_label log) ls) lines)
                (run_query-labels a now s added)),
        rw told done,
        rw told (kept ∙ run_query-error a now),
        rw told (
            finish_query-searches times i later b s (body_of r) waits
            ∙ ap (remove_search i) added
            ∙ remove_search-last a.searches s),
      )
