-- ===== src/App/Searches.antt =====
-- Searches of web/src/App.jsx from the page to the engine and back: the endpoint's callback in
-- server/src/controllers/queryController.js, `searchLogs` of web/src/lib/api.js, `runQuery`.
use hackathon.Common.{
  ℕ, false, some, [], ◌∷◌, ◌≡◌, ◌≢◌, refl, ap, ◌∙◌, arith, Str, codes, ◌⊎◌, str_eq,
}
use hackathon.Engine.{QueryResponse, Reply, failed, answered}
use hackathon.Query.Normalize.{Times}
use hackathon.Search.{bad_request, bad_gateway, answer_search}
use hackathon.Search.Client.{Settled, resolved, rejected, Body, search_logs, http_of, AppError}
use hackathon.App.{App, Search, get_search, finish_query, shown_lines, error_banner, engine_down}

-- What the page is told when the engine replies.
abbrev pub told_of : Reply → Settled
told_of reply = search_logs (http_of (answer_search reply))

abbrev Fails : Reply → Str → Type 0
Fails reply m =
    (reply ≡ failed m) ⊎ ((r : QueryResponse) × (reply ≡ answered r) × (r.error ≡ m) × (m ≢ []))

answer_search-Fails :
    (reply : Reply) (m : Str) → Fails reply m → answer_search reply ≡ bad_gateway m
unfolding answer_search
answer_search-Fails reply m h = ground arith

abbrev engine_error : Str → Str → AppError
engine_error message details = record {
  code = codes "ENGINE_ERROR";
  message = message;
  details = details;
}

search_logs_gateway :
    (m : Str)
    → search_logs (http_of (bad_gateway m))
      ≡ rejected (engine_error (codes "Go engine query failed") m)
unfolding search_logs
search_logs_gateway m = refl

search_logs_refused :
    search_logs (http_of bad_request)
    ≡ rejected (engine_error (codes "startTime/endTime must be valid and limit must be 1..5000") [])
unfolding search_logs
search_logs_refused = refl

banner_engine_error :
    (message details : Str)
    → error_banner (some (engine_error message details)) ≡ engine_down details
unfolding error_banner str_eq
banner_engine_error message details = refl

module _ (times : Times) (i now : ℕ) (a : App) {s : Search}
    (waits : get_search i a.searches ≡ some s) where
  finish_rejected :
      (e : AppError)
      → ((finish_query times i now (rejected e) a).logs ≡ [])
        × ((finish_query times i now (rejected e) a).query_error ≡ some e)
        × ((finish_query times i now (rejected e) a).is_loading ≡ false)
  unfolding finish_query
  finish_rejected e = ground arith

  pub finish_resolved :
      (b : Body)
      → ((finish_query times i now (resolved b) a).logs ≡ shown_lines times s b now)
        × ((finish_query times i now (resolved b) a).query_error ≡ a.query_error)
        × ((finish_query times i now (resolved b) a).is_loading ≡ false)
  unfolding finish_query
  finish_resolved b = ground arith

  -- When the engine fails a search with a message, by a gRPC error or in its response, the page
  -- shows no line, stops loading, and its banner says that the engine is down, with the message.
  pub engine_failure_shown :
      (reply : Reply) (m : Str)
      → (reply ≡ failed m) ⊎ ((r : QueryResponse) × (reply ≡ answered r) × (r.error ≡ m) × (m ≢ []))
      → ((finish_query times i now (told_of reply) a).logs ≡ [])
        × (error_banner (finish_query times i now (told_of reply) a).query_error ≡ engine_down m)
        × ((finish_query times i now (told_of reply) a).is_loading ≡ false)
  engine_failure_shown reply m h =
      let told : told_of reply ≡ rejected (engine_error (codes "Go engine query failed") m) =
        ap (λ x. search_logs (http_of x)) (answer_search-Fails reply m h) ∙ search_logs_gateway m in
      let (cleared, kept, done) =
        finish_rejected (engine_error (codes "Go engine query failed") m) in
      rw told (cleared, ap error_banner kept ∙ banner_engine_error _ m, done)

  -- A search that the endpoint refuses with status 400 makes the same banner as an engine that is
  -- down, so that the page does not tell what was wrong with the request.
  pub refused_search_shown :
      error_banner (finish_query times i now (search_logs (http_of bad_request)) a).query_error
      ≡ engine_down []
  refused_search_shown = rw search_logs_refused (
      ap error_banner
        (finish_rejected
          (engine_error (codes "startTime/endTime must be valid and limit must be 1..5000") [])).1
      ∙ banner_engine_error _ [])

-- Two searches overlap, and the newer one is answered first. Its lines are shown and the page
-- stops loading while the older one still waits; when that is answered, its lines replace them.
pub older_search_wins :
    (times : Times) (now now' : ℕ) (a : App) (older newer : Search) (b b' : Body)
    → a.searches ≡ older ∷ newer ∷ []
    → let c = finish_query times 1 now (resolved b') a in
      (c.logs ≡ shown_lines times newer b' now)
      × (c.is_loading ≡ false)
      × (c.searches ≡ older ∷ [])
      × ((finish_query times 0 now' (resolved b) c).logs ≡ shown_lines times older b now')
unfolding finish_query
older_search_wins times now now' a older newer b b' two =
    (ground arith, ground arith, ground arith, ground arith)
