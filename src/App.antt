-- ===== src/App.antt =====
-- web/src/App.jsx: the state of the page, the search and the error banner. App/Live has the live
-- tail. React's state and refs are the fields of `App`; a search that waits for its response is an
-- element of `searches`, the oldest first.
pub mod Live
pub mod Url
pub mod Window
pub mod Searches
pub mod Status
pub mod Answers
pub mod Round
pub mod Unfiltered
pub mod Shown
pub mod Tests
use hackathon.Common.{
  ℕ, zero, suc, ◌*◌, ◌-◌, Bool, true, false, ◌||◌, Option, none, some, List, [], ◌∷◌, ◌++◌, Str,
  codes, or_else, leb, if◌then◌else◌, str_eq,
}
use hackathon.Common.Number.{decimal}
use hackathon.Query.{Label, parse_query}
use hackathon.Query.Filters.{apply_label_filters}
use hackathon.Query.Normalize.{RawEntry, DisplayLog, Times, normalize_log_entry, lower, includes}
use hackathon.Search.{SearchQuery}
use hackathon.Search.Client.{AppError, Body, Settled, resolved, rejected, search_params}

pub data SocketState : Type 0 where
  off connecting connected failed : SocketState
  told : Str → SocketState  -- the `state` of a status frame

-- A search that was sent: its request, and the labels for its result.
pub record Search : Type 0 where
  pub request : SearchQuery
  pub labels : List Label

-- What the effect of the live tail holds while it runs.
pub record Effect : Type 0 where
  pub term : Str  -- `parsed.primaryTerm`
  pub reconnect_timer : Bool

pub record App : Type 0 where
  pub query : Str
  pub time_range : ℕ
  pub is_live : Bool
  pub is_loading : Bool
  pub logs : List DisplayLog
  pub new_log_count : ℕ
  pub socket_state : SocketState
  pub execution_time_ns : ℕ
  pub query_error : Option AppError
  pub socket_ref : Option Str  -- the term of the socket's URL
  pub buffer_ref : List DisplayLog
  pub new_count_ref : ℕ
  pub searches : List Search
  pub effect : Option Effect

abbrev pub or_else? {ℓ} : {A : Type ℓ} → Option A → A → A
or_else? none d = d
or_else? (some a) d = a

-- `runQuery` up to its `await`, at `Date.now()`. `none` is an argument that is not given.
unfoldable pub run_query : Option Str → Option ℕ → ℕ → App → App
run_query override_query override_range now a =
    let parsed = parse_query (or_else? override_query a.query) in
    let range = or_else? override_range a.time_range in
    record a {
      is_loading = true;
      query_error = none;
      new_log_count = 0;
      new_count_ref = 0;
      searches =
          a.searches
          ++ record {
            request = search_params parsed.primary_term range now 500;
            labels = parsed.labels;
          }
            ∷ [];
    }

abbrev pub get_search : ℕ → List Search → Option Search
get_search i [] = none
get_search zero (s ∷ ss) = some s
get_search (suc i) (s ∷ ss) = get_search i ss

abbrev pub remove_search : ℕ → List Search → List Search
remove_search i [] = []
remove_search zero (s ∷ ss) = ss
remove_search (suc i) (s ∷ ss) = s ∷ remove_search i ss

abbrev or_zero : Option ℕ → ℕ
or_zero none = 0
or_zero (some n) = n

module _ (times : Times) where
  -- `(result.logs || []).map((e, i) => normalizeLogEntry(e, i))`
  unfoldable pub normalize_all : List RawEntry → ℕ → ℕ → List DisplayLog
  normalize_all [] index now = []
  normalize_all (e ∷ es) index now =
      normalize_log_entry times e index now ∷ normalize_all es (suc index) now

  -- The lines that a body puts on the page.
  abbrev pub shown_lines : Search → Body → ℕ → List DisplayLog
  shown_lines s body now = apply_label_filters (normalize_all body.logs 0 now) s.labels

  abbrev settle : Search → ℕ → Settled → App → App
  settle s now (resolved body) a = record a {
    logs = shown_lines s body now;
    execution_time_ns = or_zero body.execution_time_ns;
  }
  settle s now (rejected e) a = record a { query_error = some e; logs = []; execution_time_ns = 0 }

  -- `runQuery` behind its `await`, for the `i`-th of the searches that wait; `finally` included.
  unfoldable pub finish_query : ℕ → ℕ → Settled → App → App
  finish_query i now r a = elim (get_search i a.searches) [
    | none ↦ a
    | some s ↦ record (settle s now r a) {
      is_loading = false;
      searches = remove_search i a.searches;
    }
  ]

-- `isEngineDown` of `ErrorBanner`.
unfoldable pub is_engine_down : AppError → Bool
is_engine_down e =
    str_eq e.code (codes "ENGINE_ERROR")
    || includes (codes "502") (lower e.message)
    || includes (codes "grpc") (lower e.message)

-- The texts of `ErrorBanner`: none, the hint at the engine or the message; and the details.
pub data Banner : Type 0 where
  hidden : Banner
  engine_down : (details : Str) → Banner
  message : Str → (details : Str) → Banner

unfoldable pub error_banner : Option AppError → Banner
unfolding is_engine_down
error_banner none = hidden
error_banner (some e) =
    if is_engine_down e then engine_down e.details else message e.message e.details

-- `onDismiss`
abbrev pub dismiss : App → App
dismiss a = record a { query_error = none }
