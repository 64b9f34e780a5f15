-- ===== src/App/Answers.antt =====
-- The page of web/src/App.jsx with the endpoint of server/src/controllers/queryController.js behind
-- its searches.
use hackathon.Common.{ℕ, none, ◌≡◌, refl, arith, Str, ◌⊎◌, inl, inr}
use hackathon.Query.Normalize.{Times}
use hackathon.Search.{Answer, bad_request, bad_gateway, found}
use hackathon.Search.Client.{Settled, resolved, rejected, network_error, http_of, search_logs}
use hackathon.App.{App, run_query, finish_query}
use hackathon.App.Url.{UrlState, mount}
use hackathon.App.Live.{
  connect, toggle_live, on_open, on_error, on_close, on_message, flush, on_time_range_change,
  on_live_toggle, on_key, Step, typed, ran, settled, ranged, toggled, pressed, opened, received,
  broke, closed, reconnected, flushed, dismissed,
}

-- The endpoint answers, or `fetch` fails.
abbrev pub FromEndpoint : Settled → Type 0
FromEndpoint r =
    ((m : Str) × (r ≡ search_logs (network_error m)))
    ⊎ ((x : Answer) × (r ≡ search_logs (http_of x)))

abbrev pub IsAnswered : {times : Times} {a b : App} → Step times a b → Type 0
IsAnswered (settled i now r e) = FromEndpoint r
IsAnswered st = Unit

-- What can become of the page, where the searches are settled by the endpoint.
pub data Answered (times : Times) (a : App) : App → Type 0 where
  here : Answered times a a
  next :
      {b c : App} → Answered times a b → (st : Step times b c) → IsAnswered st → Answered times a c

abbrev NoTime : Settled → Type 0
NoTime (resolved b) = b.execution_time_ns ≡ none
NoTime (rejected e) = Unit

FromEndpoint-NoTime : (r : Settled) → FromEndpoint r → NoTime r
unfolding search_logs
FromEndpoint-NoTime r (inl (m, e)) = rw e tt
FromEndpoint-NoTime r (inr (bad_request, e)) = rw e tt
FromEndpoint-NoTime r (inr (bad_gateway d, e)) = rw e tt
FromEndpoint-NoTime r (inr (found count total logs, e)) = rw e refl

module _ (times : Times) where
  finish_query-zero :
      (i now : ℕ) (r : Settled) (a : App)
      → NoTime r
      → a.execution_time_ns ≡ 0
      → (finish_query times i now r a).execution_time_ns ≡ 0
  unfolding finish_query
  finish_query-zero i now (resolved b) a none_ h = ground arith
  finish_query-zero i now (rejected e) a none_ h = ground arith

  Step-zero :
      {a b : App}
      → (st : Step times a b) → IsAnswered st
      → a.execution_time_ns ≡ 0
      → b.execution_time_ns ≡ 0
  unfolding run_query on_time_range_change on_live_toggle on_open on_error flush toggle_live on_key
      on_close connect on_message
  Step-zero (typed q e) ok h = ground arith
  Step-zero (ran now e) ok h = ground arith
  Step-zero {a} (settled i now r e) ok h =
      rw e (finish_query-zero i now r a (FromEndpoint-NoTime r ok) h)
  Step-zero (ranged m now e) ok h = ground arith
  Step-zero (toggled now e) ok h = ground arith
  Step-zero (pressed tag code e) ok h = ground arith
  Step-zero (opened e) ok h = ground arith
  Step-zero (received p now e) ok h = ground arith
  Step-zero (broke e) ok h = ground arith
  Step-zero (closed e) ok h = ground arith
  Step-zero (reconnected x has waits e) ok h = ground arith
  Step-zero (flushed runs e) ok h = ground arith
  Step-zero (dismissed e) ok h = ground arith

  mount-zero : (u : UrlState) (now : ℕ) → (mount u now).execution_time_ns ≡ 0
  unfolding mount
  mount-zero u now = ground arith

  pub execution_time_zero :
      (u : UrlState) (now : ℕ) {a : App} → Answered times (mount u now) a → a.execution_time_ns ≡ 0
  execution_time_zero u now here = mount-zero u now
  execution_time_zero u now (next r st ok) = Step-zero st ok (execution_time_zero u now r)
