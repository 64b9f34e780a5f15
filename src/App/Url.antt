-- ===== src/App/Url.antt =====
-- web/src/App.jsx: `readUrlState`, `writeUrlState` and the state that the page begins with.
-- `URLSearchParams` is the parameter `Params`; `Number` of a parameter's text is one too, 0 where
-- it is NaN. Minutes that are no natural number are not modelled.
use hackathon.Common.{
  ℕ, ◌^◌, ◌≤◌, ◌<◌, All-map, Bool, true, false, none, List, [], ◌∷◌, ◌≡◌, ◌≢◌, refl, ap, ◌∙◌, arith,
  Str, codes, or_else, str_eq, if◌then◌else◌, ◌==◌,
}
use hackathon.Common.Number.{decimal, decimal-AreDigits}
use hackathon.Query.Normalize.{Times}
use hackathon.Address.{Params, get_param, usv, usv-plain, usv_params}
use hackathon.App.{App, off, run_query}
use hackathon.App.Live.{run_effect, Step}

pub record UrlState : Type 0 where
  pub query : Str
  pub time_range : ℕ
  pub is_live : Bool

abbrev nonzero_or : ℕ → ℕ → ℕ
nonzero_or n d = if n == 0 then d else n

module _ (params : Params) where
  open params use {to_string, parse, number, parse-to_string, number-decimal}

  unfoldable pub read_url_state : Str → UrlState
  unfolding str_eq
  read_url_state search =
      let p = parse search in
      record {
        query = or_else (get_param (codes "q") p) (codes "timeout");
        time_range = nonzero_or (number (get_param (codes "minutes") p)) 15;
        is_live = str_eq (get_param (codes "live") p) (codes "1");
      }

  -- The query string that `replaceState` is given, without its `?`.
  unfoldable pub write_url_state : UrlState → Str
  write_url_state s = to_string (
      (codes "q", s.query)
      ∷ (codes "minutes", decimal s.time_range)
      ∷ (if s.is_live then (codes "live", codes "1") ∷ [] else []))

  abbrev params_of : UrlState → List (Str × Str)
  params_of s =
      (codes "q", s.query)
      ∷ (codes "minutes", decimal s.time_range)
      ∷ (if s.is_live then (codes "live", codes "1") ∷ [] else [])

  abbrev state_of : List (Str × Str) → UrlState
  state_of p = record {
    query = or_else (get_param (codes "q") p) (codes "timeout");
    time_range = nonzero_or (number (get_param (codes "minutes") p)) 15;
    is_live = str_eq (get_param (codes "live") p) (codes "1");
  }

  or_else_filled : (q d : Str) → q ≢ [] → or_else q d ≡ q
  or_else_filled [] d h = absurd (h refl)
  or_else_filled (c ∷ q) d h = refl

  state_of-params_of :
      (s : UrlState)
      → s.query ≢ []
      → s.time_range ≢ 0
      → s.time_range ≤ 2 ^ 53
      → state_of (params_of s) ≡ s
  unfolding str_eq
  state_of-params_of s filled positive exact =
      let range = number-decimal s.time_range exact in
      ground (arith, or_else_filled s.query (codes "timeout") filled, range)

  usv-decimal : (n : ℕ) → usv (decimal n) ≡ decimal n
  usv-decimal n =
      usv-plain (decimal n)
        (All-map (λ c. c < 55296) (λ c h. ground (arith, h)) (decimal n) (decimal-AreDigits n))

  usv_params-live :
      (b : Bool)
      → usv_params (if b then (codes "live", codes "1") ∷ [] else [])
        ≡ (if b then (codes "live", codes "1") ∷ [] else [])
  unfolding usv
  usv_params-live true = refl
  usv_params-live false = refl

  usv_params-params_of :
      (s : UrlState) → usv_params (params_of s) ≡ params_of (record s { query = usv s.query })
  unfolding usv
  usv_params-params_of s =
      ap
        (λ t.
          (codes "q", usv s.query)
          ∷ (codes "minutes", t)
          ∷ usv_params (if s.is_live then (codes "live", codes "1") ∷ [] else []))
        (usv-decimal s.time_range)
      ∙ ap (λ ps. (codes "q", usv s.query) ∷ (codes "minutes", decimal s.time_range) ∷ ps)
          (usv_params-live s.is_live)

  usv-ne-nil : (s : Str) → s ≢ [] → usv s ≢ []
  unfolding usv
  usv-ne-nil [] h = h
  usv-ne-nil (c ∷ []) h = cc
  usv-ne-nil (c ∷ d ∷ s) h = ground arith

  -- A page that is opened at the address that another one has written begins with the same range
  -- and live tail and with its query, in which U+FFFD stands for each surrogate without a partner,
  -- where the query is not empty and the range is not 0 and at most 2 ^ 53.
  pub read-write_url_state :
      (s : UrlState)
      → s.query ≢ []
      → s.time_range ≢ 0
      → s.time_range ≤ 2 ^ 53
      → read_url_state (write_url_state s) ≡ record s { query = usv s.query }
  unfolding read_url_state write_url_state
  read-write_url_state s filled positive exact =
      ap state_of (parse-to_string (params_of s) ∙ usv_params-params_of s)
      ∙ state_of-params_of (record s { query = usv s.query }) (usv-ne-nil s.query filled) positive
          exact

-- The page after its first render and effects: the initial query is sent, then the live tail's
-- effect runs.
unfoldable pub mount : UrlState → ℕ → App
unfolding run_query run_effect
mount u now = run_effect (
    run_query none none now (record {
      query = u.query;
      time_range = u.time_range;
      is_live = u.is_live;
      is_loading = false;
      logs = [];
      new_log_count = 0;
      socket_state = off;
      execution_time_ns = 0;
      query_error = none;
      socket_ref = none;
      buffer_ref = [];
      new_count_ref = 0;
      searches = [];
      effect = none;
    }))

pub data Reach (times : Times) (a : App) : App → Type 0 where
  here : Reach times a a
  next : {b c : App} → Reach times a b → Step times b c → Reach times a c
