-- ===== src/Server/Sockets.antt =====
-- The live tail from the query of web/src/App.jsx to the bridge of server/src/server.js that serves
-- it.
use hackathon.Common.{
  is_word, ℕ, Bool, true, false, some, List, [], ◌∷◌, ◌++◌, ◌≡◌, refl, ap, ◌∙◌, arith, Str, codes,
  str_eq, if◌then◌else◌,
}
use hackathon.Address.{Params, Urls, get_param, usv, AreUnits, is_host, is_path}
use hackathon.LiveTail.{Tail, create_live_tail, tail_request}
use hackathon.Query.{parse_query}
use hackathon.App.{App}
use hackathon.App.Live.{toggle_live}
use hackathon.Server.{connection, destroyed, websocket_url, on_connection, on_upgrade}

path_units : AreUnits is_path (codes "ws/logs")
unfolding is_word
path_units = ground arith

slash_units : AreUnits is_path (codes "/ws/logs")
unfolding is_word
slash_units = ground arith

module _ (params : Params) (urls : Urls params) where
  abbrev socket_params : Str → List (Str × Str)
  socket_params term = (codes "term", term) ∷ []

  abbrev socket_target : Str → Str
  socket_target term = codes "/ws/logs?" ++ params.to_string (socket_params term)

  target-websocket_url :
      (secure : Bool) (host term : Str)
      → AreUnits is_host host
      → urls.target (websocket_url params urls secure host term) ≡ socket_target term
  unfolding websocket_url
  target-websocket_url secure host term valid =
      urls.target-url secure host (codes "ws/logs") (socket_params term) valid path_units

  on_connection-target :
      (term : Str) (now poll_ms : ℕ)
      → on_connection params urls (socket_target term) now poll_ms
        ≡ create_live_tail now true (usv term) poll_ms
  unfolding on_connection str_eq usv
  on_connection-target term now poll_ms =
      ap (λ q. create_live_tail now true (get_param (codes "term") (params.parse q)) poll_ms)
        (urls.search-target (codes "/ws/logs") (socket_params term) slash_units)
      ∙ ap (λ ps. create_live_tail now true (get_param (codes "term") ps) poll_ms)
          (params.parse-to_string (socket_params term))

  on_upgrade-target :
      (term : Str) (now poll_ms : ℕ)
      → on_upgrade params urls (socket_target term) now poll_ms
        ≡ connection (create_live_tail now true (usv term) poll_ms)
  unfolding on_upgrade str_eq
  on_upgrade-target term now poll_ms =
      ap
        (λ path.
          if str_eq path (codes "/ws/logs")
          then connection (on_connection params urls (socket_target term) now poll_ms)
          else destroyed)
        (urls.pathname-target (codes "/ws/logs") (socket_params term) slash_units)
      ∙ ap connection (on_connection-target term now poll_ms)

  toggle_live-socket :
      (a : App)
      → a.is_live ≡ false
      → (toggle_live a).socket_ref ≡ some (parse_query a.query).primary_term
  unfolding toggle_live
  toggle_live-socket a off = ground arith

  create_live_tail-requests :
      (now : ℕ) (term : Str) (poll_ms : ℕ)
      → (create_live_tail now true term poll_ms).requests ≡ tail_request term now ∷ []
  unfolding create_live_tail
  create_live_tail-requests now term poll_ms = refl

  -- When the live tail of a page is switched on, the URL of its socket leads to a bridge whose first
  -- request asks the engine for the primary term of the page's query, in which U+FFFD stands for
  -- each surrogate without a partner.
  pub live_term_asked :
      (secure : Bool) (host : Str) (now poll_ms : ℕ) (a : App)
      → AreUnits is_host host
      → a.is_live ≡ false
      → (t : Tail) × ((toggle_live a).socket_ref ≡ some (parse_query a.query).primary_term)
        × (on_upgrade params urls
              (urls.target
                (websocket_url params urls secure host (parse_query a.query).primary_term))
              now
              poll_ms
            ≡ connection t)
        × (t.poll_ms ≡ poll_ms)
        × (t.requests ≡ tail_request (usv (parse_query a.query).primary_term) now ∷ [])
  live_term_asked secure host now poll_ms a valid off =
      let term = (parse_query a.query).primary_term in
      (
        create_live_tail now true (usv term) poll_ms,
        toggle_live-socket a off,
        ap (λ url. on_upgrade params urls url now poll_ms)
              (target-websocket_url secure host term valid)
            ∙ on_upgrade-target term now poll_ms,
        unfold create_live_tail in refl,
        create_live_tail-requests now (usv term) poll_ms,
      )
