-- ===== src/Server/Tests.antt =====
-- The server of server/src/server.js at concrete inputs.
use hackathon.Common.{
  str_eq, ◌∙◌, append-nil, ℕ, Bool, true, false, not, ◌==◌, some, List, [], ◌∷◌, ◌++◌, ◌≡◌, refl,
  ap, arith, Str, codes, drop, drop_while, take_while, is_word,
}
use hackathon.Common.Number.{digits_value}
use hackathon.Address.{usv, Urls, AreUnits, is_host, is_path, socket_scheme}
use hackathon.App.Tests.{marked, page}
use hackathon.App.Live.{toggle_live}
use hackathon.App.{App}
use hackathon.Query.{parse_query}
use hackathon.LiveTail.{Tail, create_live_tail, tail_request}
use hackathon.Server.{
  Server, Env, config, target_address, websocket_url, connection, destroyed, on_upgrade, shutdown,
  Reach, here,
}
use hackathon.Server.Sockets.{live_term_asked}
use hackathon.Server.Shutdown.{shutdown_lem, requests_of}

abbrev unlike : ℕ → ℕ → Bool
unlike k c = not (c == k)

drop_while-pass : (p : ℕ → Bool) (s t : Str) → AreUnits p s → drop_while p (s ++ t) ≡ drop_while p t
unfolding drop_while
drop_while-pass p [] t h = refl
drop_while-pass p (c ∷ s) t (h, hs) = rw h (drop_while-pass p s t hs)

take_while-pass :
    (p : ℕ → Bool) (s t : Str) → AreUnits p s → take_while p (s ++ t) ≡ s ++ take_while p t
unfolding take_while
take_while-pass p [] t h = refl
take_while-pass p (c ∷ s) t (h, hs) = rw h (ap (◌∷◌ c) (take_while-pass p s t hs))

path_unlike : (s : Str) → AreUnits is_path s → AreUnits (unlike b'?') s
unfolding is_word
path_unlike [] h = tt
path_unlike (c ∷ s) (h, hs) = (ground arith, path_unlike s hs)

host_unlike : (s : Str) → AreUnits is_host s → AreUnits (unlike b'/') s
unfolding is_word
host_unlike [] h = tt
host_unlike (c ∷ s) (h, hs) = (ground arith, host_unlike s hs)

cut_search : Str → Str
unfolding drop_while
cut_search s = drop 1 (drop_while (unlike b'?') s)

cut_path : Str → Str
unfolding take_while
cut_path s = take_while (unlike b'?') s

cut_target : Str → Str
unfolding drop_while
cut_target s = drop_while (unlike b'/') (drop 2 (drop_while (unlike b'/') s))

cut_search-query : (path q : Str) → AreUnits is_path path → cut_search (path ++ (b'?' ∷ q)) ≡ q
unfolding cut_search
cut_search-query path q h =
    ap (drop 1) (drop_while-pass (unlike b'?') path (b'?' ∷ q) (path_unlike path h))

cut_path-query : (path q : Str) → AreUnits is_path path → cut_path (path ++ (b'?' ∷ q)) ≡ path
unfolding cut_path
cut_path-query path q h =
    take_while-pass (unlike b'?') path (b'?' ∷ q) (path_unlike path h) ∙ append-nil path

cut_target-host :
    (secure : Bool) (host rest : Str)
    → AreUnits is_host host
    → cut_target (socket_scheme secure ++ (codes "//" ++ (host ++ (b'/' ∷ rest)))) ≡ b'/' ∷ rest
unfolding cut_target
cut_target-host true host rest h =
    drop_while-pass (unlike b'/') host (b'/' ∷ rest) (host_unlike host h)
cut_target-host false host rest h =
    drop_while-pass (unlike b'/') host (b'/' ∷ rest) (host_unlike host h)

abbrev cut : Urls marked
cut = record {
  target = cut_target;
  pathname = cut_path;
  search = cut_search;
  target-url = λ secure host path ps h k. cut_target-host secure host _ h;
  pathname-target = λ path ps h. cut_path-query path _ h;
  search-target = λ path ps h. cut_search-query path _ h;
}

host_units : AreUnits is_host (codes "localhost:5173")
unfolding is_word
host_units = ground arith

abbrev quiet_page : App
quiet_page = record (page [] [] []) { is_live = false; query = codes "| \"disk\"" }

live_term_asked_example :
    (t : Tail) × ((toggle_live quiet_page).socket_ref
      ≡ some (parse_query quiet_page.query).primary_term)
    × (on_upgrade marked cut
          (cut_target (
            websocket_url marked cut true
              (codes "localhost:5173")
              (parse_query quiet_page.query).primary_term))
          7000000
          400
        ≡ connection t)
    × (t.poll_ms ≡ 400)
    × (t.requests ≡ tail_request (usv (parse_query quiet_page.query).primary_term) 7000000 ∷ [])
live_term_asked_example =
    live_term_asked marked cut true (codes "localhost:5173") 7000000 400 quiet_page host_units refl

other_path : on_upgrade marked cut (codes "/ws?term=x") 5 400 ≡ destroyed
unfolding on_upgrade cut_path take_while str_eq
other_path = refl

abbrev env : Env
env = record { port = []; go_socket_path = []; grpc_target = []; live_poll_ms = codes "250" }

configured :
    (target_address false (config marked cut env) ≡ codes "unix:///tmp/log_engine.sock")
    × ((config marked cut env).live_poll_ms ≡ 250)
unfolding config target_address digits_value
configured = (refl, refl)

abbrev two_tails : Server
two_tails = record {
  tails =
      create_live_tail 7000000 true (codes "a") 400
      ∷ create_live_tail 7000001 true (codes "b") 400
      ∷ [];
  listening = true;
  client_open = true;
}

shutdown_lem_example :
    ((shutdown two_tails).listening ≡ false)
    × (olds : List Tail) × (news : List Tail) × ((shutdown two_tails).tails ≡ olds ++ news)
    × (requests_of olds ≡ requests_of two_tails.tails)
    × (u : Server) × Reach marked cut (λ s. s) (shutdown two_tails) u
    × (u.client_open ≡ false)
shutdown_lem_example = shutdown_lem marked cut (λ s. s) two_tails here
