-- ===== src/Server.antt =====
-- server/src/server.js, server/src/config.js and the choice of the engine's address in
-- server/src/services/logClient.js. The server keeps the bridges of its sockets, the oldest first.
-- `http`, `express` and `ws` are told of by what they call: `on_upgrade`, `shutdown` and the steps
-- of `Step`. A handshake that `ws` refuses is no event.
pub mod Sockets
pub mod Shutdown
pub mod Proxy
pub mod Tests
use hackathon.Common.{
  ℕ, Bool, true, false, Option, none, some, List, [], ◌∷◌, ◌++◌, ◌≡◌, ◌≢◌, Str, codes, str_eq,
  or_else, if◌then◌else◌, map, All, not,
}
use hackathon.Address.{Params, Urls, get_param, socket_scheme}
use hackathon.LiveTail.{Tail, create_live_tail}
use hackathon.LiveTail.Lifecycle as Lifecycle

-- `process.env`. A variable that is not set is the empty string, which `||` takes alike.
pub record Env : Type 0 where
  pub port : Str
  pub go_socket_path : Str
  pub grpc_target : Str
  pub live_poll_ms : Str

pub record Config : Type 0 where
  pub port : Str
  pub socket_path : Str
  pub grpc_target : Str
  pub live_poll_ms : ℕ

-- `targetAddress`, by the platform.
unfoldable pub target_address : Bool → Config → Str
target_address is_windows c =
    or_else c.grpc_target
      (if is_windows then codes "127.0.0.1:50051" else codes "unix://" ++ c.socket_path)

-- What is done with a request to upgrade: its socket is destroyed, or a bridge begins.
pub data Upgrade : Type 0 where
  destroyed : Upgrade
  connection : Tail → Upgrade

pub record Server : Type 0 where
  pub tails : List Tail
  pub listening : Bool
  pub client_open : Bool

module _ (params : Params) (urls : Urls params) where
  unfoldable pub config : Env → Config
  config env = record {
    port = or_else env.port (codes "3001");
    socket_path = or_else env.go_socket_path (codes "/tmp/log_engine.sock");
    grpc_target = env.grpc_target;
    live_poll_ms = params.number (or_else env.live_poll_ms (codes "400"));
  }

  -- `websocketUrl` of the page, for `window.location`.
  unfoldable pub websocket_url : Bool → Str → Str → Str
  websocket_url secure host term =
      socket_scheme secure
      ++ (codes "//"
          ++ (host ++ (codes "/ws/logs?" ++ params.to_string ((codes "term", term) ∷ []))))

  -- `wsServer.on('connection', …)` for the request's target.
  unfoldable pub on_connection : Str → ℕ → ℕ → Tail
  on_connection url now poll_ms =
      create_live_tail now true (get_param (codes "term") (params.parse (urls.search url))) poll_ms

  -- `server.on('upgrade', …)`
  unfoldable pub on_upgrade : Str → ℕ → ℕ → Upgrade
  unfolding on_connection
  on_upgrade url now poll_ms =
      if str_eq (urls.pathname url) (codes "/ws/logs")
      then connection (on_connection url now poll_ms)
      else destroyed

abbrev pub accept : Upgrade → Server → Server
accept destroyed s = s
accept (connection t) s = record s { tails = s.tails ++ t ∷ [] }

-- `ws.close(1001, …)`
abbrev pub close_socket : Tail → Tail
close_socket t = record t { is_open = false }

unfoldable pub shutdown : Server → Server
shutdown s = record s { tails = map close_socket s.tails; listening = false }

-- The callback of `server.close`: `closeClient`.
unfoldable pub close_client : Server → Server
close_client s = record s { client_open = false }

-- One of the bridges makes a step.
pub data OneStep (digest : Str → Str) : List Tail → List Tail → Type 0 where
  at : {t u : Tail} {ts : List Tail} → Lifecycle.Step digest t u → OneStep digest (t ∷ ts) (u ∷ ts)
  later : {t : Tail} {ts us : List Tail} → OneStep digest ts us → OneStep digest (t ∷ ts) (t ∷ us)

-- A request to upgrade may also come behind the signal, on a connection that outlives it.
-- `server.close` calls back when every connection has ended, that is, when the `close` event of
-- each socket has stopped its bridge.
pub data Step (params : Params) (urls : Urls params) (digest : Str → Str) (s u : Server)
    : Type 0 where
  upgraded :
      (url : Str) (now poll_ms : ℕ)
      → u ≡ accept (on_upgrade params urls url now poll_ms) s
      → Step params urls digest s u
  bridged :
      (us : List Tail)
      → OneStep digest s.tails us
      → u ≡ record s { tails = us }
      → Step params urls digest s u
  signalled : u ≡ shutdown s → Step params urls digest s u
  ended :
      s.listening ≡ false
      → All (λ t. t.stopped ≡ true) s.tails
      → u ≡ close_client s
      → Step params urls digest s u

pub data Reach (params : Params) (urls : Urls params) (digest : Str → Str) (s : Server)
    : Server → Type 0 where
  here : Reach params urls digest s s
  next :
      {t u : Server}
      → Reach params urls digest s t
      → Step params urls digest t u
      → Reach params urls digest s u
