-- ===== src/Server/Proxy.antt =====
-- web/vite.config.js: where the development server sends the requests of the page. Vite forwards a
-- request to the first entry whose key its path begins with, and an upgrade where the entry has `ws`.
use hackathon.Common.{
  Bool, true, false, ◌&&◌, ◌||◌, not, Option, none, some, List, [], ◌∷◌, ◌++◌, ◌≡◌, refl, sym, ap,
  Str, codes, or_else, if◌then◌else◌,
}
use hackathon.Address.{Params, Urls}
use hackathon.Query.Normalize.{starts_with}
use hackathon.Server.{Env, config}

-- An entry of `server.proxy`.
pub record Entry : Type 0 where
  pub key : Str
  pub target : Str
  pub change_origin : Bool
  pub ws : Bool

-- `server.proxy`
abbrev pub proxy : List Entry
proxy =
    record {
      key = codes "/api";
      target = codes "http://localhost:3001";
      change_origin = true;
      ws = false;
    }
    ∷ record {
      key = codes "/ws";
      target = codes "http://127.0.0.1:3001";
      change_origin = true;
      ws = true;
    }
    ∷ []

unfoldable pub forwarded_by : Bool → Str → List Entry → Option Str
unfolding starts_with
forwarded_by is_upgrade path [] = none
forwarded_by is_upgrade path (e ∷ entries) =
    if starts_with e.key path && (not is_upgrade || e.ws)
    then some e.target
    else forwarded_by is_upgrade path entries

-- Where a request for a path goes, an upgrade or not.
abbrev pub forwarded : Bool → Str → Option Str
forwarded is_upgrade path = forwarded_by is_upgrade path proxy

-- With no variable set for it, the server listens at the port that the searches and the sockets of
-- the page are sent to, whatever stands in their queries; and the page itself is not sent there.
forwarded-page :
    (params : Params) (urls : Urls params) (env : Env)
    → env.port ≡ []
    → (query : Str)
    → (forwarded false (codes "/api/logs/search?" ++ query)
        ≡ some (codes "http://localhost:" ++ (config params urls env).port))
      × (forwarded true (codes "/ws/logs?" ++ query)
          ≡ some (codes "http://127.0.0.1:" ++ (config params urls env).port))
      × (forwarded false (codes "/?" ++ query) ≡ none)
unfolding forwarded_by config
forwarded-page params urls env unset query =
    let port : (config params urls env).port ≡ codes "3001" =
      ap (λ p. or_else p (codes "3001")) unset in
    (
      ap (λ p. some (codes "http://localhost:" ++ p)) (sym port),
      ap (λ p. some (codes "http://127.0.0.1:" ++ p)) (sym port),
      refl,
    )
