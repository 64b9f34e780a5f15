-- ===== src/Server/Shutdown.antt =====
-- The end of server/src/server.js: a signal, the sockets' `close` events, `closeClient`.
use hackathon.Common.{
  ℕ, true, false, List, [], ◌∷◌, map, map-append, ◌++◌, append-nil, append_assoc, subst, sym, ◌⊎◌,
  inl, inr, ◌≡◌, refl, ap, ◌∙◌, arith, Str, All,
}
use hackathon.Address.{Params, Urls}
use hackathon.Engine.{QueryRequest}
use hackathon.LiveTail.{Tail, poll, callback, stop}
use hackathon.LiveTail.Lifecycle as Lifecycle
use hackathon.Server.{
  Server, Upgrade, destroyed, connection, accept, on_upgrade, shutdown, close_client, close_socket,
  OneStep, at, later, Step, upgraded, bridged, signalled, ended, Reach, here, next,
}

abbrev pub requests_of : List Tail → List (List (QueryRequest ℕ))
requests_of ts = map (λ t. t.requests) ts

-- A server that ends: the sockets of the signal's time are closed or closing, in front of those that
-- came later.
record IsEnding (asked : List (List (QueryRequest ℕ))) (s : Server) : Type 0 where
  shut : s.listening ≡ false
  olds : List Tail
  news : List Tail
  split : s.tails ≡ olds ++ news
  closing : All (λ t. t.is_open ≡ false) olds
  silent : requests_of olds ≡ asked

module _ (digest : Str → Str) where
  Step-closing :
      {t u : Tail}
      → Lifecycle.Step digest t u
      → t.is_open ≡ false
      → (u.is_open ≡ false) × (u.requests ≡ t.requests)
  unfolding poll callback stop
  Step-closing (Lifecycle.fire now h e) o = ground arith
  Step-closing (Lifecycle.answer now reply h e) o = ground arith
  Step-closing (Lifecycle.close e) o = ground arith
  Step-closing (Lifecycle.disconnect e) o = ground arith

  OneStep-closing :
      {ts us : List Tail}
      → OneStep digest ts us
      → All (λ t. t.is_open ≡ false) ts
      → All (λ t. t.is_open ≡ false) us × (requests_of us ≡ requests_of ts)
  OneStep-closing {ts = []} st os = elim st [ ]
  OneStep-closing {ts = t ∷ ts} (at st) (o, os) =
      let (closed, asked) = Step-closing st o in ((closed, os), ap (λ r. r ∷ requests_of ts) asked)
  OneStep-closing {ts = t ∷ ts} (later st) (o, os) =
      let (closed, asked) = OneStep-closing st os in ((o, closed), ap (◌∷◌ t.requests) asked)

  OneStep-split :
      (xs ys : List Tail) {us : List Tail}
      → OneStep digest (xs ++ ys) us
      → ((vs : List Tail) × OneStep digest xs vs × (us ≡ vs ++ ys))
        ⊎ ((vs : List Tail) × (us ≡ xs ++ vs))
  OneStep-split [] ys {us} st = inr (us, refl)
  OneStep-split (x ∷ xs) ys (at {u = u} st) = inl (u ∷ xs, at st, refl)
  OneStep-split (x ∷ xs) ys (later st) = elim (OneStep-split xs ys st) [
    | inl (vs, old, e) ↦ inl (x ∷ vs, later old, ap (◌∷◌ x) e)
    | inr (vs, e) ↦ inr (vs, ap (◌∷◌ x) e)
  ]

map-closing : (ts : List Tail) → All (λ t. t.is_open ≡ false) (map close_socket ts)
map-closing [] = tt
map-closing (t ∷ ts) = (refl, map-closing ts)

requests_of-close : (ts : List Tail) → requests_of (map close_socket ts) ≡ requests_of ts
requests_of-close [] = refl
requests_of-close (t ∷ ts) = ap (◌∷◌ t.requests) (requests_of-close ts)

shutdown-IsEnding : (s : Server) → IsEnding (requests_of s.tails) (shutdown s)
unfolding shutdown
shutdown-IsEnding s = record {
  shut = refl;
  olds = map close_socket s.tails;
  news = [];
  split = sym (append-nil (map close_socket s.tails));
  closing = map-closing s.tails;
  silent = requests_of-close s.tails;
}

module _ (params : Params) (urls : Urls params) (digest : Str → Str) where
  accept-IsEnding :
      {asked : List (List (QueryRequest ℕ))} (up : Upgrade) (s : Server)
      → IsEnding asked s
      → IsEnding asked (accept up s)
  accept-IsEnding destroyed s i = i
  accept-IsEnding (connection t) s i = record {
    shut = i.shut;
    olds = i.olds;
    news = i.news ++ t ∷ [];
    split = ap (λ ts. ts ++ t ∷ []) i.split ∙ append_assoc i.olds i.news (t ∷ []);
    closing = i.closing;
    silent = i.silent;
  }

  bridged-IsEnding :
      {asked : List (List (QueryRequest ℕ))} (s : Server) (us : List Tail)
      → (i : IsEnding asked s) → OneStep digest (i.olds ++ i.news) us
      → IsEnding asked (record s { tails = us })
  bridged-IsEnding s us i st = elim (OneStep-split digest i.olds i.news st) [
    | inl (vs, old, e) ↦
        let (closing, same) = OneStep-closing digest old i.closing in
        record {
          shut = i.shut;
          olds = vs;
          news = i.news;
          split = e;
          closing = closing;
          silent = same ∙ i.silent;
        }
    | inr (vs, e) ↦ record {
      shut = i.shut;
      olds = i.olds;
      news = vs;
      split = e;
      closing = i.closing;
      silent = i.silent;
    }
  ]

  Step-IsEnding :
      {asked : List (List (QueryRequest ℕ))} {s u : Server}
      → Step params urls digest s u
      → IsEnding asked s
      → IsEnding asked u
  unfolding shutdown close_client
  Step-IsEnding {asked} {s} (upgraded url now poll_ms e) i =
      rw e (accept-IsEnding (on_upgrade params urls url now poll_ms) s i)
  Step-IsEnding {asked} {s} (bridged us st e) i =
      rw e (bridged-IsEnding s us i (subst (λ ts. OneStep digest ts us) i.split st))
  Step-IsEnding {asked} {s} (signalled e) i = rw e (record {
    shut = refl;
    olds = map close_socket i.olds;
    news = map close_socket i.news;
    split = ap (map close_socket) i.split ∙ map-append close_socket i.olds i.news;
    closing = map-closing i.olds;
    silent = requests_of-close i.olds ∙ i.silent;
  })
  Step-IsEnding (ended shut all e) i = rw e (record {
    shut = i.shut;
    olds = i.olds;
    news = i.news;
    split = i.split;
    closing = i.closing;
    silent = i.silent;
  })

  Reach-IsEnding :
      {asked : List (List (QueryRequest ℕ))} {s u : Server}
      → Reach params urls digest s u
      → IsEnding asked s
      → IsEnding asked u
  Reach-IsEnding here i = i
  Reach-IsEnding (next r st) i = Step-IsEnding st (Reach-IsEnding r i)

  -- Runs of the bridges.
  data Runs (ts : List Tail) : List Tail → Type 0 where
    done : Runs ts ts
    more : {us vs : List Tail} → Runs ts us → OneStep digest us vs → Runs ts vs

  Runs-later : {t : Tail} {ts us : List Tail} → Runs ts us → Runs (t ∷ ts) (t ∷ us)
  Runs-later done = done
  Runs-later (more r st) = more (Runs-later r) (later st)

  Runs-trans : {ts us vs : List Tail} → Runs ts us → Runs us vs → Runs ts vs
  Runs-trans r done = r
  Runs-trans r (more q st) = more (Runs-trans r q) st

  Runs-stop : (ts : List Tail) → Runs ts (map stop ts)
  Runs-stop [] = done
  Runs-stop (t ∷ ts) =
      Runs-trans (more done (at (Lifecycle.close refl))) (Runs-later (Runs-stop ts))

  Reach-trans :
      {s t u : Server}
      → Reach params urls digest s t
      → Reach params urls digest t u
      → Reach params urls digest s u
  Reach-trans r here = r
  Reach-trans r (next q st) = next (Reach-trans r q) st

  Runs-Reach :
      (s : Server) {us : List Tail}
      → Runs s.tails us
      → Reach params urls digest s (record s { tails = us })
  Runs-Reach s done = here
  Runs-Reach s (more r st) = next (Runs-Reach s r) (bridged _ st refl)

  stop-stopped : (ts : List Tail) → All (λ t. t.stopped ≡ true) (map stop ts)
  unfolding stop
  stop-stopped [] = tt
  stop-stopped (t ∷ ts) = (ground arith, stop-stopped ts)

  -- After a signal the bridges of its time ask the engine for nothing more, whatever events still
  -- come; those that begin later, on a connection that outlives the signal, stand behind them; and
  -- at any time the server can still come to its end, where the client of the engine is closed: by
  -- the `close` events of its sockets.
  pub shutdown_lem :
      (s : Server) {t : Server}
      → Reach params urls digest (shutdown s) t
      → (t.listening ≡ false)
        × (olds : List Tail) × (news : List Tail) × (t.tails ≡ olds ++ news)
        × (requests_of olds ≡ requests_of s.tails)
        × (u : Server) × Reach params urls digest t u
        × (u.client_open ≡ false)
  shutdown_lem s {t} r =
      let ending = Reach-IsEnding r (shutdown-IsEnding s) in
      (
        ending.shut,
        ending.olds,
        ending.news,
        ending.split,
        ending.silent,
        close_client (record t { tails = map stop t.tails }),
        next (Runs-Reach t (Runs-stop t.tails)) (ended ending.shut (stop-stopped t.tails) refl),
        unfold close_client in refl,
      )
