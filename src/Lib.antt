-- ===== src/Lib.antt =====
-- Chronolog: the Node server (server/src), the React client (web/src) and the Go engine (engine).
--
-- The client parses the query bar (web/src/lib/queryParser.js, `parseQuery`), asks the server's
-- search endpoint (server/src/controllers/queryController.js, `handleSearch`), which asks the Go
-- engine over gRPC, and normalises and filters the records that come back (`normalizeLogEntry`,
-- `applyLabelFilters`). For the live tail it opens a WebSocket, for which the server polls the
-- engine and sends the records that it has not sent before (server/src/services/liveTail.js,
-- `createLiveTail`).
--
-- Common: Boolean tests, lists, text, decimal numbers and doubles. A string is a list of UTF-16
--   code units. Common/Double rounds whole numbers as doubles do; its fuel is the number itself,
--   which is halved in each round. Common/Number prints numbers with the same kind of fuel.
-- Regex: the regular expressions of the source, run as ECMAScript's backtracking does. `matches`
--   lists all ways to match in the order in which they are tried. Loops over a text recur on the
--   text, with a count of the units that a match has used up; none needs fuel.
--   Regex/Loop has the loops over `re.exec` as the source has them, with fuel for one round more
--   than the text has units.
-- Engine: the messages of server/proto/logservice.proto as the Node client loads them. Its children
--   are the Go engine, on bytes as numbers and 64-bit words: Keys (engine/internal/storage/schema.go),
--   Db (LevelDB and its laws, with a database in memory), Index
--   (engine/internal/search/memory_index.go), Find (`SearchTerm` of engine/internal/search/query.go,
--   with Find/Reference as its specification), Tokens (engine/internal/pipeline/tokenizer.go), Syslog
--   (engine/internal/ingestion/parser.go), Items (engine/internal/pipeline/worker_pool.go), Loop (the
--   loop of engine/cmd/server/main.go; Loop/History has the states that it can come to, over restarts
--   and failed writes, and Loop/Runs its runs), Pipeline (the
--   goroutines and channels of worker_pool.go and main.go as a step relation, with the size of a
--   channel and the number of workers as arguments), Service (`Query` and `StreamQuery` of
--   engine/internal/ipc/grpc_server.go) and Ingest (`handleIngest` of
--   engine/internal/ingestion/http.go). A search sees one state of the loop, between any two of its
--   steps. None of it needs fuel.
-- LiveTail: the closure of `createLiveTail` as a record, its functions `stop`, `poll` and the
--   callback as functions on it; LiveTail/Lifecycle has the event loop as a step relation.
-- Search: `handleSearch` before the call (`handle_search`) and its callback (`answer_search`).
-- Search/Client: `searchLogs` of web/src/lib/api.js, and the endpoint's answers as HTTP replies.
-- Query: `parseQuery`; Query/Normalize: `normalizeLogEntry` and `applyLabelFilters`.
-- App: the state of web/src/App.jsx, `runQuery` in two parts around its `await`, the searches
--   that wait between them, and the error banner. App/Live has the live tail's effect, its socket,
--   buffer and flush, and the handlers; its `Step` is any event of the page. App/Url has
--   `readUrlState` and `writeUrlState`, App/Window the page's searches at the endpoint,
--   App/Round their whole way, and App/Shown and App/Unfiltered that way with the engine, with
--   `Whole` for what doubles do with whole numbers up to 2 ^ 53. Timers and sockets fire at any
--   time, so that the delays of 350 ms and 1000 ms do not occur.
--   App/Live/Wire has a bridge's frames as the page's messages, App/Live/Chain the bridge, the
--   frames on their way and the page, App/Answers the page with the
--   endpoint behind its searches, App/Status the row of status texts.
-- Server: `on('upgrade')`, `on('connection')` and `shutdown` of server/src/server.js on the list of
--   its bridges, with the events of the server as `Step`; config.js and the engine's address of
--   services/logClient.js. Server/Proxy has the proxy of web/vite.config.js.
-- Address: the query strings and URLs of the page and the server.
-- QueryBar: the handlers of web/src/components/QueryBar.jsx on the page, with its menu and
--   focus; QueryBar/View has what it shows of them.
-- Viewer: the state, handlers and rows of web/src/components/LogViewer.jsx; Viewer/Highlight has
--   `highlightText`, Viewer/Stamp `formatTimestamp`, Viewer/Footer the footer.
-- MockData: the generators of web/src/lib/mockData.js on a sequence of draws. Each operation on
--   doubles rounds, in units in which its result is whole (Common/Double, with the bounds of
--   Common/Double/Rounding and the quotients of Common/Double/Quotient).
-- MockEngine: the data handler of a connection of scripts/mock_go_engine.js.
--
-- Parameters: SHA-1 (`digest`), doubles in the endpoint (`Numbers`, with the laws that scaling
-- keeps order and sign), dates and `Number` in normalisation (`Times`), `URLSearchParams`
-- (`Params`) and `URL` (`Urls`), `new Date` and `toLocaleString` in the viewer (`date_of`,
-- `locale`), protobufjs in the mock engine (`Codec`), `Math.random` in the mock data (`draws`),
-- LevelDB (`LevelDb`), Unicode in the tokenizer (`Runes`), and protobuf between the server and the
-- engine (`Wire`, which has no text for bytes that are no UTF-8). What a query string carries is
-- converted by `usv`, which puts U+FFFD in place of a surrogate without a partner.
-- Not modelled: the engine's sockets with the queues behind them, its start, its benchmarks and
-- command-line clients; errors of single reads from LevelDB, which the code takes for logs that are
-- not there; a search during which the loop writes; the start of express, ws, grpc and React, with
-- the routes other than the search, and the loading of the protocol file; a LIVE_POLL_MS that is no
-- whole number; styles; the viewer's virtualizer, of which the requests to scroll are kept; ranges
-- that are no whole number of minutes; query parameters that are given twice; surrogates
-- without a partner in the term of a search, for which its query string has U+FFFD; properties that
-- JavaScript objects inherit; numbers of 2 ^ 1024 and above.

pub mod Address
pub mod App
pub mod Common
pub mod Engine
pub mod LiveTail
pub mod MockData
pub mod MockEngine
pub mod Query
pub mod QueryBar
pub mod Regex
pub mod Search
pub mod Server
pub mod Viewer
