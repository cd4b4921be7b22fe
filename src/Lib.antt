-- ===== src/Lib.antt =====
-- One Time Note: a server that keeps an encrypted note until it is opened once.
--
-- The program (Go, package main, at the repository's root) has a service over a bbolt database
-- and an HTTP layer in front of it. A client gets a ticket, stores one note under the ticket's
-- ID, and whoever has the ID and the burn token opens the note, which deletes it. Background
-- cleanups delete what has expired. This library models the service whole: what a ticket is, how
-- it is issued and verified, and the transactions that store, open and delete notes. Around it, it
-- models the configuration, the opening of the database, the start of the server, the handler of
-- the HTTP server from the middlewares to the endpoints and pages, and the server's shutdown.
--
-- Which file models what:
-- - Codec (common.go): `b64Encode`, `b64Decode`; Codec/Alphabet has the alphabet of base64url.
-- - NoteId (note_id.go) and BurnToken (burn_token.go, `deriveSubkey` of common.go): texts of IDs and
--   burn tokens, `burnTokenVerifier`. An ID or a token is a list of bytes; the type `[32]byte` is the
--   predicate `IsId` or `IsToken`.
-- - Records: the structs `Metadata`, `Note`, `UsedTicketMarker`, `TicketData`, `Ticket`, `rootKeyRecord`.
-- - RootKey (root_key.go): `getRootKey`, `putRootKey`, `EnsureRootKeys`.
-- - Ticket (ticket.go): `CreateTicket` is `create_ticket`, `verifyTicket` is `verify_ticket`, in the
--   pieces `read_ticket`, `validate_ticket_payload` and `check_signature`.
-- - NoteService (note_service.go): `CreateNote` is `create_note` in NoteService/Create, in the pieces
--   `prepare` (before the database is written), `create_once` (the closure `create`) and `retry` (what
--   follows it); `OpenNote` is `open_note` in NoteService/Open; `Cleanup` and `StartupMaintenance` are
--   in NoteService/Cleanup.
-- - Schema and OpenDb (database.go): the schema version in the bucket `config`; `openDB` is
--   `open_db`, on what a file holds, where a bucket may be missing.
-- - History: sequences of the service's transactions, in any order, as a step relation; in
--   History/Attempts the call that attempts to store a note may overlap them, in History/Once and
--   in Application it does not.
-- - Concurrent: calls of `CreateNote` and `OpenNote` and the background cleanup, interleaved at their
--   transactions; Concurrent/Alone joins it to `create_note`.
-- - RateLimiter (rate_limiter.go): `AllowRequest` is `allow_request`; RateLimiter/Table has the map of
--   buckets as a list of pairs in the order of its iteration.
-- - Http and Handlers (handlers.go, `requireJSONContentType` of http_helpers.go): `HandleCreateTicket`,
--   `HandleCreateNote` and `HandleOpenNote`, in the pieces `read_…_request` (up to the call of the
--   service) and `answer_…` (what follows it).
-- - Forwarded (the headers) and Proxy (proxy.go, `parsePublicOrigin` of config.go):
--   `TrustedProxyMiddleware` is `trusted_proxy_middleware`, whose result is the context that it sets
--   or the reason of the rejection.
-- - Routes (route_classifier.go, middleware.go): `fallbackRoutePattern` and `RateLimitMiddleware`.
-- - Configuration (config.go): sizes and links; in its children Parsing the other parsers, Env the names
--   of the variables, and Startup `NewConfigWithOptions`, in the pieces `check_environment` and
--   `read_…`.
-- - Web (http_helpers.go): what a handler writes to its `http.ResponseWriter`, of which the first status
--   is sent. Views (views.go and the handlers of pages) and Assets (static_assets.go) write to it.
-- - Application (main.go, middleware.go): `newServerHandler` is `serve_http`, in the order of its
--   middlewares; Application/Routing has its patterns, and Application/Events the requests and the
--   background cleanups, one after the other.
-- - Logging (logging.go, handlers.go): the records, and what the endpoints log; Application/Logged has
--   what is logged of a request, in its order, beside `serve_http`.
-- - Run (main.go): `run` up to the start of the server, in the pieces `maintain` (the maintenance and
--   what follows it) and `assemble` (what follows that); Run/Command has `main`.
-- - Server (main.go): `serveServer` as a step relation of its two goroutines, the main goroutine,
--   signals and requests.
-- - Clock (`time.Time`, `time.Duration`), Errors (the errors and fallible results), Base (lists, texts,
--   integers, tests and optional results that the others share).
-- - Example: a concrete platform, and each theorem with hypotheses applied to it.
--
-- State and environment. The state is the database, a record of five buckets. Readings of the
-- clock and random bytes are arguments of the operations that ask for them. What the program
-- calls and does not implement is the record Platform: bbolt's buckets with the laws of a map,
-- HKDF and HMAC-SHA-256, and JSON of the program's records, which reads what it has written. The
-- record Rate is golang.org/x/time/rate, and Http.Http is Go's `mime.ParseMediaType` and
-- `json.Decoder`, and Net is `net/netip`, `net/url` and the functions of `strings` that are about
-- Unicode. Parsing.Parsers has the parsers of durations, Booleans and prefixes and float64,
-- Views.Engine is `html/template`, and Application.NetHttp is the mux's splitting of a path,
-- `http.CrossOriginProtection` and the file server. Database has bbolt's transactions: the writes of a body that returns nil are kept if
-- the commit succeeds, and else none is; which calls of bbolt fail in a transaction is its
-- argument `Faults`, so every theorem says what it assumes there.
--
-- Bounds. A time is a number of nanoseconds since Go's zero time, and its range is not limited;
-- `Sub` stays at the ends of int64, and a lifetime is a signed number. No definition runs on
-- fuel: recursion is on a list, or on the number of rounds that a loop has left.
--
-- Not modelled: the time and the duration of a log record and the texts of errors in it, the
-- records that are not of a request or of the start, the fields of `http.Server`, the target and
-- the body of the mux's redirections, the embedded files, and the browser's code. The escaped form
-- of a path (`RawPath`) is left to the mux's splitting, a parameter. Requests whose transactions
-- interleave are the subject of Concurrent and History; in Application/Events a request is over
-- before the next begins. In Server, requests may arrive at any time, more often than
-- `net/http` lets them.
pub mod Base
pub mod Codec
pub mod Clock
pub mod Errors
pub mod Records
pub mod Platform
pub mod Database
pub mod Schema
pub mod OpenDb
pub mod Web
pub mod Views
pub mod Assets
pub mod Application
pub mod Run
pub mod NoteId
pub mod BurnToken
pub mod RootKey
pub mod Ticket
pub mod NoteService
pub mod RateLimiter
pub mod Server
pub mod Http
pub mod Handlers
pub mod Net
pub mod Forwarded
pub mod Proxy
pub mod Routes
pub mod Logging
pub mod Configuration
pub mod History
pub mod Concurrent
mod Example
