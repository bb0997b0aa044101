-- ===== src/Lib.antt =====
-- Verification of the echo backend.
--
-- The program is an API for anonymous posts. A handler (internal/handler) reads a request and calls
-- a service (internal/service), which checks the arguments and calls repositories
-- (internal/repository), Redis, and the JWT and bcrypt libraries.
--
-- Files, with the code they model:
--   Base, Base/*          shared names, Boolean tests, lists and integers over the native numbers
--   Text                  strings: `Text` is a list of code points, `len` counts its UTF-8 bytes
--   Errors                internal/domain/errors.go and Go's wrapped errors; `is_error` is errors.Is
--   Effect                code with effects: a function of the world that returns a result and the
--                         world after it; a Go `if err != nil { return err }` is a bind. `Ensures`
--                         speaks of both outcomes; Effect/Rules has one rule for each combinator
--   Domain                internal/domain: entities
--   Database              gorm and PostgreSQL: a record of operations on tables, with their laws
--   System                time.Now and uuid.New
--   Redis, SortedSets     go-redis: keys, and the commands that a pipeline queues on sorted sets
--   Crypto                golang-jwt, bcrypt, google/uuid and SHA-256
--   Config, Config/*      internal/config/config.go: the environment is read as the source reads it,
--                         with Numbers for strconv; Faults is the table of the variables
--   Pseudonym             pkg/pseudonym/generator.go, over the random source of math/rand
--   Repository/*          internal/repository: one file for each of post.go, report.go, user.go and
--                         feed.go, and what each method does to the rows, in Rows, Inserts, Upsert
--   Service/*             internal/service: Posts, Reports, Feeds, Auth for post.go, report.go,
--                         feed.go, auth.go; Limits for the bounds they share. The theorems stand in
--                         child modules
--   Middleware/*          internal/middleware: Gin for gin.Context, Auth for auth.go, Admin for
--                         admin.go, Headers for cors.go, noip.go and internal/audit/ip_audit.go,
--                         Security for security.go, Tor for tor.go, RateLimit for ratelimit.go,
--                         Logger for logger.go; Secured for what they leave of Security's headers
--   Handler/*             internal/handler: Errors for errors.go; Posts for post.go, reply.go and
--                         reaction.go; Reports for report.go and admin.go; Sessions for auth.go;
--                         Feeds for feed.go; Health for health.go; Websocket for ws.go; Request and
--                         Services for what they share and call
--   Router, Router/*      the wiring in cmd/server/main.go: Shared for the middleware of all routes,
--                         Routes for the table of routes, Server for a request through the shared
--                         middleware, that of its route and the handler. Delete, Publish and
--                         Moderate follow three routes from the header to the rows, and the
--                         children of Server these and others from the request
--   Lifecycle             the start and the stop of the process in cmd/server/main.go, as the calls
--                         that `run` makes and the value that it returns
--   Diagnose              cmd/diagregister/main.go
--   Hub, Hub/*            internal/hub/hub.go: a step relation on the hub's channels and clients;
--                         Hub/Order follows what one client is sent over a whole run; Hub/Client
--                         for client.go over a connection
--   Tests/*               a world in memory that has every law, and the theorems at concrete inputs
--
-- A method `GetByID` of `Post` is `get_by_id` of Repository/Posts or Service/Posts, and so on.
-- Where a Go method fills in fields of a struct behind a pointer, the function returns the struct.
--
-- Code outside the repository is a parameter with laws as hypotheses: an operation of the database
-- may fail at any call and then changes no row; a transaction that fails is rolled back; removing
-- posts removes their replies, reactions and reports (the cascades of migrations/); Redis keeps
-- what it was given for a positive time, and runs a pipeline as a whole or not at all; a bcrypt
-- hash of a text answers to it; a query gives the rows that match in the order it asks for, from
-- its offset up to its limit; parsing a token, a pipeline, the clock and the generator of UUIDs
-- leave the keys of sessions in Redis alone; for the rate limits, the clock does not go back;
-- pings, pipelines, the upgrade of a connection and the calls of the hub change no row. Nothing is
-- assumed of the `RowsAffected` of a transaction's handle unless a theorem says so.
--
-- One law is more exact than PostgreSQL: a row is read back as it was written, although the instants
-- of a TIMESTAMPTZ column are rounded to microseconds and the Go code writes those of time.Now, in
-- nanoseconds.
--
-- Bounds: an instant is a natural number of nanoseconds since year 1, and an `int` is an unbounded
-- integer (limits are clamped before use, scores stay far below 2 ^ 63). The loop of `Register` has
-- eight rounds, as in the source. The loops of a client run over the choices that `select` makes, or
-- a number of messages that are read; a walk through the feed has as much fuel as there are posts.
-- No other loop needs fuel, but for the printing of decimals, whose fuel is the number itself.
--
-- A handler is a function of the bound request (`Binding`, what gin's validator makes of the body),
-- of the values that the middleware stored and of the world. A response keeps its status and the
-- value that is printed as JSON.
--
-- Not modelled: how gin finds the route of a request and recovers from a panic, the protocol of
-- websockets and the closing of connections, and the deadlines of contexts, which only do I/O; the
-- state of the hub inside the world of a request, where its calls are parameters; the place of the
-- request log in the chain, since it changes no answer; and concurrent requests, since an
-- operation's laws speak of its own effect only.
pub mod Base
pub mod Text
pub mod Errors
pub mod Effect
pub mod Domain
pub mod Database
pub mod System
pub mod Redis
pub mod SortedSets
pub mod Crypto
pub mod Repository
pub mod Service
pub mod Middleware
pub mod Handler
pub mod Router
pub mod Lifecycle
pub mod Diagnose
pub mod Hub
pub mod Config
pub mod Pseudonym
mod Tests
