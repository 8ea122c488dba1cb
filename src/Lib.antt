-- ===== src/Lib.antt =====
-- prompt-manager: a service that keeps prompts and their versions.
--
-- A handler of internal/server/http calls a method of a service (internal/service/prompt,
-- internal/service/auth), which runs SQL statements through the repositories of
-- internal/infra/repository/sql.go on the tables of db/migrations.
--
-- Base, Text: lists, numbers and texts; a Go string is the list of its codes, and an int wraps
-- around at 64 bits where the code computes with values of the caller.
-- Domain: internal/domain (entities.go, errors.go, repository.go) and the error values of the services.
-- Store: the tables with their constraints (Tables), one statement after another (Statement), the
-- operator LIKE, and the rules by which a call keeps an invariant (Keeps).
-- Repository: one file for each repository type of internal/infra/repository/sql.go, and what a
-- search finds (Search). Repository.Sql: the statements that sql.go puts together at run time,
-- as text with placeholders (Statements, Selects, with the placeholders of
-- internal/infra/database/dialect.go in Dialect), and what a database does that is handed one of
-- them with its arguments (Meaning).
-- Prompt: internal/service/prompt. Inputs, Manage, Create, Versions, Paging and Stats hold the
-- methods of Service, in snake case; Calls is any sequence of calls. Prompt.Invariant: what
-- every sequence of calls keeps.
-- Prompt.Diff: diff.go, the fields (Fields), the body (Body), and the choice of the target (Target).
-- Http: internal/server/http/prompt_handler.go with pkg/httpx. A handler takes the decoded payload,
-- the parameters of the path and the query, and what the guard has left in the context.
-- Auth: internal/service/auth/service.go and pkg/auth/jwt.go. Library holds what comes from
-- libraries and from GitHub; Service is NewService; Tokens, State, GitHub, Session and Callback
-- hold the methods of Service. Seed is ensureDefaultAdmin of internal/infra/container.go.
-- Http.Signin: auth_handler.go. Middleware: internal/middleware, and the CORS rule of
-- internal/server/http/router.go (Cors).
-- Http.Router: the rest of router.go, the table of routes with the stages in front of each (Routes,
-- Serve) and the health handler (Health).
-- Boot: the start and the end of the program. Resources is internal/infra/database/database.go and
-- internal/infra/cache/redis.go, Initialize is internal/infra/container.go, Process is the method Run
-- of internal/app/app.go as a step relation of its goroutine and its select, Program is
-- cmd/server/main.go.
-- Config: internal/config/config.go, from what viper has read.
--
-- An `Action` takes the world to a result and the next world. At each statement an `Event` of the
-- world says how much time passes, whether the engine fails, and what other clients of the
-- database do in between, so that a theorem on all worlds covers every interleaving of statements;
-- behind the last event nothing happens but the statements. A quiet world has no events.
-- The texts of the engine's errors, its function LOWER, whether it enforces foreign keys, and
-- uuid.NewString are parameters of the world. A `json.RawMessage` stands for the value it encodes.
-- Loops are structural recursion on lists; only the digits of a number take fuel, one more than the
-- number, which is enough since each round divides by ten (Text.Numbers reads the digits back).
--
-- strings.ToLower is that of Unicode (Text.Lower holds the ranges of its upper-case letters);
-- strings.ToUpper is modelled where its result is a letter of ASCII, and the code compares it with
-- words of ASCII only. LIKE reads a backslash as an escape or not, by the engine. A time is an
-- instant, compared as a number and not by the text that a driver makes of it; AddDate wraps around
-- at 64 bits of seconds, in a zone whose clock does not change.
--
-- Not modelled: the text of the SQL statements that are fixed, which stand for what they do to
-- the tables; the text of the page of the callback; the request logger and all log lines; the
-- parsing of flags and the signals (Boot.Program takes their outcome); which route gin picks for
-- a path, and, in Http.Router.Serve, the headers of the limiter, the refusal of an origin by the
-- CORS library and the recovery from a panic; the settings of http.Server (New of
-- internal/app/app.go); web. Of http.Server there are the steps that ListenAndServe and Shutdown
-- may take, and when they end is up to the environment. A database that refuses a statement
-- changes nothing in Repository.Sql.Meaning. The day of an execution is that of SQLite's DATE,
-- in UTC, and an average is a sum with a count. Libraries are parameters: bcrypt, the signing of
-- tokens, URLs, the replies of GitHub, the limiter, regular expressions, the diff of texts, the
-- printing of JSON values, the decoding of payloads, and the pings of the connections.
pub mod Base
pub mod Text
pub mod Domain
pub mod Store
pub mod Repository
pub mod Auth
pub mod Boot
pub mod Config
pub mod Http
pub mod Middleware
pub mod Prompt
