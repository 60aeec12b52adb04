-- ===== src/Lib.antt =====
-- Verification of the smartcar-4runner dashboard, a web program in Go that shows the vehicles of a
-- Smartcar account.
--
-- The parts. A refresh service reads the connections, the vehicles and the signals of the account
-- through an interface of the vehicle API, and saves snapshots into a cache in memory, from which
-- the pages are rendered. An HTTP client implements the interface, with retries and a cached access
-- token. Accounts and sessions, over a storage in SQL, guard the pages. The configuration is read
-- from the environment and from flags, and validated, before anything starts.
--
-- The files.
--   Common and below: texts as lists of bytes, signed integers, instants, error values, maps, and the
--     functions of Go's packages strings and strconv that the program uses.
--   Config/Types, Config/Values, Config/Defaults, Config/FlagSet, Config/Load, Config/Validate,
--     Config/Redact and Config/Address: internal/config/config.go. Load is cut into the defaults from
--     the environment, the parsing of the arguments (package flag, a parameter that takes the flags
--     Config/FlagSet defines, and the fields of Config/FlagSet/Fields), the normal forms and Validate.
--     Config/Load/Values: what comes out.
--   Smartcar/Models, Smartcar/Names, Smartcar/Api: internal/smartcar/models.go and errors.go, and the
--     interface API of client.go.
--   Smartcar/Http, Smartcar/Retry, Smartcar/Client, Smartcar/Token: the methods do, accessToken,
--     requestAccessToken and doAuthorized of internal/smartcar/client.go, and token.go. `Net` is what
--     they ask of net/http, net/url and the clock. Smartcar/Json, Smartcar/Decode: the JSON types of
--     models.go and the decoders of client.go over `Json`, which is encoding/json at those types.
--     Smartcar/Vehicle, Smartcar/Signals, Smartcar/Connections: GetVehicle, GetSignal and
--     ListConnections; `client_api` is the client as the interface API. Smartcar/Transport:
--     NewHTTPClient of transport.go. Smartcar/Demo: test data.
--   Store, Store/Sort: internal/store/memory.go; Store/Laws and Store/Listing hold the abstract view
--     of the cache, a partial map from identifiers to snapshots. Store/Concurrent and App/Concurrent:
--     goroutines that change the cache at the same time, as interleavings of their calls.
--   App/Types, App/Names, App/Select, App/Snapshot, App/Refresh: internal/app/app.go. The file
--     App/Select has filterConnections, App/Snapshot has refreshVehicleSnapshot, and App/Refresh has
--     RefreshAll and RefreshVehicle.
--   Auth/Types, Auth/Service: internal/auth/auth.go over the interfaces of internal/storage/storage.go;
--     Auth/Sessions and Auth/Accounts: what a login gives after a signup, and its token afterwards.
--   App/Live: the refresh service over the HTTP client.
--   Web/Guards: RequireSameOrigin and RequireLogin of internal/web/middleware.go.
--   Web/Views: internal/web/viewmodels.go.
--   Web/Response, Web/Handlers: internal/web/handlers.go. Web/Response has what is written to the
--     http.ResponseWriter, as a list of calls, with render, renderError, renderAuthError and the
--     cookies; Web/Handlers has the handlers over the refresh service and the accounts, and Web/Setup
--     NewHandler.
--   Web/Routes: internal/web/routes.go, with SecurityHeaders and redirectToLogin. Which pattern a
--     request matches is the choice of the muxes of net/http, a parameter.
--   Web/Refreshed: the pages after a refresh.
--   Web/Cookies: the cookies that a response sends, which are those set before its status line, for one
--     request and for a request with a login's cookie.
--   Storage/Queries, Storage/Sql, Storage/Unix: internal/storage/storage.go over database/sql, as the
--     storage of the accounts; Storage/Sql/Sessions and Storage/Sql/Accounts run the
--     accounts of Auth/Service over it.
--     Storage/Sqlite: NewSQLite, NewPostgres, Open, Ping, Close and SQLite.Migrate.
--     Storage/Migrations: Postgres.Migrate of postgres.go, and postgresMigrationFiles in its module
--     Files.
--   Dev/Outcomes, Dev/Fixtures, Dev/Values, Dev/Backend: internal/devsmartcar/devsmartcar.go, as
--     another instance of the interface API. Dev/Outcomes has buildPartialOutcomes, Dev/Values
--     signalValue and newSignal, Dev/Backend New and the three calls.
--   Obs/Metrics, Obs/Middleware: internal/obs/metrics.go and middleware.go, as the list of what is
--     recorded, with the middleware around the routes. Obs/Setup: internal/obs/otel.go and newMetrics.
--   Logging: internal/logging/logger.go, with the closers of a logger in order.
--   Command/Choice, Command/Run, Command/Server: cmd/smartcar-4runner/main.go, with NewService of
--     internal/auth. Command/Run has the whole function run, where the wait for the server is one call,
--     with its lines of the log on the start and on closing the storage;
--     Command/Server has that wait, with the goroutine of the server, as a step relation.
--     Smartcar/Setup: NewClient of internal/smartcar/client.go.
--   Config/Demo: test data.
--   Tests modules: runs on small inputs, and the theorems at concrete inputs.
--
-- The model. A string or a slice of bytes is a list of bytes, an int a signed integer without
-- wrap-around except where a comment says so (the products of durations in Smartcar/Retry), a
-- time.Time a number of nanoseconds, a float64 its 64 bits. A map is an association list in which
-- `insert` replaces. A call that returns a value and an error returns a `Result`; an error value keeps
-- its format and its arguments, not its text. What happens outside the program (the network, the
-- clock, the random source, the database) is a state of type `W` that each call takes and returns.
-- Calls of the observer and of the logger are a list of events in the refresh service and the client,
-- and the errors that the web handlers log are a list; the attributes of spans are left out. The
-- mutexes make the methods of the cache and of the token atomic, so that each method is one function of the
-- state.
--
-- Fuel. The loop of `do` has no bound of its own. Its model takes fuel, one for each round, and is
-- started with the configured number of retries plus one, or one where that number is negative. The
-- fuel is enough since a round asks for another only while its attempt is below that number.
--
-- The loop of ListConnections follows the links of the server and may not end. Its model takes fuel,
-- one for each page, and returns none where the fuel runs out; Smartcar/Connections/Laws relates it to
-- chains of pages, which have no fuel. `client_api` takes a bound on the number of pages.
--
-- Not modelled: of internal/config/config.go the usage text of the flags; of
-- cmd/smartcar-4runner/main.go what ListenAndServe, Shutdown and the signals do, which are steps of the
-- environment, and the logger's other lines. The SQL files and the HTML templates are embedded data, and reach the model as
-- arguments. Methods that only return a field, such as LastError, Tracer, Meter and Stdlib, have no
-- definition.
pub mod Common
pub mod Config
pub mod Smartcar
pub mod Store
pub mod App
pub mod Auth
pub mod Storage
pub mod Dev
pub mod Logging
pub mod Web
pub mod Obs
pub mod Command
