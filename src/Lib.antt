-- ===== src/Lib.antt =====
-- Verification of clean-arch-go-gin: accounts and sessions of a web service.
--
-- The program is layered. Handlers call the services (internal/service), which call the
-- repositories (internal/repository/implementations), which run one GORM statement each. Errors
-- are the values of internal/apperr, which the handlers turn into a status and a message.
-- * Apperr models internal/apperr/apperr.go and sentinels.go: `Error` with its sentinel, base and
--   cause, errors.Is along the chain, HTTPStatus and ClientMessage.
-- * Entity models internal/model/entity; Request and Response model internal/model/request and
--   internal/model/response.
-- * Database and Outside hold what the program sees of its libraries: the tables as the pooled
--   handle and the handle of a transaction see them, and the calls of GORM, the clock, uuid, bcrypt,
--   golang-jwt and SHA-256, as a record of operations. Outside.Laws states what they document, and
--   Outside.Memory is an instance in memory that keeps all of it.
-- * Repository models internal/repository/dbtx (Context, `conn`), implementations/user,
--   implementations/refresh_token and implementations/tx (`within_tx` for WithinTx).
-- * Service.Token models internal/service/token; Service.User models internal/service/user:
--   Tokens (issueTokens, StoreRefreshToken, RevokeRefreshTokens, PurgeExpiredRefreshTokens),
--   Credentials (Register, Login), Session (Refresh, handleReuse, GetUser, ListSessions), Account
--   (ChangePassword, DeleteAccount). A closure that is passed to WithinTx is a function of its own
--   (`create_account`, `rotate`, `replace_password`, `remove_account`), and what it assigns to
--   variables of its caller is its result.
-- * Repository.Counter and Service.Counter model the counter and the messages, in
--   implementations/counter, implementations/message, internal/service/counter and
--   internal/service/message.
-- * Platform.Config and Platform.Validate model internal/platform/config.go and config_validate.go
--   (NewConfig, Validate and its groups of rules); what the parsers accept is a parameter.
-- * Middleware.RateLimit models internal/api/middleware/rate_limit.go (Allow, gcLocked), and
--   Middleware.Auth models auth.go, each middleware as its decision on a request; Issued joins it to
--   the token service, under what the JWT library documents.
--   Middleware.Chain models the layers that newRouter puts around a handler, which may panic.
--   Middleware.RequestId models request_id.go without the logger that it attaches.
-- * Handler.Respond and Handler.User model internal/api/handler/respond.go and user.go: a handler
--   maps what it reads of a request to a status, an envelope and the cookies that it sets.
--   Handler.Resource models counter.go, message.go and pagination.go, and the handlers of user.go
--   that only read; Handler.Health models health.go over Service.Health (internal/service/health).
-- * Service.Csrf models internal/service/csrf over Base.Hex: hexadecimal, the parts between dots and
--   big-endian numbers. HMAC-SHA256, the random source and the clock are a record of operations.
-- * Router models internal/api/router.go: the routes as a table, and a request as it runs through
--   the guards of its route, which are those of Middleware.Auth and the limiter.
-- * Platform.Migrate models internal/platform/migrate.go: Order is about validateMigrations, Ledger
--   about the loop of Migrate, Steps about the three migrations, Reliable and Ends about a database
--   whose statements succeed; Memory is an instance of the database.
-- * Platform.Database models internal/platform/database.go over a record of what gorm and database/sql
--   offer; Pool is what they document.
-- * Di models internal/di/container.go: Wiring is what NewContainer and newRouter make of the
--   configuration, Lifecycle what it opens and Close releases, with pingWithRetry of
--   internal/platform/database.go, and Janitor is StartJanitor. Observability models the admin
--   listener of internal/observability/server.go and pprof.go.
-- * Examples applies the theorems to a small database in memory, and Examples.Runs runs the account
--   operations there to a success.
--
-- A call takes a world and returns a value or an error with the world after it (Base.Effect); the
-- error branches are part of every statement. `select { case <-ctx.Done() }` asks the world whether
-- the request is done. A uuid.UUID is a number, a time.Time and a time.Duration are integers of
-- nanoseconds (Base.Int); where an `int` can wrap around, in the offset of a page, the wrap-around
-- is written out. Nothing runs on fuel: all functions of the model are structurally recursive; the
-- retries of the ping recur on the attempts that are left, and the janitor on what it receives.
--
-- Not modelled: text that is only logged, spans, the latencies that are measured, what gin and
-- net/http do with the body and time limits that the chain sets, the start of the listeners and the
-- signals in cmd/server, generated mocks, and two requests that run at the same time: one client
-- runs at a time, and isolation is the database's.
pub mod Base
pub mod Apperr
pub mod Entity
pub mod Examples
pub mod Database
pub mod Middleware
pub mod Handler
pub mod Router
pub mod Observability
pub mod Di
pub mod Outside
pub mod Platform
pub mod Repository
pub mod Request
pub mod Response
pub mod Service
