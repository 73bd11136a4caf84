-- ===== src/Lib.antt =====
-- A verification library for the Go services of Gotra (services/), a tunnelling platform: accounts
-- with password and OAuth logins, workspaces with projects, a gateway that forwards public requests
-- to agents, and the inspection, replay, analysis and counting of the requests that it has captured.
--
-- The parts, and the files that model them:
--
--   Prelude   names shared by all files: Boolean tests, lists, texts as lists of bytes.
--   Errors    services/utils/error/error.go: `Code`, `AppError` (`AppPtr`, a pointer that may be
--             nil), New, Wrap, and in Errors/Chain errors.Is, errors.As, CodeOf and the Is… helpers.
--   Httpx     services/pkg/httpx/http.go: MapError with its helpers, and Recovery of
--             services/pkg/middleware/logger.go.
--   Security  services/pkg/security: base64 (Security/Base64), opaque tokens and token hashes
--             (Security/Token), the numbers that Sscanf reads (Security/Scan), and HashPassword and
--             VerifyPassword (Security/Password).
--   Web       what the HTTP handlers share: claims, answers and error replies; in Web/Access the
--             middlewares of services/pkg/middleware/middleware.go and ParseAccessToken of
--             services/pkg/security/jwt.go.
--   Store     the PostgreSQL tables, and in Store/Action the calls of a service: a call takes a
--             world (tables, open transaction, clock, counters of statements and random draws,
--             mails) and returns a value, an error or a panic, with the world it leaves.
--   Auth      services/internal/auth: the statements of repository.go (Auth/Repository,
--             Auth/Sessions, Auth/OneTime, Auth/Provision) and the operations of service.go
--             (Auth/Tokens, Auth/Service, Auth/Recovery), the OAuth client of oauth.go (Auth/OAuth),
--             and handler.go (Auth/Handler, with the OAuth routes in Auth/Callback).
--   Billing   services/internal/billing: plans.go, repository.go and CheckTunnelQuota; Current,
--             ChangePlan and ApplyWebhook in Billing/Change; the Stripe processor and the handlers
--             in Billing/Handler.
--   Tunnels   services/internal/tunnels: repository.go and service.go; Create takes the quota check
--             of Billing as an argument; the handlers in Tunnels/Handler.
--   Projects  services/internal/projects: repository.go, service.go and, in Projects/Handler, the
--             list and the handlers.
--   Gateway   services/internal/gateway: host names (Gateway/Host), the requests that pass through
--             one agent connection (Gateway/Conn) and the messages that it reads
--             (Gateway/Conn/ReadLoop), the registries of all instances with the routes
--             in Redis (Gateway/Registry), handlePublic on top of them (Gateway/Public), the
--             handshake of an agent (Gateway/Handshake), and the exchanges that it stores
--             (Gateway/Capture).
--   Requests  services/internal/requests: the statements on captured exchanges (Requests), the
--             methods of repository.go (Requests/Repository), a replay (Requests/Replay) and the
--             handlers (Requests/Handler).
--   Ai        services/internal/ai: the provider chain and schema.go (Ai), context.go and prompt.go
--             (Ai/Context), repository.go (Ai/Repository), service.go (Ai/Service), handler.go
--             (Ai/Handler).
--   Analytics services/internal/analytics: the writer's channel and buffer (Analytics), QuerySummary
--             (Analytics/Summary) and the handler (Analytics/Handler).
--   Migrate   services/internal/migrate/migrate.go.
--   Agent     services/internal/agent/agent.go, and services/cmd/agent/main.go (Agent/Command).
--
-- A statement is a function of the tables under one clock value; violations of the unique constraints
-- and of the foreign keys of an INSERT are errors of the driver, and every statement may fail as
-- `Env.fault` says. Text columns compare by bytes, and lower() is that of ASCII. The externals
-- (argon2, SHA-256, the random source, the signature of access tokens, UUIDs, and what headers are
-- after encoding/json and JSONB) are fields of `Env`; a theorem names what it needs of them. A replay
-- gives the HTTP client the text of a URL; how net/http parses and sends it belongs to that argument.
-- A handler is a function of what it binds from its request, and returns a status with a value or a
-- text. Answers over the network (the providers of OAuth, of AI and of payments, the local
-- application of an agent, the ClickHouse driver) are arguments.
-- The runs of a connection (`Gateway.Conn.Runs`) interleave single steps of concurrent calls. Those of
-- a cluster (`Gateway.Registry.Backed.Reaches`) interleave the parts of add, remove and refreshLoop
-- under the lock with their calls of Redis, which may fail, and instances may stop at any time. The goroutine of capture is taken to run at once. Go's select is a choice of the run. The database, Redis and net/http are modelled
-- by what the code relies on: a statement is atomic, a key holds its last value until it expires, and
-- WriteHeader panics on a status that is no three-digit number.
-- Not modelled: configuration, routing tables and process start (services/internal/config,
-- services/internal/server, services/cmd/api, services/cmd/gateway), the clients of PostgreSQL and
-- Redis (services/pkg/database, services/pkg/cache), logs, the mailer, the attributes of cookies, the
-- HTTP calls of the AI providers with their costs, and the JSON columns of AI
-- results.
-- Every function is total by structural recursion. Only the decimal digits of a number (Security/Scan)
-- use fuel: 20 digits, which are enough for every number of 64 bits.
pub mod Prelude
pub mod Errors
pub mod Httpx
pub mod Security
pub mod Web
pub mod Store
pub mod Auth
pub mod Gateway
pub mod Billing
pub mod Tunnels
pub mod Projects
pub mod Analytics
pub mod Requests
pub mod Ai
pub mod Migrate
pub mod Agent
