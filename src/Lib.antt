-- ===== src/Lib.antt =====
-- A model of the identity service of this repository: accounts, sessions, roles and permissions,
-- invitations, password resets, email verifications, API keys and the audit log, with the HTTP
-- layer in front of it, its settings and its commands.
--
-- Which file models which part:
-- - Model.antt: internal/identity/models.go, internal/identity/errors.go, and the tables of
--   migrations/00001_init.sql as the record Db.
-- - Exec.antt: how methods run. `Exec S A` reads and writes an S and answers with an A or an error.
--   `in_tx` is database.InTx (internal/database/postgres.go): an error takes back every write, and
--   COMMIT may fail. `on_pool` is a call on the pool: one statement that commits by itself.
--   Exec/Ensures.antt and Exec/Refuses.antt are the rules by which proofs follow a method's body.
-- - Identity/Permission.antt: internal/identity/permissions.go. Identity/Access.antt: what a caller
--   may do, and checkEscalation. Identity/Validation.antt: the checks of what a caller sends.
-- - Audit.antt: internal/audit/audit.go (Recorder.Record, List, Purge).
-- - Repo/: internal/identity/repository.go, roles_repository.go and apikeys_repository.go, a file
--   for each table, a function for each statement. ListUsers, which reads three tables and collects
--   pages, is in Repo/Directory.
-- - Service/: internal/identity/service.go, roles_service.go, password_reset.go,
--   email_verification.go and apikeys_service.go, a function for each method; the body of each
--   transaction is a function of its own whose name ends in _tx.
-- - Server/: internal/server/middleware.go (Guard, Request), internal/server/response.go (Errors,
--   Response), internal/server/ratelimit.go (RateLimit, and the keys in Routes), the handlers of
--   internal/server/handlers*.go (Handlers/), internal/server/server.go (Routes for the table of
--   routes with their guards, Serve for one request through the middleware) and
--   internal/server/security.go (Security). AuditPages and ResetOracle are about what a client of
--   GET /audit and of POST /auth/password/reset sees.
-- - Settings.antt: internal/settings/settings.go. Command.antt: cmd/server/main.go. Migration.antt:
--   internal/database/migrate.go.
-- - Evolution/: what every statement, method, handler, command and sweep does to the tables, put
--   together along the calls up to Evolution/Steps.antt, where a run of the program is a sequence
--   of requests, commands, sweeps and waits in any order.
-- - Tests/: a small installation, runs of the services, and the theorems applied to it.
--
-- How the model stands to the code. The methods of a service call the repository, which changes
-- Db, and the recorder, which adds to the audit log in the same transaction; the guards of the HTTP
-- layer call Authenticate, AuthenticateAPIKey and Authorize. An id is a number drawn from
-- Db.next_id: the ids of the code are uuidv7, which grow with time. A time is a number, and now()
-- stands still during one method. The column users.password_hash is "" where it is NULL, as the
-- repository reads and writes it. ORDER BY and sort.Slice are a stable insertion sort. The unique
-- indexes and foreign keys that the statements rely on are written out in them, as errors.
-- Every loop of the code walks a list, and so does its function: none needs fuel. The client of
-- Server/AuditPages.antt, who asks for page after page, has as many requests as there are entries
-- to see and one more, which is enough because every page but the last holds fifty entries; a
-- reading that runs out of requests is `none`.
-- A request comes with the route that chi found for it; the bodies, ids and times in it are
-- decoded by the record Wire, which stands for encoding/json, google/uuid, time and net. Numbers of
-- the settings have a sign. A run of the program has one AUDIT_RETENTION, which a theorem about runs
-- leaves open or sets to its default, 0; its commands are all but `server migrate`, since a migration
-- may rebuild or drop the tables: what goose does is a parameter. The zero time of Go is 0.
--
-- What the code calls and the model does not define is the record Env: crypto/rand and argon2id
-- behind internal/auth, SHA-256 of tokens, the mail transport, the failures of Postgres, the
-- comparison of citext columns and collation, and functions of strings, net/mail, net/netip and
-- regexp. The n-th call that leaves the process is answered by n. In a transaction the failure of
-- any statement is one failure of its beginning or of COMMIT.
--
-- Not modelled: logging, the parsing of the environment, the SQL of migrations, the text of mails,
-- the printing of JSON and the constant texts of errors, the search for a route, panics and their
-- recovery, timeouts and shutdown, the hashing of passwords; transactions and requests that run at
-- the same time: a request is one step, and so is a command.
pub mod Prelude
pub mod Migration
pub mod Model
pub mod Exec
pub mod Identity
pub mod Audit
pub mod Repo
pub mod Service
pub mod Server
pub mod Settings
pub mod Command
pub mod Evolution
pub mod Tests
