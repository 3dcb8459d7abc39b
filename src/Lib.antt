-- ===== src/Lib.antt =====
-- The internal transfers system: a service, written in Go, that keeps accounts and moves money between
-- them through three HTTP endpoints over PostgreSQL. This library models its logic from a request that
-- the router is handed to the statements that the database runs.
--
-- The parts, with the paths of the code:
-- Base: Boolean tests on numbers, signed integers and their 64-bit wrap-around, texts, `%d`, and the
--   actions `W → Result E A × W` in which all calls with effects are written, with Hoare triples.
-- Models: internal/models. Errors are the chains that `DomainError` and `fmt.Errorf` build, with
--   `errors.Is`, `errors.As` and `IsRetryable` read along them. Money is `ParseMoney` over a decimal
--   library that is a parameter (`DecimalLib`), whose exact arithmetic is stated by `Exact`.
-- Interfaces: internal/interfaces, the repositories as records of actions over an unknown world.
--   Interfaces.Ledger is the abstract state, a balance for each account and the records of transfers,
--   with Total, the money on some accounts, and Audit, balances against records;
--   Interfaces.Contract states what each call does to the committed ledger and to that of the open
--   transaction, as the comments of the code, pgx and the schema in internal/db/migrations say.
-- Service: internal/service. Service.Transfer is `TransferService` (`Transfer` with its retry loop,
--   `executeTransfer`, paging), with the proofs in its child modules; Service.Account is
--   `AccountService`. A service takes any backend; its theorems take one that keeps the contract.
--   Service.Session is `executeTransfer` again, as a machine that makes one call at a time.
-- Concurrent: many of these machines at once, each in a transaction of its own, over one database that
--   is a relation: rows are locked by one session at a time, as `SELECT ... FOR UPDATE` and `UPDATE` do,
--   a statement sees what is committed and its own transaction's changes (READ COMMITTED), any call
--   may fail, and the answer to a commit may be lost. A session is a number, and a system maps each to
--   its point of control; Concurrent.Knows and Concurrent.Moves are the invariant and its steps.
--   Concurrent.Clients has many calls of `Transfer` on top of it: each round of a retry loop is one of
--   these sessions, and round `k` of client `i` is session `i * (MaxRetries + 1) + k`.
-- Schema: internal/db/migrations, the statements of the up-migrations, and what their constraints say
--   of a ledger; Schema.Rules puts them in the words of the ledger.
-- Repository: internal/repository, both repositories over pgx, which is a parameter that runs the
--   statements (Repository.Driver), under the laws in Repository.Driver.Contract. `repositories` makes
--   of it the backend that the services use, and Repository.Lawful proves the contract for it.
-- Validator: internal/validator.
-- Handler: internal/handler. A response is the headers, the first status and the encoded values, with
--   what the wrapper of the request log has seen of it; the JSON decoder is a parameter.
-- Server: internal/server. Server.Middleware has the request's id, the request log and the recovery
--   from panics over any handler; Server.Health has the health and readiness endpoints;
--   Server.Application puts all parts together as `New` does, by the constructors in Server.Wiring and
--   over the router of net/http, and its child History handles requests one after the other;
--   Server.Lifecycle is `Start`, `Shutdown` and `GracefulShutdown`.
-- Config: pkg/config, over `envconfig.Process` as a parameter.
-- Main: cmd/api/main.go, as the list of what the process does to its surroundings and how it ends.
-- Mocks: internal/mocks, the repositories in memory of the unit tests, as a backend of the services.
-- Testutil: internal/testutil, the database in a container of the integration tests, over
--   testcontainers-go and pgx's pool as parameters.
-- Examples: whole decimals, a database in memory that keeps the contract, and runs over it.
--
-- Bounds and loops: the retry loop is structural recursion on the rounds that are left, which is
-- `MaxRetries + 1` at first, as in the code; for `MaxRetries` at the greatest int the code's own
-- counter would overflow, and such a limit is not considered. `%d` takes as many rounds as the number,
-- more than it has digits. Durations wrap at 64 bits. `calls` is run for eight calls, the
-- seven of the code and the deferred rollback.
--
-- The contract of Interfaces speaks of one client at a time; Concurrent is about the transactions of
-- transfers only, without the creation of accounts and reads outside of them. The database there may
-- fail a call at any time, for instance to end a wait, and a session that has to wait has no other
-- move. Log calls are not modelled, other than the request log and the messages with which `main` ends.
-- The down-migrations and the embedded file system of internal/db/migrations.go, which nothing in the
-- repository reads, are not modelled.
pub mod Base
pub mod Main
pub mod Mocks
pub mod Models
pub mod Interfaces
pub mod Service
pub mod Concurrent
pub mod Config
pub mod Repository
pub mod Testutil
pub mod Validator
pub mod Handler
pub mod Schema
pub mod Server
mod Examples
