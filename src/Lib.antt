-- ===== src/Lib.antt =====
-- The backend of a payment application in Go: users with one wallet each, wallets with one balance
-- per currency, transfers, currency swaps, deposits and withdrawals through Paystack. chi dispatches
-- a request to a handler behind the middlewares; handlers call services, the services call two
-- repositories over PostgreSQL (by the generated Prisma client), a Redis server (cache, idempotency
-- keys, rate limits and the queue of webhook events) and Paystack's HTTP API. A worker takes the
-- webhook events off the queue and hands them to the payment service.
--
-- The state of a run is a `World` (World.antt): the tables of the database, the keys of Redis, the
-- requests sent over HTTP, the rate cache of the process and the number of outside calls made so far.
-- A Go function that returns a value and an error is an `Action`: from a world to a result and the
-- next world; `do` blocks follow the code's early returns, `attempt` is `value, err := …`, `ignore` is
-- `_ = …`. A handler is an action from a request to a `Reply` (status, headers, cookies, body). Its
-- body is written as a `Handling` (Server/Http.antt), which takes what is left of the handler as an
-- argument and drops it on an early return; a handler fails only where the code panics.
--
-- What is not in the repository is an argument of the model, the record `Externals` (External.antt):
-- float64 with no law, the Prisma client, the Redis client, encoding/json, net/http, the clock, the
-- environment, bcrypt, the signing and the parsing of tokens, crypto. A query or a command is its
-- documented effect on the tables or the keys (Schema.antt, External/Redis.antt); the client runs it,
-- or reports an error and changes nothing. The answer of a client may depend on the number of the
-- call.
--
-- The files:
--   Common, Go            tests, tables as lists of rows, texts; Go's errors and results
--   Schema                prisma/schema.prisma: the tables, the queries, and Schema/Ledger, the view
--                         of the tables as balances and log entries that the refinements use
--   External, World       the outside, the state, and rules to compose statements along do blocks;
--                         External/Requests is the shape of the requests' bodies
--   Config                internals/config/config.go
--   Repository/Wallet     internals/repository/wallet_repo.go, every method; its children are about
--                         the debits, the deposits and their duplicates, the refunds and a success
--                         after one, the history, all writes, and Redis being left alone
--   Repository/User       internals/repository/user_repository.go, every method; its children are
--                         about a registration, the unique keys and the refresh tokens
--   Utils                 internals/utils/random.go
--   Queue                 internals/pkg/redis.go: cache, locks, rate limit, queue and worker; the loop
--                         of the worker is one pass at a time, and Queue/Drains and Queue/Retries are
--                         about many passes
--   Service/Payment       internals/service/payment_service.go and internals/service/paystack.go
--   Service/Wallet        internals/service/wallet_service.go, every method; the children are about
--                         transfers, swaps, funding, payouts, the idempotency keys and the cached
--                         wallet
--   Service/Auth          internals/service/auth_service.go and internals/utils/jwt.go; the children
--                         are about accounts, PINs and the rotation of refresh tokens
--   Middlewares           internals/middlewares/auth.go, internals/middlewares/rate_limit.go and
--                         internals/server/middleware.go
--   Server/Http           internals/utils/response.go, and how a handler is written here
--   Server/Transfers      internals/server/transfer_handler.go and internals/server/swap_handler.go
--   Server/Sessions       internals/server/auth_handler.go
--   Server/Wallets        internals/server/wallet_handler.go and transaction_handler.go beside it
--   Server/Payments       internals/server/payment_handler.go
--   Server/Users          internals/server/user_handler.go and transaction_pin.go beside it
--   Server/Rates          internals/server/rates_handler.go
--   Server/Health         internals/server/health_check.go
--   Server/Webhook        internals/server/paystack_handler.go, the webhook; Server/Webhook/Delivery
--                         follows an event through the queue and the worker
--   Server/Routes         internals/server/routes.go, internals/server/logger.go, and the CORS and the
--                         rate limit wrappers of internals/server/server.go
--   Tests                 a platform that meets `Externals`, and runs on a small database
--
-- Fuel: the worker's passes are counted (Queue/Drains counts how many a queue needs); everything else
-- is structural.
--
-- Not modelled: the lines that the code logs and prints, chi's dispatch and its own middlewares, the
-- encoding of an answer's body as JSON, and putting the parts together, starting and stopping the
-- server (cmd/server/main.go, `New`, `Start` and `gracefulShutdown` of internals/server/server.go,
-- `NewRedisQueue`). The rate cache is read and written without its mutex. Keys of Redis keep their
-- time to live but do not expire by themselves: a statement about a key holds while its entry is
-- there. Each call of a client is one step; requests that run at the same time are seen as calls on a
-- world that others may have changed, where a theorem takes that world as an argument.
pub mod Common
pub mod Go
pub mod Schema
pub mod External
pub mod World
pub mod Utils
pub mod Config
pub mod Middlewares
pub mod Queue
pub mod Repository
pub mod Service
pub mod Server
mod Tests
