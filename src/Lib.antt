-- ===== src/Lib.antt =====
-- qPayFlow: a payment platform of Go services on one PostgreSQL database, Redis and Kafka. A
-- client posts a payment through the gateway to the payment service, which stores it with an
-- outbox event; the outbox relay publishes the event; the fraud service checks it and publishes
-- its verdict; the saga consumer of the payment service takes the verdict, and an approved
-- payment is settled by a transfer that the payment service asks of the account service over
-- HTTP, behind a circuit breaker; the result is published for the notification service. The
-- settlement service elects a leader, which audits the books.
--
-- The parts and their files. Schema: the four tables of
-- scripts/migrations/000001_init_schema.up.sql. Account: cmd/account-service/internal/account;
-- Account/Repository has the queries of repository.go with the constraints of the schema,
-- Account/Service `GetAccount` and `Transfer`, Account/RowLocks the row locks of transfers that
-- run at once, Account/RedisLock `TransferWithRedisLock`, Account/Handler the HTTP handlers.
-- Payment: cmd/payment-service/internal; Payment/Create has `CreatePayment`, Payment/Process
-- `ProcessFraudResult`, Payment/Overlap the same cut at its calls, Payment/Repository the
-- queries, Payment/Handler the handlers, Payment/Outbox the relay, Payment/Saga the handler of
-- internal/saga. Gateway: cmd/api-gateway/internal/gateway; Gateway/RateLimit has the script and
-- the limiter, Gateway/Middleware the chain of a route. Fraud: cmd/fraud-service; Fraud/Check has
-- `CheckPayment`, Fraud/Handler the handler of main.go. Notification: cmd/notification-service.
-- Leader: cmd/settlement-service/internal/leader, one candidate; Leader/Cluster has any number of
-- them. Settlement: cmd/settlement-service; Settlement/Reconciliation has the audits,
-- Settlement/Floats the float64 values that they compare, Settlement/Service the periodic job and
-- the routes. Kafka: pkg/kafka. Tracing: pkg/tracing. Idempotency/Manager: pkg/idempotency.
-- Redis/Lock: pkg/redis; Redis/Interface and Redis/SortedSets are what the code relies on of a
-- Redis server, with Redis/Memory and Redis/SortedSets/Memory as stores that have it.
-- Resilience/Breaker and Resilience/Retry: pkg/resilience/circuit_breaker.go. Config:
-- cmd/*/internal/config, one module for each service; Config/Wiring and Config/Startup are the
-- main functions. Http: what the services use of the mux of net/http; Account/Routes,
-- Payment/Routes and Gateway/Mux are the routes. Generator: scripts/generator/main.go;
-- Generator/Seeding has the seeder, Generator/Load the payloads, Generator/Metrics the collector
-- and the figures of the reports, Generator/Verify the wait for payments to settle. System: the
-- services on one database, with the account service as the server that the payment service
-- calls. Scenarios: concrete runs.
--
-- How state and operations correspond. A table is a list of rows in insertion order. A function
-- takes the state that the Go method reaches (tables, Redis store, breaker, what the broker has
-- taken) and gives its result with the state after it. An operation that can fail from outside
-- takes an `Env`: the clock, the generated ids, and for each call to the database or to Redis
-- whether it fails. A failed call to the database changes nothing, and so does a commit that
-- fails; a call to Redis may be answered, not arrive, or be served with its answer lost where it
-- matters. A transaction works on its own copy of the tables; a commit publishes the copy, and
-- the deferred rollback drops it. A Kafka handler is a function on its own state; the consumer
-- loop runs it on what the reads give, one after another.
--
-- Numbers. An amount is a whole number of ten-thousandths, the values that a NUMERIC(18, 4)
-- column holds; the code carries it as a float64, whose rounding is modelled where the audit
-- compares (Settlement/Floats) and not elsewhere; nor is the overflow of the column. The audit's
-- floats are rounded to 53 bits by at most 1100 halvings, which is more than the exponent of a
-- float64 has; NaN and infinity do not occur, since NUMERIC(18, 4) has no such value. Times and
-- durations are natural numbers of ticks, in nanoseconds where the code multiplies them; the
-- delays of a retry wrap as int64 does. Scores of sorted sets are natural numbers, which Redis
-- holds as doubles. Versions and counters are natural numbers.
--
-- Fuel. A retry is recursion on the attempts that are left, which start as the largest number of
-- attempts, so no further fuel is needed. The wait of Generator/Verify takes as many rounds as
-- there are ticks up to its deadline, and one more. The load generator draws a target until it
-- differs from the source; its fuel counts the draws.
--
-- Parameters. Redis is an interface with laws; the JSON encodings, the SHA-256 of a request, HMAC
-- and the text of an amount are arguments, with the round trip of a JSON encoding as a hypothesis
-- where it is used. Which addresses can be listened on, and which databases and Redis servers
-- answer, is an argument of the main functions. The answer of the account service is an argument
-- of `ProcessFraudResult`. Random bytes are a reader, and a random integer a function of its
-- bound.
--
-- Not modelled. Each step of a run in System/Runs is one whole operation, or a whole sequence of
-- messages of the saga consumer; System/Interleavings lets runs of `ProcessFraudResult`
-- interleave with each other and with those, cut at their calls, while a transfer stays one step,
-- which the row locks of the code give it. The breaker alone is modelled with calls that overlap,
-- and the candidates of Leader interleave by heartbeats. Offsets, rebalancing and redelivery of
-- Kafka are not modelled: a consumer sees some sequence of reads. The mux of net/http is modelled
-- without redirects and hosts, on cleaned paths. The addresses that the gateway parses, flags,
-- printing, signals, shutdown and logging have no model because they only pass values on.
pub mod Account
pub mod Base
pub mod Config
pub mod Fraud
pub mod Gateway
pub mod Generator
pub mod Http
pub mod Idempotency
pub mod Kafka
pub mod Leader
pub mod Notification
pub mod Payment
pub mod Redis
pub mod Resilience
pub mod Scenarios
pub mod Schema
pub mod Settlement
pub mod System
pub mod Tracing
