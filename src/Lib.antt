-- ===== src/Lib.antt =====
-- A verification library for the broker layer of INC_Trade (the Python packages under brokers/):
-- the parts that decide whether, when and where a call to a broker is made, and what is kept of it.
--
-- The parts and how they interact
--   A call to a broker goes through `RetryExecutor.execute` (brokers/common/resilience/retry.py). In
--   each attempt it asks the circuit breaker (circuit_breaker.py) whether to go on, takes a token of
--   the rate limiter (rate_limiter.py), calls the function, tells the breaker how that ended, and
--   sleeps by the backoff (backoff.py). The health
--   monitor (broker_health_monitor.py) keeps the outcomes by broker. Across brokers, the quota scheduler
--   (brokers/common/quota_scheduler.py) grants tokens by priority and keeps a reserve for executions.
--   The router (brokers/common/router.py) picks brokers by the policy of the operation (policy.py),
--   by what the registry (registry.py) holds of their capabilities and health, and by the quota
--   headroom. The idempotency service (brokers/common/idempotency/service.py) keeps the answers of
--   calls that must not happen twice, in a primary and a fallback backend, such as the memory cache
--   (memory_cache.py). The reconciliation engine
--   (brokers/common/reconciliation/engine.py) compares the local state with the broker's. The paper
--   broker (brokers/paper/paper_orders.py) fills orders by itself. The subscription manager of
--   Upstox keeps the instruments of a web socket within the broker's caps, and its slice adapter
--   cuts an order into slices. On top of router and registry stand two coordinators: the stream
--   orchestrator (brokers/common/stream_orchestrator.py) shares sessions with brokers among the
--   subscribers, and brings them back or moves them to another broker when they fail; the historical
--   coordinator (brokers/common/historical_coordinator.py) plans a query of bars as chunks over
--   several brokers, fetches them with fallbacks, and merges the bars by their time. Two cooldowns
--   are kept on disk: logins by TOTP go through a guard (brokers/common/auth/totp_cooldown.py), and the
--   web sockets of Dhan through a lock of the host and the waits after a 429
--   (brokers/dhan/connection_admission.py).
--
-- Which file models which part
--   Prelude               shared names; Prelude/Lists, Dict (a dict in insertion order), Int (signed
--                         integers), Result (exceptions as values), Tests (Boolean comparisons).
--   Resilience/Circuit    `CircuitBreaker`: each method under its lock is one function of a reading of
--                         the clock. Invariant: the counters; Phases: the three-phase contract;
--                         Trips: when the breaker opens, and what it lets through.
--   Resilience/Bucket     `TokenBucketRateLimiter`; Conserves: what a bucket grants in all; Waits: the
--                         polling loop of `acquire`.
--   Resilience/Buckets    `MultiBucketRateLimiter` and `EndpointRateLimiter`; Uniform: the latter.
--   Resilience/Backoff    the backoff strategies; Bounds.
--   Resilience/Retry      `RetryExecutor`; Attempts: how often it calls and sleeps; Accounts: what
--                         the breaker and the callbacks are told; Counts: the breaker's tally.
--   Resilience/Health     `BrokerHealthMonitor` (broker_health_monitor.py); Summary: what a history of
--                         calls says; Kept: the monitor holds it.
--   Quota/Reserve         `_TokenBucket` with its reserve; Starvation.
--   Quota/Scheduler       `QuotaScheduler`; Outcome: `acquire` ends; Priority: executions first.
--   Quota/Metrics         its metrics and `borrow`; Harmless: the metrics change no answer.
--   Routing/Models, Policy, Registry (Registry/Consistent), Router (Router/Filter and Eligible: which
--                         candidates come through; Order and Selects: whom the mode then takes).
--   Idempotency/MemoryCache  `MemoryIdempotencyCache`; Valid: the access order; Agrees: `get` against
--                         the history; Evicts: what a `put` drops.
--   Idempotency/Service   `IdempotencyService` over any two backends; Outcome: what it answers;
--                         Memory: the memory cache as a backend.
--   Reconciliation        `ReconciliationEngine`; Loops and Complete: what is reported of each id.
--   Paper/Domain, Orders  `PaperOrders` without an order manager; Orders/Settled: no order stays open;
--                         Orders/Book: orders, trades and positions; Orders/Lookup: `get_order`.
--   Upstox/Subscriptions  `UpstoxV3SubscriptionManager`
--                         (brokers/upstox/websocket/v3_subscription_manager.py); InStep: its sets
--                         and its modes by key; Kept: sessions and errors; Text: modes as texts.
--   Upstox/Slices         the sliced placement of brokers/upstox/orders/slice_adapter.py; Whole: the
--                         slices make up the order.
--   Stream                `StreamOrchestrator`: Models; Sessions, Subscribe (start, stop, subscribe,
--                         unsubscribe), Normalise and Frames (frames, heartbeat, summaries),
--                         Reconnect (with its failover). Wired, Runs: what every run keeps; Reuse,
--                         Serves: what one call of subscribe or unsubscribe brings about; Merges:
--                         plans merged into a shared session; Candidates, Failover: how the moves
--                         to another broker end.
--   Historical            `HistoricalCoordinator`: Models; Plan (ranges and chunks), Merge, Fetch.
--                         Once: each day is asked at most once; Merged: which bar of a time is kept;
--                         Sources: the ranges of bars and the gaps; Answers: what the
--                         brokers answer; Numbered, Noted, Fetched: how a fetch ends.
--   Cooldown/Files        a JSON file; Totp: `TotpCooldownGuard`, `DhanTotpClient.generate` and
--                         `generate_token` of Upstox (brokers/dhan/totp_client.py,
--                         brokers/upstox/auth/totp_client.py), with Spaced: logins apart;
--                         Admission: `MarketFeedConnectionAdmission`, with Excludes: its lock, and
--                         Escalates: its waits.
--   The Tests modules run the definitions on small inputs and apply the theorems there.
--   A function has the name of the Python method that it translates, without the leading underscore.
--   A method that changes an object takes the object last and returns the changed one, with the
--   answer behind it. What is read of the outside (the clock, a random number, what a gateway or the
--   market data says) is an argument: a number, or a record for each round of a loop.
--
-- Units, rounding and bounds
--   Python's floats are exact here. Where its file names no other unit, a rate is in thousandths
--   of a token per second, a time in nanoseconds and an amount in units of 10^-12 token, so that elapsed time times rate needs no
--   division. A delay is a multiple of 10^-8 ms, and the multiplier of the backoff a whole number.
--   Where the code divides, the comment says how the result is rounded. Python's integers have no
--   bound, and neither have the natural numbers here. Where the code subtracts, the subtraction is
--   moved over, or its stop at zero agrees with a `max(0, …)` of the code, or it is the time since an
--   earlier reading of the monotonic clock, which never goes back.
--
-- Loops and fuel
--   A loop over a list is structural recursion. The loop of the executor counts down the attempts. The
--   polling loops of `acquire` run over the readings of the clock that they take, one record for each
--   round, and return `none` or a wait when the readings end; that enough rounds end them is a
--   theorem of each (Resilience/Bucket/Waits, Quota/Scheduler/Outcome). The chunks of a plan and the
--   slices of an order are made on fuel: more fuel than the ordinals of the days of the query and of
--   today together, and more than the quantity of the order, is enough where chunks and slices are
--   not empty, which the theorems about them show (Historical/Once, Upstox/Slices/Whole). A
--   round of the heartbeat of the stream orchestrator is one step, and a round of the reconnect task
--   of a session is two, before its sleep and after it.
--
-- Concurrency
--   The methods that hold a lock for all of their body are one step. A refresh of the registry, which
--   lets go of the lock in between, is two. A route is taken on a registry that does not change
--   meanwhile. The retry executor is taken as the only user of its breaker and its limiter. A call
--   of the stream orchestrator, or what it does about one event, is one step, and a run is a sequence
--   of steps in any order. The chunks of a historical query are fetched one after the other.
--
-- What is not modelled
--   Logging, the export of metrics and audit events; network, files, Redis and web
--   sockets; the asynchronous twins, which differ in how they sleep; the packages `domain` and `application`, which are not in this
--   repository (orders, positions, statuses and the order manager): what is used of them is an
--   argument. Of the adapters of the single brokers (brokers/dhan,
--   brokers/upstox) only the parts named above are modelled.
pub mod Prelude
pub mod Resilience
pub mod Quota
pub mod Routing
pub mod Idempotency
pub mod Reconciliation
pub mod Paper
pub mod Upstox
pub mod Stream
pub mod Historical
pub mod Cooldown
