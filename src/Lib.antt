-- ===== src/Lib.antt =====
-- Accensa takes payments over the Stellar network: an indexer reads the payments of a merchant
-- from the ledger, an application serves the merchant's dashboard, and an SDK serves sellers. This
-- library models the parts that carry its rules.
--
-- Inventory (apps/web/src/lib/inventory/reservationManager.ts). `Inventory` has the types and
-- the tables, `Inventory.Lines` the merging of a request's lines, `Inventory.Store` the statements
-- of the Postgres store, and `Inventory.Manager` the manager's methods. The tables are lists of rows,
-- and a reservation's lines stand in its row, since they are written together and never changed.
-- A transaction is a function of the tables, and a throw gives the old tables back; transactions run
-- one after another, so what row locks do between two of them is not modelled. Every reading
-- of the clock is an argument, and so is the identifier that randomUUID makes. Numbers are natural:
-- what isSafeInteger and the tests for a negative number reject besides is not representable. The
-- sum of a request's lines is rounded as doubles are; other sums are exact. The orders of localeCompare and of the database's ORDER BY are parameters.
-- `Inventory.Doubles`, `Inventory.Sums` and `Inventory.Stock` say what roundings and writes do, `Inventory.Oversell` and its
-- children keep the invariant, `Inventory.Finish`, `Inventory.Over` and `Inventory.Ended` say what
-- calls of finish answer.
--
-- Merkle batches (packages/sdk/merkle.ts). `Merkle` has buildBatch, verifyReceipt and receiptLeaf: a text
-- is its list of code points and a buffer its list of bytes, with the order of Buffer.compare and the
-- hex digits written out. SHA-256 is a parameter; where a theorem needs it, it answers 32 bytes. The
-- loop of buildLevels has as many rounds as there are leaves, which suffices. `Merkle.Tree` has
-- the paths to the root, `Merkle.Membership` and `Merkle.Batch` the proofs of a batch.
--
-- Webhooks (apps/web/src/lib/webhooks). `Webhooks.RetryPolicy` is retry-policy.ts, `Webhooks.Repository`
-- the statements of repository.ts over the table as a list of rows, and `Webhooks.Deliver`
-- recordAttempt and deliverDue. Times are in milliseconds. Date.parse and the jitter are parameters;
-- what the clock, the HTTP attempt and the statements answer for a row is a `Turn`. The statements that
-- record an attempt or requeue a row may fail; those that read, reset and claim rows, and those of the
-- other calls, are taken to succeed. The transport and the signature are not modelled.
-- `Webhooks.Views` has the dashboard's queries, `Webhooks.Schedule` bounds the retries, `Webhooks.Attempts`
-- and `Webhooks.History` the attempts, and `Webhooks.Settled` and `Webhooks.Counted` are about a run.
--
-- The event pager (apps/web/src/lib/event-pager.ts). `Pager` has drainEvents and sweepLedgerRange.
-- The event service and withinBudget are steps of an abstract world. The loop over pages takes a
-- bound on its rounds, which suffices if it exceeds what is left of a budget that each page uses; the loop over
-- windows has one more round than the range has ledgers. sweptThrough is kept as the ledger after
-- it, and a window size is natural. The events of a sweep are all that it emits, whether it
-- returns them or passes them to a consumer, which is a step of the world too and may throw.
-- `Pager.Coverage` says what a sweep has read, `Pager.Consumed` relates what a consumer took to
-- the world, and `Pager.Ends` and `Pager.ParallelEnds` are about the end of a sweep.
-- `Pager.Parallel` is parallelSweepLedgerRange, with the fetches of a batch one after another, and
-- `Pager.Batches` says what it has read.
--
-- The indexer (apps/web: src/app/api/sync/route.ts, src/lib/insert-payments.ts,
-- src/lib/stellar-events.ts and the queries on payments and cursors of src/lib/db.ts). `Indexer`
-- has the rows, `Indexer.Decode` the transfers, `Indexer.Table` and `Indexer.Batch` the statements
-- over tables as lists of rows, `Indexer.Queries` the queries and transactions, each of which may
-- fail, `Indexer.Window` the consumer of a sweep of `Pager`, and `Indexer.Run` runSync. The
-- services around it, and what PostgreSQL reads as a number or a time, are fields of a record. An
-- insert fails where a column does not take a value. One sync of a merchant runs at
-- a time, for which the code holds a lock, and no other query comes between its statements. The
-- bound on the pages of a window is that of the pager. The amount of a payment is kept as its
-- text. Ledgers are natural: where the code computes a number below 0, the maximum with 0 or 1
-- that it takes is what the subtraction of natural numbers gives. `Indexer.Steps`,
-- `Indexer.Upserts`, `Indexer.Chunks` and `Indexer.Consumer` say what the writes do,
-- `Indexer.Progress`, `Indexer.Coverage`, `Indexer.Covered` and `Indexer.Sync` compose them with
-- the sweep, `Indexer.Inserts`, `Indexer.Twice`, `Indexer.Rollback`, `Indexer.Exact` and
-- `Indexer.Bound` are about single operations, `Indexer.Invariants`, `Indexer.Keys`,
-- `Indexer.Histories`, `Indexer.Tenants` and `Indexer.Always` about what is kept of the tables,
-- and `Indexer.Times` and `Indexer.Ends` about the time that a sync takes: the pages of a window are
-- bounded by the nanoseconds of its budget, of which each request takes at least one.
--
-- Subscriptions (packages/sdk/src/subscription/index.ts). `Subscription` has the plan, the subscription and
-- the functions that change them. Instants are natural milliseconds, so an ISO text and the Date it
-- came from are one; setUTCDate, setUTCMonth and setUTCFullYear are parameters, and
-- Number of an amount is read off its digits. `Subscription.Rules` and `Subscription.Life` are about it.
--
-- Fetch retries (packages/sdk/retry.ts). `Retrying` has fetchWithRetry, whose loop counts down the retries
-- that are left. The fetch, the clock and the wait with onRetry are steps of an abstract world; Number
-- and Date.parse of a header are parameters. `Retrying.Outcome` says how it ends.
--
-- Money (apps/web/src/lib/money.ts). `Money` has every function on lists of code points, with `Prelude.Int`
-- for bigint and `Prelude.Decimal` for toString. `Money.RoundTrip`, `Money.Totals` and `Money.Display` are about
-- printing and reading, sums, and the display.
--
-- CSV export (apps/web/src/lib/payments-csv.ts and export/csvFormatter.ts). `Csv` has the rows and the
-- export, `Csv.Formatter` the rows of the stream, for which csvFormatter.ts has code of its own,
-- `Csv.Stream` the stream as what its pulls put out, and `Csv.Reader` a reader of RFC 4180.
--
-- Pricing rules (apps/web/src/lib/pricing/engine.ts). `Pricing` has the types and the decimals, with a
-- thrown error as a result; `Pricing.Engine` has `matches` and `price`, whose loop goes through the rules
-- sorted by insertion. A quantity is natural, and an applied rule keeps its effect instead of the JSON
-- text. `Pricing.Decimals` is about the decimals.
--
-- Coupons (apps/web/src/lib/discounts/couponService.ts). `Coupons` has every function over `Money`; an answer
-- is accepted, rejected or thrown. Date.parse and toUpperCase are parameters. `Coupons.Checks` states
-- what the fields of a coupon ask for, `Coupons.Amounts` and `Coupons.Validation` are about the answers.
--
-- Shard routing (apps/web/src/lib/shard-router.ts). `Shards` has pickShard, shardsFromEnv and resolveShard;
-- SHA-256 and JSON.parse are parameters, the latter with a view of the value. `Shards.Picks` has the order
-- by weight, `Shards.Changes` other lists of shards, and `Shards.Configured` the environment.
--
-- Rate limits (apps/web/src/lib/auth/totp-rate-limit.ts and inventory/reservation-rate-limit.ts). `RateLimits`
-- has the two limiters over a shared body, with a map as a function and what the shared limiter answers as
-- an argument. `RateLimits.Window` compares the times it keeps with all the times at which a call
-- passed, `RateLimits.Histories` follows a merchant over a history of calls.
--
-- Authorization (apps/web/src/lib/zanzibar). `Zanzibar` has permissionOf, the check of the local store and its
-- fallback, and authorize; an object is a merchant's number, and what the cluster answers is an
-- argument. Lists of tuples and the HTTP client are not modelled. `Zanzibar.Grants` has the schema, and
-- `Zanzibar.Authorize` is about what is let through.
--
-- Not modelled: the pages and components of the dashboard, the checkout widgets, the demo merchant and the
-- docs site, which render; the API routes around these modules; tokens, TOTP and signatures, which are
-- cryptography of libraries; split payments and taxes, which compute with floating point numbers; the
-- decoding of XDR by the Stellar SDK; the client code of the contracts; what db.ts has besides, which hands out
-- connections and makes the schema.
-- The funnel, the risk score, the exchange rates and the notifications are left for later.
pub mod Prelude
pub mod Coupons
pub mod Csv
pub mod Indexer
pub mod Inventory
pub mod Merkle
pub mod Money
pub mod Pager
pub mod Pricing
pub mod RateLimits
pub mod Retrying
pub mod Shards
pub mod Subscription
pub mod Webhooks
pub mod Zanzibar
