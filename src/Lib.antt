-- ===== src/Lib.antt =====
-- A model of the core package of the usage-control library, packages/core/src: the input checks, the
-- in-memory store, the client with its leases, the checks of what a store answers, and the helpers
-- for weighted credits, accounting windows, thresholds, settlement outcomes, events and operational
-- counters.
--
-- A usage store keeps, for each budget key, the units that are used of it (`used`), the retained
-- reservations (`reservations`) and the operations that they belong to (`operations`). A client
-- reserves units for an operation, may mark the reservation liable, renew it, grow it by numbered
-- increments and settle it with the units actually used. Reservations expire: a pending one is
-- released, a liable one is settled with all of its units. Settled reservations are retained until
-- their tombstone ends, so that a repeated settlement is answered again. A vector reservation
-- holds several dimensions, each with its own units and budgets. The client asks a policy for a
-- quote, reserves the quoted units in a store and hands out a lease. It trusts no answer of the
-- store: each is an arbitrary value until it is checked. A growth whose outcome is unknown stays
-- pinned to its lease until the store answers it.
--
-- Files, each with its child modules, and the code that they model:
--   Base             comparisons, lists, options and the results of code that may throw
--   JsMap            `Map`: an association list in insertion order
--   Number           `assertNonNegativeInteger`, `assertPositiveInteger`, `safeAdd`
--   Types            the inputs, records and results of the store's methods
--   Collation        `localeCompare` and `sort`; Collation/ByCode is one such order
--   Input            `assertUsageIdentifier` and the `validateUsage...Envelope` functions
--   Budgets          `canonicalizeBudgets`, `sameBudgetKeys`
--   Dimensions       `canonicalizeUsageDimensions` and its companions for growth and actual units
--   OperationKey     `operationKeyFor`, with the escapes of `JSON.stringify`
--   Records          `cloneReservationRecord`, `cloneVectorReservationRecord`
--   Memory           `MemoryUsageStore`:
--     State, Action    its fields; a method returns or throws and keeps what it wrote before
--     Recovery         `recoverExpired`
--     Checks, Limits   the input checks, balances, capacities and charges
--     Scalar           `reserve`, `markLiable`, `renew`, `settle`
--     Growth           `growReservation`
--     Vector           `reserveVector`, `settleVector`
--     VectorGrowth     `growVectorReservation`
--     Reconciliation   `reconcileOperation`, `reconcileVectorOperation`
--     Maintenance      the constructor, `stats`, `retireBudgetKey`
--     Calls            sequences of calls
--     Moves            the writes under their guards; what every write keeps, every method keeps
--     Usage, Outcomes  lemmas on charges and releases, and on the ways a write can end
--     Covered, Capacity, Current, Settlement, Admission, VectorAdmission, Duplicates, Replay,
--     Retirement, ReadOnly   theorems
--   Value            an arbitrary value of JavaScript, and the checks of one value
--   Answers          the `validateStore...Result` functions: Scalar, Vector; Encoding gives the
--                    values that a store's answers are; Sound, Growth, Complete, Collisions
--                    theorems
--   Events           `UsageEvent` and `usageErrorName` of packages/core/src/observability.ts;
--                    Projection is `projectUsageEvent`
--   Client           the interface of a store and the world of a client:
--     Quotes, Requests the checks of a quote and of a growth request
--     Lease            `UsageLease`; Pinning, Resuming   theorems
--     VectorLease      `VectorUsageLease`
--     Control          `UsageControl`; Decisions   theorems
--     VectorControl    `VectorUsageControl`
--     OverMemory       `MemoryUsageStore` as a store of the client, with theorems
--   Denials          `UsageDeniedError` with its contexts; Reading   theorems
--   WeightedCredits  the configuration and the policy of packages/core/src/weighted-credits.ts;
--                    Kept, Quotes   theorems
--   Windows          packages/core/src/windowed-budget-keys.ts: the search; Key is the helper
--                    that it serves; Search, Exact   theorems
--   Thresholds       packages/core/src/thresholds.ts, with quotients as a parameter; Crossing
--                    theorems
--   SettlementOutcomes  packages/core/src/settlement-outcomes.ts; Normal   theorems
--   Operational      packages/core/src/operational.ts; Monitor counts events
--   Examples         the theorems at concrete inputs
--
-- Time is an argument of each method: the value of `Date.now()`, read once per call. The random
-- part of a growth cursor is an argument too. `localeCompare` depends on the locale of the host:
-- it is a parameter, a total and transitive order, which may take different texts to be equal.
-- The methods have no `await`, so each runs whole. Numbers are natural numbers, or one of the values
-- that the checks refuse; a sum that the source checks with `safeAdd` is bounded by the greatest
-- safe integer, and one that it does not check is not. Loops run over lists, without fuel, but the
-- search of Windows: its fuel is the search span, and the interval shrinks with each round.
-- An error keeps its class and the check that raised it, and not its message. The observer is the
-- list of the events that it was handed. An `await` of the client's `grow` is the boundary between
-- two definitions; other methods of the client are run whole. The calendar of `Intl` and
-- `encodeURIComponent` are parameters, and so is what a policy answers.
--
-- Not modelled: the utilisation of a quota, a quotient of floating-point numbers, of
-- packages/core/src/operational.ts;
-- the stores of packages/redis, packages/firestore and packages/cloudflare, whose logic runs in a
-- database or a service; the tool wrapping of packages/mcp; test harnesses, examples and scripts.
pub mod Base
pub mod JsMap
pub mod Number
pub mod Types
pub mod Collation
pub mod Input
pub mod Budgets
pub mod Dimensions
pub mod OperationKey
pub mod Records
pub mod Value
pub mod Events
pub mod Answers
pub mod Client
pub mod Denials
pub mod Memory
pub mod WeightedCredits
pub mod Windows
pub mod SettlementOutcomes
pub mod Operational
pub mod Thresholds
pub mod Examples
