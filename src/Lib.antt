-- ===== src/Lib.antt =====
-- The core of the StellarSettle API: the life of an invoice and its settlement.
--
-- An invoice is drafted by its seller, published, funded by investors and settled. Investors fund
-- it by calls that may run at the same time; its row keeps what is funded and a version, on which
-- an update is conditional. Every change of its status goes through the invoice state machine
-- (src/lib/invoice-state-machine.ts), which checks a table of rules, writes the row and appends
-- to the status history. The settlement service (src/services/settlement.service.ts) divides the
-- proceeds among the investors, has a distributor pay them on the chain, and then settles the
-- invoice through the state machine. A settlement intent in the database records how far the
-- payout has come, so that calls that are retried or run at the same time do not pay twice.
--
-- Files:
--   * Common.antt and Common/: names of the libraries, Boolean tests, lists, integers, texts,
--     sorting, and the two monads, `Body` (state and errors, for a database transaction) and
--     `Result` (errors only, in Common/Checks.antt). The error codes are those of `ServiceError`
--     (src/utils/service-error.ts).
--   * Models.antt: the rows (src/models/) and enums (src/types/enums.ts).
--   * Invoice/Publish.antt: `validateInvoiceForPublish`
--     (src/lib/validate-invoice-for-publish.ts).
--   * Invoice/Rules.antt and Invoice/Rules/: `TRANSITION_RULES`, `assertTransition`,
--     `isTerminalStatus`.
--   * Invoice/Machine.antt and Invoice/Machine/: `InvoiceStateMachine.transition` and `dispatch`,
--     and `entityManagerTransitionStore`.
--   * Settlement/Returns.antt and Settlement/Returns/: `computeInvestorReturn`
--     (src/lib/investor-return.ts) and `calculateInvestorReturns`.
--   * Settlement/Intents.antt and Settlement/Intents/: `prepareSettlementIntent`,
--     `claimSettlementIntent`, `markSettlementDistributed`.
--   * Settlement/Finish.antt and Settlement/Finish/: the last transaction of `settleInvoice`.
--   * Settlement/Rows.antt: how the rows of the intents are counted.
--   * Settlement/Saga.antt and Settlement/Saga/: `settleInvoice` as phases between which other
--     calls may run.
--   * Market.antt and Market/: `createListing`, `buyListing` and `cancelListing` of the secondary
--     market (src/services/secondary-market.service.ts).
--   * Cache.antt and Cache/: `TtlCache` (src/lib/ttl-cache.ts).
--   * Breaker.antt and Breaker/: `CircuitBreaker` (src/lib/circuit-breaker.ts).
--   * Funding.antt and Funding/: `investInInvoice` as phases between which other calls may run,
--     `createInvestment` and `getInvestorDashboard` (src/services/investment.service.ts), the
--     acknowledgement of terms (src/services/investor-acknowledgement.service.ts), refunds
--     (src/services/invoice-refund.service.ts). Funding/Pot.antt is the specification of both,
--     Funding/Race.antt the calls that run at the same time.
--   * Dates.antt: src/utils/date.utils.ts.
--   * Window.antt and Window/: the rate limit (src/lib/redis-sliding-window.ts).
--   * Desk.antt and Desk/: the invoice service (src/services/invoice.service.ts), from the draft
--     to publication, batches included.
--   * Tests.antt in several folders: runs on small data, and concrete cases of the theorems.
--
-- How the state corresponds: the database is one record of tables, a table is a list of rows, and
-- code inside a database transaction is a function that returns the new database or an error, in
-- which case nothing is written. Row locks make a transaction one step. Where the source reads a
-- row without a lock and saves it later, the function takes the tables of the read and the tables
-- of the write, or the read is a step of its own. Amounts are decimal(18,4) columns, kept as a
-- number of 0.0001 units, and the proceeds of a settlement are given with at most four decimals.
-- The clock, the hash that a payout answers, the order of `localeCompare` and the identifiers
-- that the database draws are arguments. Numbers are not bounded: the source computes with bigint
-- and decimals. Every loop is a recursion on a list, so no fuel is used.
--
-- Not modelled: HTTP routes and controllers, workers, migrations, the clients of the Stellar
-- network, logs, metrics and notifications; entity hooks that normalise a row before it is
-- written; the messages of errors.
pub mod Common
pub mod Models
pub mod Invoice
pub mod Settlement
pub mod Market
pub mod Cache
pub mod Breaker
pub mod Dates
pub mod Funding
pub mod Window
pub mod Desk
