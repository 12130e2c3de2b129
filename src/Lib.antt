-- ===== src/Lib.antt =====
-- ModelDock (RelayeDock in the Go sources) is a gateway in front of AI providers. It prices
-- requests, chooses one of several upstream credentials for each, watches the quality of the
-- providers, and settles with their suppliers. This library models the parts whose logic is their own,
-- as opposed to that of the database or of a service they call.
--
-- The parts, their files here and the code they stand for:
--   Base        booleans, lists and integers over the native numbers; no code of the program.
--   Text        a Go string as the list of its code points, with the `strings` functions used.
--   Decimal     internal/domain/domain.go: ParseDecimal, Add, Subtract, Multiply, Compare. A
--               `big.Rat` with 12 decimal places is a whole number of units of 10^-12.
--   Settlement  internal/settlement/calculator.go: Split of a supplier's gross amount.
--   Rat         what pricing and quality use of `big.Rat`: fractions that are not reduced.
--   Pricing     internal/pricing/pricing.go: Calculate, MeetsMinimumMargin, format, nonNegative.
--   Quality     internal/quality/evaluator.go: Evaluate with its scores, breaches, circuit breaker
--               and traffic ramp. The circuit's state is in `Decision`, as in the code.
--   Scheduler   internal/scheduler/scheduler.go: the filters (Scheduler), the Redis scripts and the
--               interface of the counters (Counters), SelectConstrainedForOrganization (Select).
--   Funding     internal/store/funding.go and the cash lots of internal/store/finance.go:
--               ReserveFunding (Reserve), BeginFundingAttempt and FinishFundingAttempt (Attempt),
--               SettleFunding (Amounts, Settle), AdjustLateFundingUsage (Adjust), ReverseFunding
--               (Reverse), RecoverStaleFunding (Recover); reserveCashLotsTx, settleCashLotsTx,
--               allocateCashDebitTx, settlePromotionTx (Lots), restoreCashAllocationTx and
--               reversePromotionTx (Restore). A database transaction is a function of the rows
--               it reads; a reservation and a settlement fail where a row of funding_operation or
--               wallet breaks a constraint of migrations/0006_modeldock.sql or 0009_funding_ledger.sql,
--               or a debit the UNIQUE of wallet_cash_allocation in migrations/0012_financial_close.sql.
--               The bounds of the other columns and the rows of late adjustments, reversals and
--               attempts are taken to fit.
--   Routing     internal/server/routing_policy.go (Policy), internal/store/intelligent_router.go
--               (Match, Ramp) and mergeCredentialConstraints of internal/server/budget.go
--               (Constraints). SHA-256 is a parameter of the ramp.
--   Ratelimit   internal/ratelimit/ratelimit.go: Allow, AllowOrganization, AllowProvider,
--               AllowIdentity and the scripts of the concurrency limit.
--   Payments    internal/store/payments.go: recharge orders (Recharge), webhooks and chargebacks
--               (Webhook) and refunds (Refund), with the cash lot of an order in internal/store/finance.go.
--   Tests       runs of the definitions on concrete input.
--
-- How they interact: a request's policy is merged with that of its workspace and decides which routes
-- it may take, and its merged constraints are what the scheduler filters the credentials by. Its funds
-- are reserved before it is sent and settled by the pricing of its usage; the cash that it reserves
-- lies in lots, which credited recharge orders create and refunds and chargebacks take back. Pricing
-- and settlement stand on the decimals. The quality evaluator yields the weights and caps that the
-- stores write to the credentials, which the scheduler reads as EffectiveWeight, and the cap of the
-- traffic ramp. The scheduler calls a counter service, here the record `Counter`, whose Redis
-- implementation is `redis_counter`.
--
-- Numbers: amounts are unbounded in the code (`big.Rat`), and so they are here. Counters, weights and
-- token counts are `int` or `int64` in the code and unbounded here; no operation modelled can bring
-- them near 2^63 from realistic values, since each adds one or a configured step. Thresholds and times
-- of a quality policy are natural numbers. Scores and loads of the scheduler are compared as exact
-- fractions, where the code compares float64 quotients. ToUpper and ToLower act on ASCII letters.
--
-- No function of the library needs fuel except `natural_digits`, whose fuel is one more than the
-- number it prints, which is enough.
--
-- Not modelled: JSON and SQL, HTTP, the expiry of Redis keys other than that of
-- the scheduler's slots, the diagnostic fields of a selection, logging
-- and audit records. The choice among matching routes compares float64 scores and is left out; a
-- routing configuration is a record of the entries that the code reads, with decimals in units of
-- 10^-12. The other stores, the handlers, the workers, the adapters of the providers and the clients
-- are mostly calls of the database, of services and of each other.
pub mod Base
pub mod Text
pub mod Decimal
pub mod Settlement
pub mod Rat
pub mod Pricing
pub mod Quality
pub mod Scheduler
pub mod Funding
pub mod Ratelimit
pub mod Payments
pub mod Routing
pub mod Tests
