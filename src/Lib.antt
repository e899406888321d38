-- ===== src/Lib.antt =====
-- iCode Host Pro, a hosting shop: the parts of its API that move money, decide who may proceed,
-- and bound the work of its periodic passes.
--
-- The parts and how they interact. A customer has a wallet (apps/api/src/wallet): an operation of
-- the shop credits or debits it under a row lock and leaves a ledger row with an idempotency key,
-- and a bank transfer becomes a pending row that an administrator validates or rejects. A card
-- payment (apps/api/src/payments) is confirmed by a signed webhook or a reading at the provider: a
-- top-up credits the wallet, the payment of an order confirms the order in the same transaction;
-- it accounts the refunds made here and those observed at the provider. The confirmation of an
-- order (checkout.service.ts) is one compare-and-set that every means of payment shares, with the
-- invoice, the subscription and the hosting service that it opens; the balance of the wallet pays
-- an order only where no card payment stands in the way. The shop (apps/api/src/store) takes an
-- order only with the conditions that the customer accepted, cancels it if no payment comes,
-- computes the next billing date, and finds the root of a chain of renewals, which is the key of
-- the lock that renewals and revocations share. Its periodic passes run under a lease in the
-- database and after a probe of the schema; the reconciler of deployments reads settings from the
-- database, the environment and the defaults. The login (apps/api/src/auth) keeps single-use
-- challenges and rate limits in memory. Projects older than the hosting services are classified
-- before they are attached to one (apps/api/src/hosting).
--
-- Which file models which part:
--   Wallet/Types, Wallet/Db     the tables of apps/api/prisma/schema.prisma that the wallet uses, its
--                               errors, and the queries: `create_tx`, `increment`
--   Wallet/Apply                wallet.service.ts: `apply` and `applyInTx` with their replay, and
--                               `credit`, `debit`, `applyWithClient`
--   Wallet/Recharge             wallet.service.ts: `createRecharge`, `validateRecharge`,
--                               `rejectRecharge`
--   Wallet/Owner                wallet.service.ts: `ensureOwnedCustomer`
--   Wallet/Ledger               what the wallet promises: the books
--   Payments/RefundAccounting   refund-accounting.ts: `syncRefundedCents`
--   Payments/StripeUsability    stripe-usability.ts: `stripeUsability`, `cardCurrenciesOf`
--   Payments/StripeSignature    stripe-signature.ts: `verifyStripeSignature`
--   Payments/CardPayments       card-payments.service.ts: `confirmPaid`, `settleTopupInTx`,
--                               `settleOrderInTx`; Events: `markExpired`, `markFailed`,
--                               `markFailureNotice`, `markProcessing`, `applyChargeRefunded`,
--                               `recordRefundObservation`, `applyDispute`, `resolveIntervention`
--   Checkout/Types              the rows, the outcomes and the refusals of a confirmation
--   Checkout/Gate               checkout.service.ts: `renewalChargeGateInTx`,
--                               `resolveSubscriptionIdForOrder`
--   Checkout/Pack               checkout.service.ts: `loadC3Catalog`, `buildC3Intent`, and
--                               hosting-services.service.ts: `snapshotsFromPack`
--   Checkout/Settle             checkout.service.ts: the writes of `confirmOrderInTx`
--   Checkout/Confirm            checkout.service.ts: `confirmOrderInTx`, `confirmOrderWithin`,
--                               `confirmOrderPaid`
--   Checkout/WalletPay          checkout.service.ts: `payOrderWithWallet`, and
--                               payments/blocking-payment.guard.ts: `assertNoBlockingCardPayment`
--   Store/BillingCycle          billing-cycle.ts: `addBillingCycle`
--   Store/PricingAcceptance     pricing-acceptance.ts: `evaluatePricingAcceptance`
--   Store/CreditLines           refund.service.ts: `allocateCreditLines`
--   Store/RenewalChain          renewal-chain-barrier.ts: `renewalChainRootId`
--   Store/SweepLease            sweep-guards.ts: the lease and the probe
--   Store/OrderLifecycle        order-lifecycle.service.ts: `expireStalePending`
--   Reconcile/Settings          reconcile-settings.ts and reconcile-backoff.ts
--   Reconcile/Validation        reconcile-settings.ts: `validateReconcileSettings`, on any value
--   Auth/MfaChallengeStore      auth/mfa/mfa-challenge.store.ts
--   Auth/RateLimiter            auth/rate-limiter.ts: `SaRateLimiter`
--   Hosting/LegacyClassification
--                               hosting/legacy-classification.ts
--   Prelude                     the names the files share: tests, lists, ℤ, texts, a `Map`,
--                               calls with a state and refusals
--
-- How the code is rendered. A service call is a function from the tables to a result and the
-- tables that it leaves; an exception is an `err` that names its message. A transaction that is
-- rolled back leaves the tables as they were when it began. What other processes commit between
-- two statements of a call is a function on the tables (`before_lock` and its like) or a list of
-- statements, and every theorem says what it asks of them. Generated ids, keys and references, the
-- clock, and which query fails are arguments. Identifiers are numbers where the code only compares
-- them. An amount is an integer; a number of the request that may not be one is a `Number`. A text
-- is its list of UTF-16 code units; case is changed on the letters of ASCII only.
--
-- Fuel. The walk of `renewalChainRootId` has fuel for 1001 turns; each turn adds an order to the
-- set of those visited, and at 1000 of them the code refuses, so the fuel is enough.
--
-- Parameters: `Number(text)` of the environment, the catalogue of the schema probe, and for a
-- webhook `parseInt`, the decimal text of a number and the HMAC; for a payment the idempotency key
-- of its wallet operation and the note of a top-up, which are texts made of ids and references; and
-- how `<` compares a setting that is no number. Nothing is assumed of them.
--
-- What is not modelled: the HTTP controllers, the files of a proof of transfer, the hash of a
-- quote, the database's own lock of a chain, the reported source of the reconciler's flag
-- `enabled`, the 32-bit range of a column of type Int, beyond which the database refuses the
-- write, the rest of order-lifecycle.service.ts, the mails, audits and launches of the
-- provisioning that follow a commit, the creation of card payments and the calls of the
-- provider, the quote and the creation of orders, the refunds of orders but for the lines of
-- their credit notes, and the other services of the API (provisioning, renewals, subscriptions,
-- hosting, servers), whose code is mostly queries and calls of outside services.
pub mod Auth
pub mod Checkout
pub mod Hosting
pub mod Payments
pub mod Prelude
pub mod Reconcile
pub mod Store
pub mod Wallet
