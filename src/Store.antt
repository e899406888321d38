-- ===== src/Store.antt =====
-- apps/api/src/store: the pure parts of the shop and the guards of its periodic passes.
mod Tests
pub mod CreditLines
pub mod BillingCycle
pub mod OrderLifecycle
pub mod PricingAcceptance
pub mod RenewalChain
pub mod SweepLease
