-- ===== src/Payments.antt =====
-- apps/api/src/payments: the accounting of card refunds, the signature of webhooks, and whether the
-- card provider is usable.
mod Tests
pub mod CardPayments
pub mod RefundAccounting
pub mod StripeSignature
pub mod StripeUsability
