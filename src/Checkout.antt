-- ===== src/Checkout.antt =====
-- apps/api/src/store/checkout.service.ts: the confirmation of an order's payment and the payment
-- of an order by the wallet.
pub mod Types
pub mod Pack
pub mod Gate
pub mod Settle
pub mod Confirm
pub mod WalletPay
mod Tests
