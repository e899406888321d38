-- ===== src/Wallet.antt =====
-- apps/api/src/wallet/wallet.service.ts: the only code that writes a wallet balance.
-- Identifiers, idempotency keys and references are opaque strings that the service only compares,
-- so they are numbers here. A call is a function on the database; what other processes commit
-- while it waits is an argument, and randomness and time are arguments too.
pub mod Types
pub mod Db
pub mod Apply
pub mod Ledger
pub mod Recharge
pub mod Owner
pub mod Tests
