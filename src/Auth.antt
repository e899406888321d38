-- ===== src/Auth.antt =====
-- apps/api/src/auth: the in-memory stores of the login, single-use challenges and rate limits.
mod Tests
pub mod MfaChallengeStore
pub mod RateLimiter
