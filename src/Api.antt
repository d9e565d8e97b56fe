-- ===== src/Api.antt =====
-- The request handling of apps/api/src: the rate limiter, the idempotency store, pages and the
-- authorization gate.
pub mod RateLimit
pub mod Idempotency
pub mod Keys
pub mod Pages
pub mod Gate
pub mod Files
pub mod Collections
