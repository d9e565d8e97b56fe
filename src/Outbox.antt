-- ===== src/Outbox.antt =====
-- The outbox of apps/api/src/reliability/outbox.js: its jobs and the store in memory
-- (createOutboxStore). Times are milliseconds of the epoch; `toISOString` and `Date.parse` turn one
-- form into the other and back. A method that changes the store returns the new one; every exception
-- is thrown before a change.
pub mod Jobs
pub mod Store
pub mod Updates
pub mod Health
pub mod Processing
pub mod Invariant
pub mod Reachable
pub mod Claims
pub mod Held
pub mod Exclusive
pub mod Retries
pub mod Enqueueing
pub mod Settling
pub mod Totals
