-- ===== src/UnitOfWork.antt =====
-- backend/src/database/UnitOfWork.ts: transactions with a bound on how many run at once, retries
-- after transient errors, and events that are handled after the commit.
pub mod Semaphore
pub mod Retryable
pub mod Backoff
pub mod Transaction
pub mod Metrics
mod Tests
