-- ===== src/UnitOfWork/Metrics.antt =====
-- `getMetrics` and `resetMetrics` of backend/src/database/UnitOfWork.ts.
use image_app.Common.{ℕ, ◌+◌, ◌*◌, ◌/◌, ltb, if◌then◌else◌}
use image_app.UnitOfWork.Semaphore.{available_permits, queue_length}
use image_app.UnitOfWork.Transaction.{Counters, State}

-- `TransactionMetrics`, with the average in hundredths.
pub record TransactionMetrics : Type 0 where
  pub total_attempts : ℕ
  pub successful_transactions : ℕ
  pub failed_transactions : ℕ
  pub retried_transactions : ℕ
  pub avg_retry_hundredths : ℕ
  pub current_queue_length : ℕ
  pub available_permits : ℕ

-- `Math.round(x)` is the floor of `x + 1/2`; here of `100 * total / retried`, exact where the
-- program divides doubles.
abbrev pub average_hundredths : ℕ → ℕ → ℕ
average_hundredths total retried =
    if ltb 0 retried then (200 * total + retried) / (2 * retried) else 0

unfoldable pub get_metrics : {Event Handler : Type 0} → State Event Handler → TransactionMetrics
get_metrics s = record {
  total_attempts = s.counters.total_attempts;
  successful_transactions = s.counters.successful_transactions;
  failed_transactions = s.counters.failed_transactions;
  retried_transactions = s.counters.retried_transactions;
  avg_retry_hundredths =
      average_hundredths s.counters.total_retries s.counters.retried_transactions;
  current_queue_length = queue_length s.semaphore;
  available_permits = available_permits s.semaphore;
}

abbrev pub zero_counters : Counters
zero_counters = record {
  total_attempts = 0;
  successful_transactions = 0;
  failed_transactions = 0;
  retried_transactions = 0;
  total_retries = 0;
}

unfoldable pub reset_metrics : {Event Handler : Type 0} → State Event Handler → State Event Handler
reset_metrics s = record s { counters = zero_counters }
