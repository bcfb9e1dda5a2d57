-- ===== src/UnitOfWork/Transaction.antt =====
-- `executeInTransaction` and `executeWithoutTransaction` of backend/src/database/UnitOfWork.ts. A
-- rejection of `startSession`, which ends the call with its error, is left out.
mod Steps
pub mod Events
pub mod Totals
use image_app.Common.{
  ℕ, zero, suc, ◌+◌, ◌-◌, ◌≤◌, ◌<◌, ◌≡◌, Bool, true, false, Option, none, some, List, [], ◌∷◌, ◌++◌,
  ltb, if◌then◌else◌, ◌&&◌,
}
use image_app.Errors.{Thrown, Result, ok, err}
use image_app.EventBus.{
  EventBus, queue_transactional, flush_transactional_queue, clear_transactional_queue,
}
use image_app.UnitOfWork.Semaphore.{Semaphore, acquire, release}
use image_app.UnitOfWork.Retryable.{is_retryable_error}
use image_app.UnitOfWork.Backoff.{backoff_with_jitter}

-- `TransactionConfig`; the priority is read nowhere.
pub record TransactionConfig : Type 0 where
  pub max_attempts : ℕ
  pub base_delay_ms : ℕ
  pub max_delay_ms : ℕ

abbrev pub default_config : TransactionConfig
default_config = record { max_attempts = 8; base_delay_ms = 50; max_delay_ms = 5000 }

-- The counters of the private field `metrics`.
pub record Counters : Type 0 where
  pub total_attempts : ℕ
  pub successful_transactions : ℕ
  pub failed_transactions : ℕ
  pub retried_transactions : ℕ
  pub total_retries : ℕ

-- One call of `session.withTransaction` of the database driver, which is free to run the work
-- several times: the events that each run of the work queues, and what the call returns or throws.
-- `random` is what `Math.random` gives for the delay after it.
pub record Attempt (Event Handler A : Type 0) : Type 0 where
  pub runs : List (List (Event × Handler))
  pub outcome : Result A
  pub random : ℕ

-- The service, with the handler calls started and the delays waited for so far.
pub record State (Event Handler : Type 0) : Type 0 where
  pub semaphore : Semaphore
  pub counters : Counters
  pub bus : EventBus Event Handler
  pub started : List (Event × Handler)
  pub delays : List ℕ

-- `if (attempt > 1) { … }` and the success count
abbrev count_success : ℕ → Counters → Counters
count_success attempt c =
    if ltb 1 attempt
    then record c {
      successful_transactions = c.successful_transactions + 1;
      retried_transactions = c.retried_transactions + 1;
      total_retries = c.total_retries + (attempt - 1);
    }
    else record c { successful_transactions = c.successful_transactions + 1 }

module _ {Event Handler : Type 0} where
  unfoldable pub queue_all :
      List (Event × Handler) → EventBus Event Handler → EventBus Event Handler
  unfolding queue_transactional
  queue_all [] bus = bus
  queue_all ((e, h) ∷ events) bus = queue_all events (queue_transactional e h bus)

  unfoldable pub queue_runs :
      List (List (Event × Handler)) → EventBus Event Handler → EventBus Event Handler
  unfolding queue_all
  queue_runs [] bus = bus
  queue_runs (run ∷ runs) bus = queue_runs runs (queue_all run bus)

  -- After the commit: the queued events are handled, and the success is counted.
  unfoldable pub succeed : ℕ → State Event Handler → State Event Handler
  unfolding flush_transactional_queue
  succeed attempt s =
      let (calls, bus') = flush_transactional_queue s.bus in
      record s {
        counters = count_success attempt s.counters;
        bus = bus';
        started = s.started ++ calls;
      }

  unfoldable pub wait_to_retry :
      TransactionConfig → ℕ → ℕ → State Event Handler → State Event Handler
  unfolding clear_transactional_queue
  wait_to_retry cfg random attempt s = record s {
    bus = clear_transactional_queue s.bus;
    delays = s.delays ++ backoff_with_jitter random attempt cfg.base_delay_ms cfg.max_delay_ms ∷ [];
  }

  unfoldable pub fail : State Event Handler → State Event Handler
  unfolding clear_transactional_queue
  fail s =
      let c = s.counters in
      record s {
        counters = record c { failed_transactions = c.failed_transactions + 1 };
        bus = clear_transactional_queue s.bus;
      }

-- `retryable && attempt < cfg.maxAttempts`
unfoldable pub should_retry : TransactionConfig → Thrown → ℕ → Bool
should_retry cfg error attempt = is_retryable_error error && ltb attempt cfg.max_attempts

-- What a call does at once: it runs to its end, or waits in the semaphore for a release.
pub data Called (R S : Type 0) : Type 0 where
  finished : R → Called R S
  waits : S → Called R S

module _ {Event Handler A : Type 0} where
  -- The attempt, up to the result of `withTransaction`.
  unfoldable pub begin_attempt : Attempt Event Handler A → State Event Handler → State Event Handler
  unfolding queue_runs
  begin_attempt a s =
      let c = s.counters in
      record s {
        counters = record c { total_attempts = c.total_attempts + 1 };
        bus = queue_runs a.runs s.bus;
      }

  -- The loop `while (true)` from the attempt number `attempt`, with fuel; `script n` is what
  -- happens at attempt number n.
  unfoldable pub attempts :
      TransactionConfig
      → ℕ
      → (ℕ → Attempt Event Handler A)
      → ℕ
      → State Event Handler
      → Option (Result A × State Event Handler)
  attempts cfg zero script attempt s = none
  attempts cfg (suc fuel) script attempt s = elim ((script attempt).outcome) [
    | ok a ↦ some (ok a, succeed attempt (begin_attempt (script attempt) s))
    | err error ↦ elim (should_retry cfg error attempt) [
      | true ↦
          attempts cfg fuel script (attempt + 1)
            (wait_to_retry cfg (script attempt).random attempt (begin_attempt (script attempt) s))
      | false ↦ some (err error, fail (begin_attempt (script attempt) s))
    ]
  ]

  abbrev released :
      Option (Result A × State Event Handler) → Option (Result A × State Event Handler)
  released none = none
  released (some (r, s)) = some (r, record s { semaphore = (release s.semaphore).0 })

  -- The call once its permit is granted; whatever the result, the permit is released.
  unfoldable pub run_granted :
      TransactionConfig
      → (ℕ → Attempt Event Handler A)
      → State Event Handler
      → Option (Result A × State Event Handler)
  run_granted cfg script s = released (attempts cfg (cfg.max_attempts + 1) script 1 s)

  -- `executeInTransaction` by the caller `c`.
  unfoldable pub execute_in_transaction :
      ℕ
      → TransactionConfig
      → (ℕ → Attempt Event Handler A)
      → State Event Handler
      → Called (Option (Result A × State Event Handler)) (State Event Handler)
  execute_in_transaction c cfg script s =
      let (semaphore', granted) = acquire c s.semaphore in
      let s' = record s { semaphore = semaphore' } in
      if granted then finished (run_granted cfg script s') else waits s'

  -- `executeWithoutTransaction`: the work is done once, and its result is passed on.
  unfoldable pub execute_without_transaction :
      ℕ
      → Result A
      → State Event Handler
      → Called (Result A × State Event Handler) (State Event Handler)
  execute_without_transaction c result s =
      let (semaphore', granted) = acquire c s.semaphore in
      if granted
      then finished (result, record s { semaphore = (release semaphore').0 })
      else waits (record s { semaphore = semaphore' })
