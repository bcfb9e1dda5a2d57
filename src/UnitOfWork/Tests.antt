-- ===== src/UnitOfWork/Tests.antt =====
-- The unit of work at concrete schedules and scripts.
use image_app.Common.{
  ℕ, ◌≡◌, ◌≤◌, refl, ◌⊎◌, true, false, some, [], ◌∷◌, arith, length, ltb, if◌then◌else◌,
}
use image_app.Errors.{Result, ok, err, Thrown, native, number}
use image_app.EventBus.{empty}
use image_app.UnitOfWork.Semaphore.{
  init, acquire, release, System, start, enter, Reach, here, next, Reach-bound,
}
use image_app.UnitOfWork.Backoff.{backoff_with_jitter}
use image_app.UnitOfWork.Retryable.{is_retryable_error}
use image_app.UnitOfWork.Metrics.{zero_counters}
use image_app.UnitOfWork.Transaction.{
  default_config, Attempt, State, run_granted, attempts, begin_attempt, succeed, wait_to_retry,
  should_retry,
}
use image_app.UnitOfWork.Transaction.Events.{Ended, run_granted-Ended}
use image_app.UnitOfWork.Transaction.Totals.{IsConsistent, run_granted-IsConsistent}

abbrev crowded : System
crowded = record { semaphore = record { permits = 0; waiting = 2 ∷ [] }; holders = 1 ∷ [] }

-- Two callers of a semaphore with one permit.
crowded_reached : Reach (start 1) crowded
unfolding acquire
crowded_reached = next (next here (enter 1 refl)) (enter 2 refl)

Reach-bound_example :
    (length crowded.holders ≤ 1) × ((crowded.semaphore.waiting ≡ []) ⊎ (length crowded.holders ≡ 1))
Reach-bound_example = Reach-bound 1 crowded crowded_reached

abbrev conflict : Thrown
conflict = native "MongoServerError" "WriteConflict error" (record {
  printed = "MongoServerError: WriteConflict error";
  message = some "WriteConflict error";
  name = some "MongoServerError";
  code = some (number 112);
  labels = some ("TransientTransactionError" ∷ []);
  has_key_value = false;
})

retryable_tests :
    (is_retryable_error conflict ≡ true)
    × (is_retryable_error (Thrown.string "Network Error") ≡ true)
    × (is_retryable_error (Thrown.string "validation failed") ≡ false)
    × (is_retryable_error (Thrown.primitive "null") ≡ false)
unfolding is_retryable_error
retryable_tests = (refl, refl, refl, refl)

-- The first attempt fails with a write conflict, the second commits.
abbrev second_time : ℕ → Attempt ℕ ℕ ℕ
second_time n = record {
  runs = ((n, 9) ∷ []) ∷ [];
  outcome = if ltb n 2 then err conflict else ok 7;
  random = 0;
}

abbrev fresh : State ℕ ℕ
fresh = record {
  semaphore = init 49;
  counters = zero_counters;
  bus = empty;
  started = [];
  delays = [];
}

abbrev after : State ℕ ℕ
after = record {
  semaphore = init 50;
  counters = record {
    total_attempts = 2;
    successful_transactions = 1;
    failed_transactions = 0;
    retried_transactions = 1;
    total_retries = 1;
  };
  bus = empty;
  started = (2, 9) ∷ [];
  delays = 10 ∷ [];
}

second_time_run : run_granted default_config second_time fresh ≡ some (ok 7, after)
unfolding run_granted attempts begin_attempt succeed wait_to_retry should_retry is_retryable_error
    backoff_with_jitter release
second_time_run = refl

run_granted-Ended_example :
    (r : Result ℕ) × (s' : State ℕ ℕ) × (run_granted default_config second_time fresh
      ≡ some (r, record s' { semaphore = (release fresh.semaphore).0 }))
    × Ended default_config second_time 1 fresh r s'
run_granted-Ended_example = run_granted-Ended default_config second_time fresh refl

run_granted-IsConsistent_example : IsConsistent after.counters
run_granted-IsConsistent_example =
    run_granted-IsConsistent default_config second_time fresh after (ok 7) (omega arith)
      second_time_run
