-- ===== src/Retry/Tests.antt =====
-- The retry service at concrete scripts.
use image_app.Common.{
  ℕ, ◌≡◌, refl, true, false, none, some, List, [], ◌∷◌, arith, ltb, if◌then◌else◌, ◌^◌,
}
use image_app.Errors.{ok, err, Thrown, native, number}
use image_app.Retry.{
  loop, gives_up, default_config, fast, Trial, execute, Operation, execute_all, rejected,
  is_retryable_error,
}
use image_app.UnitOfWork.Backoff.{backoff_with_jitter}
use image_app.Retry.Laws.{Ended, execute-Ended}

abbrev conflict : Thrown
conflict = native "MongoServerError" "boom" (record {
  printed = "MongoServerError: boom";
  message = some "boom";
  name = some "MongoServerError";
  code = some (number 112);
  labels = none;
  has_key_value = false;
})

-- Two write conflicts, then a value.
abbrev third_time : ℕ → Trial ℕ
third_time n = record { outcome = if ltb n 3 then err conflict else ok 7; random = 2 ^ 52 }

third_time_run :
    execute default_config third_time
    ≡ record { result = ok 7; calls = 3; retried = 1 ∷ 2 ∷ []; delays = 50 ∷ 100 ∷ [] }
unfolding execute loop gives_up is_retryable_error backoff_with_jitter
third_time_run = refl

timeout_is_retried : is_retryable_error (Thrown.string "Socket TIMEOUT") ≡ true
unfolding is_retryable_error
timeout_is_retried = refl

execute-Ended_example : Ended default_config third_time 1 (execute default_config third_time)
execute-Ended_example = execute-Ended default_config third_time (omega arith)

abbrev never : ℕ → Trial ℕ
never n = record { outcome = err conflict; random = 0 }

abbrev refused : ℕ → Trial ℕ
refused n = record { outcome = err (Thrown.string "refused"); random = 0 }

-- The second operation fails, and the third fails before it.
abbrev batch : List (Operation ℕ)
batch =
    record { script = third_time; ends = 150 }
    ∷ record { script = never; ends = 75 }
    ∷ record { script = refused; ends = 1 }
    ∷ []

batch_fails : execute_all fast false batch ≡ rejected (Thrown.string "refused")
unfolding execute_all execute loop gives_up is_retryable_error backoff_with_jitter
batch_fails = refl
