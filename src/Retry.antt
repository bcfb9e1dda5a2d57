-- ===== src/Retry.antt =====
-- backend/src/services/retry.service.ts: operations that are tried again after transient errors.
pub mod Laws
pub mod Batches
mod Tests
use image_app.Common.{
  ℕ, zero, suc, ◌+◌, Bool, true, false, ◌&&◌, ◌||◌, not, Option, none, some, List, [], ◌∷◌, ◌++◌,
  any, ltb, leb, ◌==◌, String, if◌then◌else◌,
}
use image_app.Common.Text.{codes, lower, includes}
use image_app.Errors.{
  Result, ok, err, Thrown, native, Props, Code, number, text, other, get_error_code,
  get_error_message,
}
use image_app.UnitOfWork.Backoff.{backoff_with_jitter}

-- `RetryConfig`, merged over the defaults; without `shouldRetry` the service's own test decides.
pub record RetryConfig : Type 0 where
  pub max_attempts : ℕ
  pub base_delay_ms : ℕ
  pub max_delay_ms : ℕ
  pub should_retry : Option (Thrown → Bool)

abbrev pub default_config : RetryConfig
default_config = record {
  max_attempts = 5;
  base_delay_ms = 100;
  max_delay_ms = 10000;
  should_retry = none;
}

abbrev pub retryable_codes : List ℕ
retryable_codes = 112 ∷ 11600 ∷ 11602 ∷ 189 ∷ 91 ∷ 10107 ∷ 13435 ∷ 64 ∷ 11000 ∷ []

abbrev pub retryable_messages : List String
retryable_messages =
    "econnreset" ∷ "econnrefused" ∷ "etimedout" ∷ "socket hang up" ∷ "network error" ∷ "connection"
    ∷ "write conflict" ∷ "please retry" ∷ "timeout" ∷ "busy" ∷ []

abbrev has_code : Option Code → List ℕ → Bool
has_code (some (number n)) ns = any (λ m. n == m) ns
has_code _ ns = false

abbrev mentions : List String → String → Bool
mentions needles message = let m = lower (codes message) in any (λ n. includes m (codes n)) needles

unfoldable pub is_retryable_error : Thrown → Bool
unfolding get_error_code get_error_message
is_retryable_error error =
    if has_code (get_error_code error) retryable_codes
    then true
    else mentions retryable_messages (get_error_message error)

abbrev pub decide_retry : Option (Thrown → Bool) → Thrown → Bool
decide_retry none error = is_retryable_error error
decide_retry (some test) error = test error

-- One call of the operation, and what `Math.random` gives for the delay after it.
pub record Trial (A : Type 0) : Type 0 where
  pub outcome : Result A
  pub random : ℕ

-- A finished call of `execute`: its result, how often it ran the operation, the attempts for which
-- it called `onRetry`, and the delays that it waited.
pub record Run (A : Type 0) : Type 0 where
  pub result : Result A
  pub calls : ℕ
  pub retried : List ℕ
  pub delays : List ℕ

-- What the loop throws if it makes no round: `maxAttempts` is 0.
abbrev pub exhausted : Thrown
exhausted = native "Error" "Retry exhausted without error" (record {
  printed = "Error: Retry exhausted without error";
  message = some "Retry exhausted without error";
  name = some "Error";
  code = none;
  labels = none;
  has_key_value = false;
})

-- `!shouldRetry || attempt >= cfg.maxAttempts`
unfoldable pub gives_up : RetryConfig → Thrown → ℕ → Bool
gives_up cfg error attempt =
    not (decide_retry cfg.should_retry error) || leb cfg.max_attempts attempt

module _ {A : Type 0} (cfg : RetryConfig) (script : ℕ → Trial A) where
  -- One round more, before those of the rest of the loop.
  abbrev after_wait : ℕ → Run A → Run A
  after_wait attempt rest = record rest {
    calls = rest.calls + 1;
    retried = attempt ∷ rest.retried;
    delays =
        backoff_with_jitter (script attempt).random attempt cfg.base_delay_ms cfg.max_delay_ms
        ∷ rest.delays;
  }

  -- The loop `for (attempt …; attempt <= maxAttempts; attempt++)`, with `rounds` rounds left;
  -- `last` is what it throws when none is left.
  unfoldable pub loop : ℕ → ℕ → Thrown → Run A
  loop zero attempt last = record { result = err last; calls = 0; retried = []; delays = [] }
  loop (suc rounds) attempt last = elim ((script attempt).outcome) [
    | ok a ↦ record { result = ok a; calls = 1; retried = []; delays = [] }
    | err error ↦ elim (gives_up cfg error attempt) [
      | true ↦ record { result = err error; calls = 1; retried = []; delays = [] }
      | false ↦ after_wait attempt (loop rounds (attempt + 1) error)
    ]
  ]

  -- `execute`; `script n` is what the operation does when it is run for the attempt n.
  unfoldable pub execute : Run A
  execute = loop cfg.max_attempts 1 exhausted

-- An operation of a batch. `ends` is when its `execute` settles: operations that settle at the same time
-- do so in the order of the batch.
pub record Operation (A : Type 0) : Type 0 where
  pub script : ℕ → Trial A
  pub ends : ℕ

-- The promise of `executeAll`: one result for each operation, or the reason of a rejection.
pub data Batch (A : Type 0) : Type 0 where
  fulfilled : List (Result A) → Batch A
  rejected : Thrown → Batch A

-- The rejection that is first in time, and when it comes.
abbrev pub sooner : ℕ → Thrown → Option (ℕ × Thrown) → Option (ℕ × Thrown)
sooner t e none = some (t, e)
sooner t e (some (u, f)) = if leb t u then some (t, e) else some (u, f)

module _ {A : Type 0} where
  abbrev pub sooner_of : ℕ → Result A → Option (ℕ × Thrown) → Option (ℕ × Thrown)
  sooner_of t (ok a) rest = rest
  sooner_of t (err e) rest = sooner t e rest

  abbrev pub first_rejection : RetryConfig → List (Operation A) → Option (ℕ × Thrown)
  first_rejection cfg [] = none
  first_rejection cfg (op ∷ ops) =
      sooner_of op.ends (execute cfg op.script).result (first_rejection cfg ops)

  abbrev pub results : RetryConfig → List (Operation A) → List (Result A)
  results cfg [] = []
  results cfg (op ∷ ops) = (execute cfg op.script).result ∷ results cfg ops

  abbrev pub promise_all : List (Result A) → Option (ℕ × Thrown) → Batch A
  promise_all rs none = fulfilled rs
  promise_all rs (some (t, e)) = rejected e

  -- `executeAll`: with `continueOnError` no operation rejects.
  unfoldable pub execute_all : RetryConfig → Bool → List (Operation A) → Batch A
  execute_all cfg continue_on_error ops =
      promise_all (results cfg ops) (if continue_on_error then none else first_rejection cfg ops)

-- `RetryPresets`
abbrev preset : ℕ → ℕ → ℕ → RetryConfig
preset max_attempts base max_ms = record {
  max_attempts = max_attempts;
  base_delay_ms = base;
  max_delay_ms = max_ms;
  should_retry = none;
}

abbrev pub database : RetryConfig
database = preset 5 50 5000

abbrev pub external_api : RetryConfig
external_api = preset 3 500 15000

abbrev pub critical : RetryConfig
critical = preset 10 100 30000

abbrev pub fast : RetryConfig
fast = preset 3 25 500
