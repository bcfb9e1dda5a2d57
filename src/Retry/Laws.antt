-- ===== src/Retry/Laws.antt =====
-- What `execute` of the retry service promises.
use native.Mathlib.Decide.{dec_le}
use image_app.Common.{
  ℕ, zero, suc, ◌+◌, ◌-◌, ◌≤◌, ◌<◌, max, ◌≡◌, refl, ◌⊎◌, inl, inr, Bool, true, false, not, ◌||◌,
  List, [], ◌∷◌, length, arith, sym, Bool-cases, leb, All,
}
use image_app.Errors.{Thrown, Result, ok, err, Result-cases}
use image_app.UnitOfWork.Backoff.{random_range, backoff_with_jitter, backoff_bounds}
use image_app.Retry.{RetryConfig, decide_retry, gives_up, Trial, Run, loop, execute, exhausted}

-- The result of an attempt before the last: an error that is retried.
abbrev pub Retries : {A : Type 0} → RetryConfig → Result A → Type 0
Retries cfg (ok a) = ⊥
Retries cfg (err e) = decide_retry cfg.should_retry e ≡ true

-- The result of the last attempt: a value, or an error that is not retried or came at the limit.
abbrev pub Stops : {A : Type 0} → RetryConfig → ℕ → Result A → Type 0
Stops cfg n (ok a) = Unit
Stops cfg n (err e) = (decide_retry cfg.should_retry e ≡ false) ⊎ (n ≡ cfg.max_attempts)

-- n, n + 1, …, of length k
abbrev pub from : ℕ → ℕ → List ℕ
from zero n = []
from (suc k) n = n ∷ from k (n + 1)

gives_up-Retries :
    (cfg : RetryConfig) (e : Thrown) (n : ℕ)
    → gives_up cfg e n ≡ false
    → (decide_retry cfg.should_retry e ≡ true) × (n < cfg.max_attempts)
unfolding gives_up
gives_up-Retries cfg e n h = split (decide_retry cfg.should_retry e) h
  where
    split :
        (b : Bool) → (not b || leb cfg.max_attempts n) ≡ false → (b ≡ true) × (n < cfg.max_attempts)
    split b h = ground arith

gives_up-Stops :
    (cfg : RetryConfig) (e : Thrown) (n : ℕ)
    → n ≤ cfg.max_attempts
    → gives_up cfg e n ≡ true
    → (decide_retry cfg.should_retry e ≡ false) ⊎ (n ≡ cfg.max_attempts)
unfolding gives_up
gives_up-Stops cfg e n p h = split (decide_retry cfg.should_retry e) h
  where
    split :
        (b : Bool) → (not b || leb cfg.max_attempts n) ≡ true → (b ≡ false) ⊎ (n ≡ cfg.max_attempts)
    split b h = ground arith

module _ {A : Type 0} (cfg : RetryConfig) (script : ℕ → Trial A) where
  -- A finished loop that began at attempt `n`: it ended with the result of the attempt `last`.
  pub record Ended (n : ℕ) (run : Run A) : Type 0 where
    pub last : ℕ
    pub reached : n ≤ last
    pub within : last ≤ cfg.max_attempts
    pub result : run.result ≡ (script last).outcome
    pub stops : Stops cfg last (script last).outcome
    pub earlier : (m : ℕ) → n ≤ m → m < last → Retries cfg (script m).outcome
    pub calls : run.calls + n ≡ last + 1
    pub retried : run.retried ≡ from (last - n) n
    pub delays : length run.delays + n ≡ last

  loop_ok :
      (rounds n : ℕ) (last : Thrown) (a : A)
      → (script n).outcome ≡ ok a
      → loop cfg script (suc rounds) n last
        ≡ record { result = ok a; calls = 1; retried = []; delays = [] }
  unfolding loop
  loop_ok rounds n last a h = ground arith

  loop_stop :
      (rounds n : ℕ) (last e : Thrown)
      → (script n).outcome ≡ err e
      → gives_up cfg e n ≡ true
      → loop cfg script (suc rounds) n last
        ≡ record { result = err e; calls = 1; retried = []; delays = [] }
  unfolding loop
  loop_stop rounds n last e h g = ground arith

  abbrev after_wait : ℕ → Run A → Run A
  after_wait n rest = record rest {
    calls = rest.calls + 1;
    retried = n ∷ rest.retried;
    delays =
        backoff_with_jitter (script n).random n cfg.base_delay_ms cfg.max_delay_ms ∷ rest.delays;
  }

  loop_retry :
      (rounds n : ℕ) (last e : Thrown)
      → (script n).outcome ≡ err e
      → gives_up cfg e n ≡ false
      → loop cfg script (suc rounds) n last ≡ after_wait n (loop cfg script rounds (n + 1) e)
  unfolding loop
  loop_retry rounds n last e h g = ground arith

  at_once :
      (n : ℕ) (r : Result A)
      → (script n).outcome ≡ r
      → n ≤ cfg.max_attempts
      → Stops cfg n r
      → Ended n (record { result = r; calls = 1; retried = []; delays = [] })
  at_once n r h p stop = record {
    last = n;
    reached = omega arith;
    within = p;
    result = sym h;
    stops = rw h stop;
    earlier = λ m p q. absurd (omega arith);
    calls = omega arith;
    retried = let none_left : n - n ≡ 0 = omega arith in rw none_left refl;
    delays = omega arith;
  }

  Ended-after_wait :
      (n : ℕ) (e : Thrown) (rest : Run A)
      → (script n).outcome ≡ err e
      → decide_retry cfg.should_retry e ≡ true
      → Ended (n + 1) rest
      → Ended n (after_wait n rest)
  Ended-after_wait n e rest h test d = record {
    last = d.last;
    reached = omega (arith, d.reached);
    within = d.within;
    result = d.result;
    stops = d.stops;
    earlier = λ m p q. elim (dec_le (n + 1) m) [
      | yes later ↦ d.earlier m later q
      | no now ↦ let same : n ≡ m = omega arith in rw (← same) (rw h test)
    ];
    calls = omega (arith, d.calls);
    retried =
        let one_more : d.last - n ≡ suc (d.last - (n + 1)) = omega (arith, d.reached) in
        rw (one_more, d.retried) refl;
    delays = omega (arith, d.delays);
  }

  loop-Ended :
      (rounds n : ℕ) (last : Thrown)
      → 0 < rounds
      → n + rounds ≡ cfg.max_attempts + 1
      → Ended n (loop cfg script rounds n last)
  loop-Ended zero n last p q = absurd (omega arith)
  loop-Ended (suc rounds) n last p q = elim (Result-cases (script n).outcome) [
    | inl (a, h) ↦ rw (loop_ok rounds n last a h) (at_once n (ok a) h (omega arith) tt)
    | inr (e, h) ↦ elim (Bool-cases (gives_up cfg e n)) [
      | inl stop ↦
          rw (loop_stop rounds n last e h stop)
            (at_once n (err e) h (omega arith) (gives_up-Stops cfg e n (omega arith) stop))
      | inr again ↦
          let (test, more) = gives_up-Retries cfg e n again in
          rw (loop_retry rounds n last e h again) (
            Ended-after_wait n e _ h test (loop-Ended rounds (n + 1) e (omega arith) (omega arith)))
    ]
  ]

  -- With at least one attempt allowed, `execute` ends with the result of one attempt, at most
  -- `maxAttempts`: every attempt before it threw an error that is retried, and it returned a value,
  -- or threw an error that is not retried or used up the attempts. The operation ran once for each
  -- attempt, `onRetry` was called for all but the last, in order, and each of those was followed by
  -- a delay.
  pub execute-Ended : 0 < cfg.max_attempts → Ended 1 (execute cfg script)
  unfolding execute
  execute-Ended h = loop-Ended cfg.max_attempts 1 exhausted h (omega arith)

-- With no attempt allowed, `execute` runs nothing and throws.
execute-zero :
    {A : Type 0} (cfg : RetryConfig) (script : ℕ → Trial A)
    → cfg.max_attempts ≡ 0
    → execute cfg script ≡ record { result = err exhausted; calls = 0; retried = []; delays = [] }
unfolding execute loop
execute-zero cfg script h = rw h refl

module _ {A : Type 0} (cfg : RetryConfig) (script : ℕ → Trial A)
    (fair : (n : ℕ) → (script n).random < random_range) where
  loop-delays :
      (rounds n : ℕ) (last : Thrown)
      → All (λ d. (10 ≤ d) × (d ≤ max 10 cfg.max_delay_ms)) (loop cfg script rounds n last).delays
  unfolding loop
  loop-delays zero n last = tt
  loop-delays (suc rounds) n last = elim (Result-cases (script n).outcome) [
    | inl (a, h) ↦ rw (loop_ok cfg script rounds n last a h) tt
    | inr (e, h) ↦ elim (Bool-cases (gives_up cfg e n)) [
      | inl stop ↦ rw (loop_stop cfg script rounds n last e h stop) tt
      | inr again ↦
          let b = backoff_bounds (script n).random n cfg.base_delay_ms cfg.max_delay_ms (fair n) in
          rw (loop_retry cfg script rounds n last e h again)
            ((b.0, b.2), loop-delays rounds (n + 1) e)
    ]
  ]

-- Every delay of `execute` lies between 10 ms and the configured maximum (or is 10 ms), if
-- `Math.random` gives values below 1.
execute-delays :
    {A : Type 0} (cfg : RetryConfig) (script : ℕ → Trial A)
    → ((n : ℕ) → (script n).random < random_range)
    → All (λ d. (10 ≤ d) × (d ≤ max 10 cfg.max_delay_ms)) (execute cfg script).delays
unfolding execute
execute-delays cfg script fair = loop-delays cfg script fair cfg.max_attempts 1 exhausted
