-- ===== src/UnitOfWork/Transaction/Events.antt =====
-- The events of a transaction: handled after the commit, and only then.
use mathlib.Core.List.{append-nil}
use native.Mathlib.Decide.{dec_le}
use image_app.Common.{
  ℕ, zero, suc, ◌+◌, ◌≤◌, ◌<◌, ◌≡◌, refl, inl, inr, true, false, some, List, [], ◌++◌, arith,
  Bool-cases, ap, ◌∙◌,
}
use image_app.Errors.{Thrown, Result, ok, err, Result-cases}
use image_app.EventBus.{EventBus, flush_transactional_queue, clear_transactional_queue}
use image_app.UnitOfWork.Semaphore.{release}
use image_app.UnitOfWork.Transaction.{
  TransactionConfig, Attempt, State, succeed, wait_to_retry, fail, should_retry, begin_attempt,
  attempts, run_granted,
}
use image_app.UnitOfWork.Transaction.Steps.{
  all_events, queue_runs_lem, attempts_ok, attempts_retry, attempts_fail,
}

abbrev pub Stops : {A : Type 0} → TransactionConfig → ℕ → Result A → Type 0
Stops cfg n (ok a) = Unit
Stops cfg n (err e) = should_retry cfg e n ≡ false

abbrev pub Retries : {A : Type 0} → TransactionConfig → ℕ → Result A → Type 0
Retries cfg n (ok a) = ⊥
Retries cfg n (err e) = should_retry cfg e n ≡ true

module _ {Event Handler A : Type 0} where
  -- The events that a call with this result hands to their handlers.
  abbrev pub handled_by : Result A → Attempt Event Handler A → List (Event × Handler)
  handled_by (ok a) attempt = all_events attempt.runs
  handled_by (err e) attempt = []

  -- What a call has done that began at attempt `n` of the state `s` and ended with `r` and `s'`:
  -- the attempt `last` gave `r` and asked for no further one, all earlier ones asked for one; the
  -- events of `last` alone were handed over, none if it failed; the bus is as it was.
  pub record Ended (cfg : TransactionConfig) (script : ℕ → Attempt Event Handler A) (n : ℕ)
      (s : State Event Handler) (r : Result A) (s' : State Event Handler) : Type 0 where
    pub last : ℕ
    pub reached : n ≤ last
    pub decided : (script last).outcome ≡ r
    pub stops : Stops cfg last r
    pub earlier : (m : ℕ) → n ≤ m → m < last → Retries cfg m (script m).outcome
    pub started : s'.started ≡ s.started ++ handled_by r (script last)
    pub bus : s'.bus ≡ s.bus
    pub semaphore : s'.semaphore ≡ s.semaphore
    pub counted : s'.counters.total_attempts + n ≡ s.counters.total_attempts + last + 1

pub should_retry→lt :
    (cfg : TransactionConfig) (e : Thrown) (n : ℕ)
    → should_retry cfg e n ≡ true
    → n < cfg.max_attempts
unfolding should_retry
should_retry→lt cfg e n h = ground arith

module _ {Event Handler A : Type 0} (cfg : TransactionConfig) (script : ℕ → Attempt Event Handler A)
    (n : ℕ) (s : State Event Handler) (empty : s.bus.transactional_queue ≡ []) where
  Ended-ok :
      (a : A)
      → (script n).outcome ≡ ok a
      → Ended cfg script n s (ok a) (succeed n (begin_attempt (script n) s))
  unfolding succeed begin_attempt flush_transactional_queue
  Ended-ok a h = record {
    last = n;
    reached = omega arith;
    decided = h;
    stops = tt;
    earlier = λ m p q. absurd (omega arith);
    started = ground (arith, queue_runs_lem (script n).runs s.bus);
    bus = ground (arith, queue_runs_lem (script n).runs s.bus);
    semaphore = refl;
    counted = ground arith;
  }

  Ended-fail :
      (e : Thrown)
      → (script n).outcome ≡ err e
      → should_retry cfg e n ≡ false
      → Ended cfg script n s (err e) (fail (begin_attempt (script n) s))
  unfolding fail begin_attempt clear_transactional_queue
  Ended-fail e h stop = record {
    last = n;
    reached = omega arith;
    decided = h;
    stops = stop;
    earlier = λ m p q. absurd (omega arith);
    started = rw append-nil;
    bus = ground (arith, queue_runs_lem (script n).runs s.bus);
    semaphore = refl;
    counted = omega arith;
  }

  abbrev next : State Event Handler
  next = wait_to_retry cfg (script n).random n (begin_attempt (script n) s)

  next-bus : next.bus ≡ s.bus
  unfolding wait_to_retry begin_attempt clear_transactional_queue
  next-bus = ground (arith, queue_runs_lem (script n).runs s.bus)

  Ended-retry :
      (e : Thrown) (r : Result A) (s' : State Event Handler)
      → (script n).outcome ≡ err e
      → should_retry cfg e n ≡ true
      → Ended cfg script (n + 1) next r s'
      → Ended cfg script n s r s'
  unfolding wait_to_retry begin_attempt
  Ended-retry e r s' h again d = record {
    last = d.last;
    reached = omega (arith, d.reached);
    decided = d.decided;
    stops = d.stops;
    earlier = λ m p q. elim (dec_le (n + 1) m) [
      | yes later ↦ d.earlier m later q
      | no now ↦ let same : n ≡ m = omega arith in rw (← same) (rw h again)
    ];
    started = d.started;
    bus = d.bus ∙ next-bus;
    semaphore = d.semaphore;
    counted = omega (arith, d.counted);
  }

module _ {Event Handler A : Type 0} (cfg : TransactionConfig)
    (script : ℕ → Attempt Event Handler A) where
  attempts-Ended :
      (fuel n : ℕ) (s : State Event Handler)
      → 0 < fuel
      → cfg.max_attempts < fuel + n
      → s.bus.transactional_queue ≡ []
      → (r : Result A) × (s' : State Event Handler) × (attempts cfg fuel script n s ≡ some (r, s'))
        × Ended cfg script n s r s'
  attempts-Ended zero n s p q empty = absurd (omega arith)
  attempts-Ended (suc fuel) n s p q empty = elim (Result-cases (script n).outcome) [
    | inl (a, h) ↦ (ok a, _, attempts_ok cfg fuel script n s a h, Ended-ok cfg script n s empty a h)
    | inr (e, h) ↦ elim (Bool-cases (should_retry cfg e n)) [
      | inl again ↦
          let more : n < cfg.max_attempts = should_retry→lt cfg e n again in
          let (r, s', run, d) =
            attempts-Ended fuel (n + 1) (next cfg script n s empty) (omega arith) (omega arith) (
              ap (λ (b : EventBus Event Handler). b.transactional_queue)
                (next-bus cfg script n s empty)
              ∙ empty) in
          (
            r,
            s',
            attempts_retry cfg fuel script n s e h again ∙ run,
            Ended-retry cfg script n s empty e r s' h again d,
          )
      | inr stop ↦ (
        err e,
        _,
        attempts_fail cfg fuel script n s e h stop,
        Ended-fail cfg script n s empty e h stop,
      )
    ]
  ]

  -- A call that has its permit, on an empty queue, always ends, with a result that one attempt
  -- `last` gives: that attempt returned, or threw an error that is not retried, and every attempt
  -- before it threw an error that is. Exactly the events that `last` has queued were handed to
  -- their handlers, none if it failed; the queue is empty again, each attempt is counted, and the
  -- permit is released.
  pub run_granted-Ended :
      (s : State Event Handler)
      → s.bus.transactional_queue ≡ []
      → (r : Result A) × (s' : State Event Handler) × (run_granted cfg script s
          ≡ some (r, record s' { semaphore = (release s.semaphore).0 }))
        × Ended cfg script 1 s r s'
  unfolding run_granted
  run_granted-Ended s empty =
      let (r, s', run, d) =
        attempts-Ended (cfg.max_attempts + 1) 1 s (omega arith) (omega arith) empty in
      (r, s', rw (run, d.semaphore) refl, d)
