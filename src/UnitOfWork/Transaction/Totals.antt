-- ===== src/UnitOfWork/Transaction/Totals.antt =====
-- How many attempts a call makes, and what the counters say after it.
use native.Mathlib.Decide.{dec_le}
use image_app.Common.{
  ℕ, zero, suc, ◌+◌, ◌-◌, ◌≤◌, ◌<◌, max, ◌≡◌, inl, inr, Option, none, some, [], arith, Bool-cases,
  sym, ◌∙◌,
}
use image_app.Errors.{Result, ok, err, Result-cases}
use image_app.EventBus.{flush_transactional_queue}
use image_app.UnitOfWork.Transaction.{
  TransactionConfig, Attempt, Counters, State, succeed, wait_to_retry, fail, should_retry,
  begin_attempt, attempts, released, run_granted,
}
use image_app.UnitOfWork.Transaction.Steps.{attempts_ok, attempts_retry, attempts_fail}
use image_app.UnitOfWork.Transaction.Events.{Retries, Ended, should_retry→lt, run_granted-Ended}

Retries→lt :
    {A : Type 0} (cfg : TransactionConfig) (n : ℕ) (r : Result A)
    → Retries cfg n r
    → n < cfg.max_attempts
Retries→lt cfg n (ok a) h = elim h [ ]
Retries→lt cfg n (err e) h = should_retry→lt cfg e n h

some_state :
    {A S : Type 0} {a b : A} {s t : S}
    → ◌≡◌ {A = Option (A × S)} (some (a, s)) (some (b, t))
    → s ≡ t
some_state h = ground arith

module _ {Event Handler A : Type 0} (cfg : TransactionConfig)
    (script : ℕ → Attempt Event Handler A) where
  last-le :
      (s s' : State Event Handler) (r : Result A)
      → (d : Ended cfg script 1 s r s') → d.last ≤ max 1 cfg.max_attempts
  last-le s s' r d = elim (dec_le d.last 1) [
    | yes one ↦ omega arith
    | no more ↦
        let again =
          Retries→lt cfg (d.last - 1) (script (d.last - 1)).outcome
            (d.earlier (d.last - 1) (omega arith) (omega arith)) in
        omega arith
  ]

  -- A call makes at least one attempt, and at most `maxAttempts` of them (one if that is 0).
  run_granted_attempts :
      (s s' : State Event Handler) (r : Result A)
      → s.bus.transactional_queue ≡ []
      → run_granted cfg script s ≡ some (r, s')
      → (s.counters.total_attempts + 1 ≤ s'.counters.total_attempts)
        × (s'.counters.total_attempts ≤ s.counters.total_attempts + max 1 cfg.max_attempts)
  run_granted_attempts s s' r empty h =
      let (r', t, run, d) = run_granted-Ended cfg script s empty in
      let most = last-le s t r' d in ground (arith, d.counted, d.reached)

-- What holds of the counters while a call that has made `k` attempts is still running: those are
-- counted in the total only.
pub record Counted (k : ℕ) (c : Counters) : Type 0 where
  pub retried : c.retried_transactions ≤ c.successful_transactions
  pub retries : c.retried_transactions ≤ c.total_retries
  pub sum :
      c.successful_transactions + c.failed_transactions + c.total_retries + k ≤ c.total_attempts

abbrev pub IsConsistent : Counters → Type 0
IsConsistent = Counted 0

module _ {Event Handler A : Type 0} (cfg : TransactionConfig)
    (script : ℕ → Attempt Event Handler A) where
  module _ (k : ℕ) (s : State Event Handler) (v : Counted k s.counters) where
    Counted-succeed :
        (a : Attempt Event Handler A) → Counted 0 (succeed (k + 1) (begin_attempt a s)).counters
    unfolding succeed begin_attempt flush_transactional_queue
    Counted-succeed a = ground (arith, v.retried, v.retries, v.sum)

    Counted-fail : (a : Attempt Event Handler A) → Counted 0 (fail (begin_attempt a s)).counters
    unfolding fail begin_attempt
    Counted-fail a = ground (arith, v.retried, v.retries, v.sum)

    Counted-retry :
        (a : Attempt Event Handler A) (random n : ℕ)
        → Counted (k + 1) (wait_to_retry cfg random n (begin_attempt a s)).counters
    unfolding wait_to_retry begin_attempt
    Counted-retry a random n = ground (arith, v.retried, v.retries, v.sum)

  attempts-Counted :
      (fuel k : ℕ) (s s' : State Event Handler) (r : Result A)
      → Counted k s.counters
      → attempts cfg fuel script (k + 1) s ≡ some (r, s')
      → Counted 0 s'.counters
  unfolding attempts
  attempts-Counted zero k s s' r v h = cc
  attempts-Counted (suc fuel) k s s' r v h = elim (Result-cases (script (k + 1)).outcome) [
    | inl (a, o) ↦
        let e = sym (attempts_ok cfg fuel script (k + 1) s a o) ∙ h in
        rw (← some_state e) (Counted-succeed k s v (script (k + 1)))
    | inr (x, o) ↦ elim (Bool-cases (should_retry cfg x (k + 1))) [
      | inl again ↦
          let e = sym (attempts_retry cfg fuel script (k + 1) s x o again) ∙ h in
          attempts-Counted fuel (k + 1) _ s' r
            (Counted-retry k s v (script (k + 1)) (script (k + 1)).random (k + 1)) e
      | inr stop ↦
          let e = sym (attempts_fail cfg fuel script (k + 1) s x o stop) ∙ h in
          rw (← some_state e) (Counted-fail k s v (script (k + 1)))
    ]
  ]

  released-eq-some :
      (o : Option (Result A × State Event Handler)) (r : Result A) (s' : State Event Handler)
      → released o ≡ some (r, s')
      → (t : State Event Handler) × (o ≡ some (r, t)) × (t.counters ≡ s'.counters)
  released-eq-some none r s' h = cc
  released-eq-some (some (q, t)) r s' h = (t, ground arith, ground arith)

  -- Every call keeps the counters consistent: a retried transaction is a successful one and has
  -- at least one retry, and every success, failure and counted retry is an attempt of its own.
  pub run_granted-IsConsistent :
      (s s' : State Event Handler) (r : Result A)
      → IsConsistent s.counters
      → run_granted cfg script s ≡ some (r, s')
      → IsConsistent s'.counters
  unfolding run_granted
  run_granted-IsConsistent s s' r v h =
      let (t, run, same) = released-eq-some _ r s' h in
      rw (← same) (attempts-Counted (cfg.max_attempts + 1) 0 s t r v run)
