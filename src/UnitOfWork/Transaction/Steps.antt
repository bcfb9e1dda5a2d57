-- ===== src/UnitOfWork/Transaction/Steps.antt =====
-- One round of the retry loop of `executeInTransaction`, and the queue of events across it.
use mathlib.Core.List.{append-nil, append_assoc}
use image_app.Common.{ℕ, suc, ◌+◌, ◌≡◌, true, false, some, List, [], ◌∷◌, ◌++◌, arith}
use image_app.Errors.{Thrown, ok, err}
use image_app.EventBus.{EventBus, queue_transactional}
use image_app.UnitOfWork.Transaction.{
  TransactionConfig, Attempt, State, queue_all, queue_runs, succeed, wait_to_retry, fail,
  should_retry, begin_attempt, attempts,
}

abbrev pub all_events : {X : Type 0} → List (List X) → List X
all_events [] = []
all_events (run ∷ runs) = run ++ all_events runs

module _ {Event Handler : Type 0} where
  abbrev pub with_queue : EventBus Event Handler → List (Event × Handler) → EventBus Event Handler
  with_queue bus q = record bus { transactional_queue = q }

  queue_all_lem :
      (events : List (Event × Handler)) (bus : EventBus Event Handler)
      → queue_all events bus ≡ with_queue bus (bus.transactional_queue ++ events)
  unfolding queue_all
  queue_all_lem [] bus = rw append-nil
  queue_all_lem ((e, h) ∷ events) bus =
      rw (queue_all_lem events (queue_transactional e h bus))
        (unfold queue_transactional in rw append_assoc)

  pub queue_runs_lem :
      (runs : List (List (Event × Handler))) (bus : EventBus Event Handler)
      → queue_runs runs bus ≡ with_queue bus (bus.transactional_queue ++ all_events runs)
  unfolding queue_runs
  queue_runs_lem [] bus = rw append-nil
  queue_runs_lem (run ∷ runs) bus =
      rw (queue_runs_lem runs (queue_all run bus)) (rw (queue_all_lem run bus) (rw append_assoc))

module _ {Event Handler A : Type 0} (cfg : TransactionConfig) (fuel : ℕ)
    (script : ℕ → Attempt Event Handler A) (n : ℕ) (s : State Event Handler) where
  pub attempts_ok :
      (a : A)
      → (script n).outcome ≡ ok a
      → attempts cfg (suc fuel) script n s ≡ some (ok a, succeed n (begin_attempt (script n) s))
  unfolding attempts
  attempts_ok a h = ground arith

  pub attempts_retry :
      (e : Thrown)
      → (script n).outcome ≡ err e
      → should_retry cfg e n ≡ true
      → attempts cfg (suc fuel) script n s
        ≡ attempts cfg fuel script
            (n + 1)
            (wait_to_retry cfg (script n).random n (begin_attempt (script n) s))
  unfolding attempts
  attempts_retry e h r = ground arith

  pub attempts_fail :
      (e : Thrown)
      → (script n).outcome ≡ err e
      → should_retry cfg e n ≡ false
      → attempts cfg (suc fuel) script n s ≡ some (err e, fail (begin_attempt (script n) s))
  unfolding attempts
  attempts_fail e h r = ground arith
