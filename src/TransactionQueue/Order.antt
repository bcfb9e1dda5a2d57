-- ===== src/TransactionQueue/Order.antt =====
-- How often jobs are tried, and in which order.
use image_app.Common.{
  ℕ, ◌+◌, ◌≤◌, ◌<◌, max, ◌≡◌, ◌⊎◌, inl, inr, Bool, true, ◌&&◌, some, List, [], ◌∷◌, All, All-append,
  arith, ltb, Bool-cases,
}
use image_app.TransactionQueue.{
  TransactionPriority, QueuedJob, Queues, TransactionQueue, Outcome, commits, throws,
  throws_unqueued, Turn, r_push, settle, attempted, handle_job, process_turn, process_loop, enqueue,
  execute_or_queue, queued, executes,
}
use image_app.TransactionQueue.Laws.{
  pending, is_open, shut_turn, finds_none, handles, process_turn-Round,
}

module _ {payload : Type 0} where
  -- A waiting job is new, or has attempts left.
  abbrev pub MayRun : QueuedJob payload → Type 0
  MayRun job = (job.attempts ≡ 0) ⊎ (job.attempts < job.max_attempts)

  -- A job that was run is within its limit, but for the one attempt that each job gets.
  abbrev pub IsWithin : QueuedJob payload → Type 0
  IsWithin job = job.attempts ≤ max job.max_attempts 1

  Tried : List (QueuedJob payload) × TransactionQueue payload → Type 0
  Tried r = All IsWithin r.0 × All MayRun (pending r.1.queues)

  handle_job-Tried :
      (outcome : Outcome) (p : TransactionPriority) (job : QueuedJob payload)
      (rest : Queues payload) (s : TransactionQueue payload)
      → ((again : QueuedJob payload) → pending (r_push p again rest) ≡ again ∷ pending rest)
      → MayRun job
      → All MayRun (pending rest)
      → Tried (handle_job outcome p job (record s { queues = rest }))
  unfolding Tried handle_job
  handle_job-Tried outcome p job rest s again may ok =
      elim (Bool-cases (s.registered job.job_name)) [
        | inr off ↦ rw off (tt, ok)
        | inl on ↦ rw on ((ground arith, tt), waiting outcome)
      ]
    where
      waiting :
          (o : Outcome)
          → All MayRun (pending (settle o p (attempted job) (record s { queues = rest })).queues)
      waiting commits = unfold settle in ok
      waiting throws =
          unfold settle in
          (elim (Bool-cases (ltb (job.attempts + 1) job.max_attempts)) [
            | inl more ↦ rw more (rw again (inr (ground arith), ok))
            | inr done ↦ rw done ok
          ])
      waiting throws_unqueued =
          unfold settle in
          (elim (Bool-cases (ltb (job.attempts + 1) job.max_attempts)) [
            | inl more ↦ rw more ok
            | inr done ↦ rw done ok
          ])

  process_turn-Tried :
      (turn : Turn) (s : TransactionQueue payload)
      → All MayRun (pending s.queues)
      → Tried (process_turn turn s)
  process_turn-Tried turn s ok = elim (Bool-cases (is_open turn)) [
    | inr shut ↦ rw (shut_turn turn s shut) (unfold Tried in (tt, ok))
    | inl o ↦ elim (process_turn-Round turn s o) [
      | finds_none n e ↦ rw e (unfold Tried in (tt, ok))
      | handles p job rest n again e ↦
          let both = rw n at ok in
          rw e (handle_job-Tried turn.outcome p job rest s again both.0 both.1)
    ]
  ]

  process_loop-Tried :
      (turns : List Turn) (s : TransactionQueue payload)
      → All MayRun (pending s.queues)
      → Tried (process_loop turns s)
  unfolding process_loop Tried
  process_loop-Tried [] s ok = (tt, ok)
  process_loop-Tried (turn ∷ turns) s ok = elim (Bool-cases (s.is_processing && s.has_client)) [
    | inr off ↦ rw off (tt, ok)
    | inl on ↦
        let now = process_turn-Tried turn s ok in
        let later = process_loop-Tried turns (process_turn turn s).1 now.1 in
        rw on (All-append IsWithin _ _ now.0 later.0, later.1)
  ]

  -- If each waiting job is new or has attempts left, then, whatever the rounds bring, no job is run
  -- more often than its limit says, but for the one run that each gets; and a job that still waits is
  -- new or has attempts left.
  process_loop_attempts :
      (turns : List Turn) (s : TransactionQueue payload)
      → All MayRun (pending s.queues)
      → All IsWithin (process_loop turns s).0 × All MayRun (pending (process_loop turns s).1.queues)
  unfolding Tried
  process_loop_attempts turns s ok = process_loop-Tried turns s ok

  -- A job that is offered while the unit of work has few free permits runs later: it is queued, as
  -- `enqueue` does it, whether or not it has a handler. It runs at once only with a handler, at least
  -- five free permits, and a queue that is not above the threshold.
  execute_or_queue_lem :
      (queue_length available_permits threshold : ℕ) (connects : Bool) (job : QueuedJob payload)
      (s : TransactionQueue payload)
      → (available_permits < 5
          → execute_or_queue queue_length available_permits (some threshold) connects job s
            ≡ queued (enqueue connects job s))
        × (execute_or_queue queue_length available_permits (some threshold) connects job s
              ≡ executes
            → (s.registered job.job_name ≡ true)
              × (5 ≤ available_permits)
              × (queue_length ≤ threshold))
  unfolding execute_or_queue
  execute_or_queue_lem queue_length available_permits threshold connects job s =
      (λ few. ground arith, λ now. ground arith)
