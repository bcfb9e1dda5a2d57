-- ===== src/TransactionQueue/Laws.antt =====
-- The waiting jobs as one list, and the sums over it that every call of the service keeps.
use image_app.Common.{
  suc, ◌+◌, ◌≡◌, ◌≢◌, refl, ap, ◌∙◌, inl, inr, Bool, true, false, ◌&&◌, none, some, List, [], ◌∷◌,
  ◌++◌, length, length-append, All, arith, ltb, Bool-cases, if◌then◌else◌,
}
use image_app.TransactionQueue.{
  TransactionPriority, critical, high, normal, low, QueuedJob, Queues, TransactionQueue, Outcome,
  throws_unqueued, Turn, l_push, r_push, br_pop, start_processing, enqueue, settle, attempted,
  handle_job, process_popped, process_turn, process_loop, size,
}

-- The unit of work has permits to spare, and Redis answers.
abbrev pub is_open : Turn → Bool
is_open turn = if ltb turn.available_permits 5 then false else turn.answers

module _ {payload : Type 0} where
  -- All waiting jobs, in the order in which they are popped.
  abbrev pub pending : Queues payload → List (QueuedJob payload)
  pending q = q.critical_jobs ++ (q.high_jobs ++ (q.normal_jobs ++ q.low_jobs))

  pub size-pending : (q : Queues payload) → size q ≡ length (pending q)
  unfolding size
  size-pending q = ground (
    arith,
    length-append q.critical_jobs (q.high_jobs ++ (q.normal_jobs ++ q.low_jobs)),
    length-append q.high_jobs (q.normal_jobs ++ q.low_jobs),
    length-append q.normal_jobs q.low_jobs,
  )

  -- What `brPop` answers: nothing, from empty lists, or the first of the waiting jobs, which goes
  -- back to its place when it is pushed to the right end.
  pub data Popped (q : Queues payload) : Type 0 where
    nothing : br_pop q ≡ none → pending q ≡ [] → Popped q
    first :
        (p : TransactionPriority) (job : QueuedJob payload) (rest : Queues payload)
        → br_pop q ≡ some (p, job, rest)
        → pending q ≡ job ∷ pending rest
        → ((again : QueuedJob payload) → pending (r_push p again rest) ≡ again ∷ pending rest)
        → Popped q

  popped :
      (c h n l : List (QueuedJob payload))
      → Popped (record { critical_jobs = c; high_jobs = h; normal_jobs = n; low_jobs = l })
  unfolding br_pop
  popped [] [] [] [] = nothing refl refl
  popped [] [] [] (j ∷ js) = first low j _ refl refl (λ again. refl)
  popped [] [] (j ∷ js) l = first normal j _ refl refl (λ again. refl)
  popped [] (j ∷ js) n l = first high j _ refl refl (λ again. refl)
  popped (j ∷ js) h n l = first critical j _ refl refl (λ again. refl)

  pub br_pop-Popped : (q : Queues payload) → Popped q
  br_pop-Popped q = popped q.critical_jobs q.high_jobs q.normal_jobs q.low_jobs

  -- A round that is free to take a job finds none, or pops a job and handles it.
  pub data Round (turn : Turn) (s : TransactionQueue payload) : Type 0 where
    finds_none : pending s.queues ≡ [] → process_turn turn s ≡ ([], s) → Round turn s
    handles :
        (p : TransactionPriority) (job : QueuedJob payload) (rest : Queues payload)
        → pending s.queues ≡ job ∷ pending rest
        → ((again : QueuedJob payload) → pending (r_push p again rest) ≡ again ∷ pending rest)
        → process_turn turn s ≡ handle_job turn.outcome p job (record s { queues = rest })
        → Round turn s

  pub open_turn :
      (turn : Turn) (s : TransactionQueue payload)
      → is_open turn ≡ true
      → process_turn turn s ≡ process_popped turn.outcome (br_pop s.queues) s
  unfolding process_turn
  open_turn turn s h = ground arith

  pub shut_turn :
      (turn : Turn) (s : TransactionQueue payload)
      → is_open turn ≡ false
      → process_turn turn s ≡ ([], s)
  unfolding process_turn
  shut_turn turn s h = ground arith

  pub process_turn-Round :
      (turn : Turn) (s : TransactionQueue payload) → is_open turn ≡ true → Round turn s
  process_turn-Round turn s o = elim (br_pop-Popped s.queues) [
    | nothing e n ↦ finds_none n (open_turn turn s o ∙ (rw e (unfold process_popped in refl)))
    | first p job rest e n again ↦
        handles p job rest n again (open_turn turn s o ∙ (rw e (unfold process_popped in refl)))
  ]

  -- Every job that was accepted has been processed, has failed, or still waits.
  abbrev pub IsBalanced : TransactionQueue payload → Type 0
  IsBalanced s = s.total_enqueued ≡ s.total_processed + s.total_failed + size s.queues

  handle_job-IsBalanced :
      (outcome : Outcome) (p : TransactionPriority) (job : QueuedJob payload)
      (rest : Queues payload) (s : TransactionQueue payload)
      → outcome ≢ throws_unqueued
      → pending s.queues ≡ job ∷ pending rest
      → ((again : QueuedJob payload) → pending (r_push p again rest) ≡ again ∷ pending rest)
      → IsBalanced s
      → IsBalanced (handle_job outcome p job (record s { queues = rest })).1
  unfolding handle_job settle
  handle_job-IsBalanced outcome p job rest s kept n again v = ground (
    arith,
    again (attempted job),
    size-pending s.queues,
    size-pending rest,
    size-pending (r_push p (attempted job) rest),
    ap (λ (js : List (QueuedJob payload)). length js) n,
    ap (λ (js : List (QueuedJob payload)). length js) (again (attempted job)),
  )

  process_turn-IsBalanced :
      (turn : Turn) (s : TransactionQueue payload)
      → turn.outcome ≢ throws_unqueued
      → IsBalanced s
      → IsBalanced (process_turn turn s).1
  process_turn-IsBalanced turn s kept v = elim (Bool-cases (is_open turn)) [
    | inr shut ↦ rw (shut_turn turn s shut) v
    | inl o ↦ elim (process_turn-Round turn s o) [
      | finds_none n e ↦ rw e v
      | handles p job rest n again e ↦
          rw e (handle_job-IsBalanced turn.outcome p job rest s kept n again v)
    ]
  ]

  size-l_push :
      (p : TransactionPriority) (job : QueuedJob payload) (q : Queues payload)
      → size (l_push p job q) ≡ suc (size q)
  unfolding size
  size-l_push critical job q = ground (arith, length-append q.critical_jobs (job ∷ []))
  size-l_push high job q = ground (arith, length-append q.high_jobs (job ∷ []))
  size-l_push normal job q = ground (arith, length-append q.normal_jobs (job ∷ []))
  size-l_push low job q = ground (arith, length-append q.low_jobs (job ∷ []))

  start_processing-IsBalanced :
      (connects : Bool) (s : TransactionQueue payload)
      → IsBalanced s
      → IsBalanced (start_processing connects s)
  unfolding start_processing
  start_processing-IsBalanced connects s v = elim (Bool-cases s.is_processing) [
    | inl on ↦ rw on v
    | inr off ↦ rw off v
  ]

  enqueue-IsBalanced :
      (connects : Bool) (job : QueuedJob payload) (s : TransactionQueue payload)
      → IsBalanced s
      → IsBalanced (enqueue connects job s)
  unfolding enqueue
  enqueue-IsBalanced connects job s v =
      start_processing-IsBalanced connects
        (record s {
          queues = l_push job.priority job s.queues;
          total_enqueued = s.total_enqueued + 1;
        })
        (omega (arith, v, size-l_push job.priority job s.queues))

  rounds-IsBalanced :
      (turns : List Turn) (s : TransactionQueue payload)
      → All (λ (t : Turn). t.outcome ≢ throws_unqueued) turns
      → IsBalanced s
      → IsBalanced (process_loop turns s).1
  unfolding process_loop
  rounds-IsBalanced [] s kept v = v
  rounds-IsBalanced (turn ∷ turns) s kept v = elim (Bool-cases (s.is_processing && s.has_client)) [
    | inr off ↦ rw off v
    | inl on ↦ rw on (
        rounds-IsBalanced turns (process_turn turn s).1 kept.1
          (process_turn-IsBalanced turn s kept.0 v))
  ]

  -- `enqueue` and the rounds of `processLoop` keep the count: every accepted job has been processed,
  -- has failed, or still waits. The condition on the rounds is that a job that is to be tried again
  -- can be pushed.
  pub process_loop-IsBalanced :
      (turns : List Turn) (connects : Bool) (job : QueuedJob payload) (s : TransactionQueue payload)
      → All (λ (t : Turn). t.outcome ≢ throws_unqueued) turns
      → IsBalanced s
      → IsBalanced (process_loop turns (enqueue connects job s)).1
  process_loop-IsBalanced turns connects job s kept v =
      rounds-IsBalanced turns (enqueue connects job s) kept (enqueue-IsBalanced connects job s v)
