-- ===== src/TransactionQueue/Tests.antt =====
-- The queue at three jobs, whose payloads are numbers.
use image_app.Common.{
  ℕ, ◌+◌, ◌≡◌, ◌≢◌, refl, String, true, some, List, [], ◌∷◌, map, length, All, arith,
}
use image_app.TransactionQueue.{
  TransactionPriority, critical, normal, QueuedJob, TransactionQueue, Outcome, commits, throws,
  throws_unqueued, Turn, idle, new_job, register_handler, enqueue, attempted, process_loop, size,
}
use image_app.TransactionQueue.Laws.{pending, IsBalanced, process_loop-IsBalanced}
use image_app.TransactionQueue.Drain.{process_loop_drains}
use image_app.TransactionQueue.Accepted.{enqueue_all, served, process_loop_order}

abbrev job : String → TransactionPriority → QueuedJob ℕ
job id p = new_job id 0 "notify" 7 (record { priority = some p; max_attempts = some 2 })

abbrev fresh : TransactionQueue ℕ
fresh = register_handler "notify" idle

abbrev three : TransactionQueue ℕ
three =
    enqueue true (job "c" critical)
      (enqueue true (job "b" normal) (enqueue true (job "a" normal) fresh))

abbrev turn : Outcome → Turn
turn o = record { available_permits = 9; answers = true; outcome = o }

abbrev busy_turn : Turn
busy_turn = record { available_permits = 2; answers = true; outcome = commits }

abbrev good_turns : List Turn
good_turns = turn commits ∷ busy_turn ∷ turn commits ∷ turn commits ∷ []

abbrev bad_turns : List Turn
bad_turns =
    turn throws
    ∷ turn throws
    ∷ turn commits
    ∷ busy_turn
    ∷ turn throws
    ∷ turn commits
    ∷ turn commits
    ∷ []

fresh-IsBalanced : IsBalanced fresh
unfolding register_handler size
fresh-IsBalanced = refl

-- The critical job fails twice, and is given up.
bad_turns_fail : (process_loop bad_turns three).1.total_failed ≡ 1
unfolding process_loop enqueue register_handler
bad_turns_fail = refl

kept : All (λ (t : Turn). t.outcome ≢ throws_unqueued) bad_turns
kept = (retried, (retried, (done, (done, (retried, (done, (done, tt)))))))
  where
    retried : throws ≢ throws_unqueued
    retried e = cc

    done : commits ≢ throws_unqueued
    done e = cc

process_loop-IsBalanced_example :
    IsBalanced (process_loop bad_turns (enqueue true (job "a" normal) fresh)).1
process_loop-IsBalanced_example =
    process_loop-IsBalanced bad_turns true (job "a" normal) fresh kept fresh-IsBalanced

process_loop_drains_example : size (process_loop bad_turns three).1.queues ≡ 0
unfolding enqueue register_handler
process_loop_drains_example = process_loop_drains bad_turns three refl (ground arith)

-- Two more jobs at a service that runs, with one of normal priority waiting.
abbrev one_waits : TransactionQueue ℕ
one_waits = enqueue true (job "a" normal) fresh

abbrev two_more : List (QueuedJob ℕ)
two_more = job "b" normal ∷ job "c" critical ∷ []

process_loop_order_example :
    ((process_loop good_turns (enqueue_all true two_more one_waits)).0
      ≡ map attempted (served one_waits.queues two_more))
    × (pending (process_loop good_turns (enqueue_all true two_more one_waits)).1.queues ≡ [])
    × ((process_loop good_turns (enqueue_all true two_more one_waits)).1.total_processed
        ≡ one_waits.total_processed + length (served one_waits.queues two_more))
unfolding enqueue register_handler
process_loop_order_example =
    process_loop_order true two_more good_turns one_waits refl refl
      (refl, (refl, (refl, (refl, tt)))) (refl, (refl, (refl, tt))) (ground arith)
