-- ===== src/TransactionQueue/Accepted.antt =====
-- In which order jobs that are enqueued one after the other are run.
use image_app.Common.{
  ◌≡◌, refl, ap, ◌∙◌, sym, ◌+◌, ◌≤◌, Bool, true, false, List, [], ◌∷◌, ◌++◌, map, length, All,
  Bool-cases, inl, inr, if◌then◌else◌,
}
use mathlib.Core.Path.{subst}
use mathlib.Core.List.{append-nil, append_assoc}
use image_app.TransactionQueue.{
  TransactionPriority, critical, high, normal, low, QueuedJob, Queues, TransactionQueue, commits,
  Turn, queue_of, l_push, attempted, process_loop, enqueue,
}
use image_app.TransactionQueue.Laws.{pending}
use image_app.TransactionQueue.Drain.{open_turns, AllRegistered, runs_all}

abbrev pub same_priority : TransactionPriority → TransactionPriority → Bool
same_priority critical critical = true
same_priority high high = true
same_priority normal normal = true
same_priority low low = true
same_priority _ _ = false

module _ {payload : Type 0} where
  -- `enqueue` of one job after the other.
  abbrev pub enqueue_all :
      Bool → List (QueuedJob payload) → TransactionQueue payload → TransactionQueue payload
  enqueue_all connects [] s = s
  enqueue_all connects (job ∷ jobs) s = enqueue_all connects jobs (enqueue connects job s)

  -- The jobs of one priority, in the order of the list.
  abbrev pub of_priority : TransactionPriority → List (QueuedJob payload) → List (QueuedJob payload)
  of_priority p [] = []
  of_priority p (job ∷ jobs) =
      if same_priority job.priority p then job ∷ of_priority p jobs else of_priority p jobs

  -- The jobs that wait with one priority, and then those that are accepted with it.
  abbrev pub served_with :
      TransactionPriority → Queues payload → List (QueuedJob payload) → List (QueuedJob payload)
  served_with p q jobs = queue_of p q ++ of_priority p jobs

  abbrev pub served : Queues payload → List (QueuedJob payload) → List (QueuedJob payload)
  served q jobs =
      served_with critical q jobs
      ++ (served_with high q jobs ++ (served_with normal q jobs ++ served_with low q jobs))

  -- A job goes behind those that wait with its priority.
  queue_of-l_push :
      (p r : TransactionPriority) (job : QueuedJob payload) (q : Queues payload)
      → queue_of r (l_push p job q)
        ≡ (if same_priority p r then queue_of r q ++ job ∷ [] else queue_of r q)
  queue_of-l_push critical critical job q = refl
  queue_of-l_push critical high job q = refl
  queue_of-l_push critical normal job q = refl
  queue_of-l_push critical low job q = refl
  queue_of-l_push high critical job q = refl
  queue_of-l_push high high job q = refl
  queue_of-l_push high normal job q = refl
  queue_of-l_push high low job q = refl
  queue_of-l_push normal critical job q = refl
  queue_of-l_push normal high job q = refl
  queue_of-l_push normal normal job q = refl
  queue_of-l_push normal low job q = refl
  queue_of-l_push low critical job q = refl
  queue_of-l_push low high job q = refl
  queue_of-l_push low normal job q = refl
  queue_of-l_push low low job q = refl

  enqueue_lem :
      (connects : Bool) (job : QueuedJob payload) (s : TransactionQueue payload)
      → s.is_processing ≡ true
      → enqueue connects job s ≡ record s {
        queues = l_push job.priority job s.queues;
        total_enqueued = s.total_enqueued + 1;
      }
  unfolding enqueue
  enqueue_lem connects job s on = rw on refl

  served-l_push :
      (p : TransactionPriority) (job : QueuedJob payload) (jobs : List (QueuedJob payload))
      (q : Queues payload)
      → served_with p (l_push job.priority job q) jobs ≡ served_with p q (job ∷ jobs)
  served-l_push p job jobs q = elim (Bool-cases (same_priority job.priority p)) [
    | inl own ↦
        ap (λ (js : List (QueuedJob payload)). js ++ of_priority p jobs)
          (queue_of-l_push job.priority p job q)
        ∙ rw own (append_assoc (queue_of p q) (job ∷ []) (of_priority p jobs))
    | inr other ↦
        ap (λ (js : List (QueuedJob payload)). js ++ of_priority p jobs)
          (queue_of-l_push job.priority p job q)
        ∙ rw other refl
  ]

  -- What `enqueue_all` makes of a service `s` that runs.
  abbrev Waits :
      List (QueuedJob payload) → TransactionQueue payload → TransactionQueue payload → Type 0
  Waits jobs s t =
      (pending t.queues ≡ served s.queues jobs)
      × (t.registered ≡ s.registered)
      × (t.total_processed ≡ s.total_processed)
      × (t.is_processing ≡ s.is_processing)
      × (t.has_client ≡ s.has_client)

  pending-enqueue_all :
      (connects : Bool) (jobs : List (QueuedJob payload)) (s : TransactionQueue payload)
      → s.is_processing ≡ true
      → Waits jobs s (enqueue_all connects jobs s)
  pending-enqueue_all connects [] s on = (
    rw
        (
          append-nil s.queues.critical_jobs,
          append-nil s.queues.high_jobs,
          append-nil s.queues.normal_jobs,
          append-nil s.queues.low_jobs,
        )
        refl,
    refl,
    refl,
    refl,
    refl,
  )
  pending-enqueue_all connects (job ∷ jobs) s on =
      let next : TransactionQueue payload = record s {
        queues = l_push job.priority job s.queues;
        total_enqueued = s.total_enqueued + 1;
      } in
      let (order, registered, total, processing, client) =
        pending-enqueue_all connects jobs next on in
      subst (λ t. Waits (job ∷ jobs) s (enqueue_all connects jobs t))
        (sym (enqueue_lem connects job s on))
        (
          order
              ∙ rw
                  (
                    served-l_push critical job jobs s.queues,
                    served-l_push high job jobs s.queues,
                    served-l_push normal job jobs s.queues,
                    served-l_push low job jobs s.queues,
                  )
                  refl,
          registered,
          total,
          processing,
          client,
        )

  -- Jobs are enqueued one after the other, at a service whose loop runs. When every transaction
  -- commits, and every job has a handler, the loop, with as many rounds free to take a job as jobs wait
  -- then, runs each of them once: the critical ones first, then those of high, of normal and of low
  -- priority, and within a priority those that waited before, and then the others in the order in
  -- which they were enqueued. No job waits then, and all are counted as processed.
  pub process_loop_order :
      (connects : Bool) (jobs : List (QueuedJob payload)) (turns : List Turn)
      (s : TransactionQueue payload)
      → s.is_processing ≡ true
      → s.has_client ≡ true
      → All (λ (t : Turn). t.outcome ≡ commits) turns
      → AllRegistered s.registered (served s.queues jobs)
      → length (served s.queues jobs) ≤ open_turns turns
      → ((process_loop turns (enqueue_all connects jobs s)).0
          ≡ map attempted (served s.queues jobs))
        × (pending (process_loop turns (enqueue_all connects jobs s)).1.queues ≡ [])
        × ((process_loop turns (enqueue_all connects jobs s)).1.total_processed
            ≡ s.total_processed + length (served s.queues jobs))
  process_loop_order connects jobs turns s on client good known enough =
      let (order, registered, total, processing, connected) =
        pending-enqueue_all connects jobs s on in
      let (ran, empty, count) =
        runs_all turns (enqueue_all connects jobs s) (served s.queues jobs) order
          (rw (processing, connected, on, client) refl) good (rw registered known) enough in
      (ran, empty, count ∙ ap (λ n. n + length (served s.queues jobs)) total)
