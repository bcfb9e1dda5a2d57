-- ===== src/TransactionQueue.antt =====
-- backend/src/services/transaction-queue.service.ts: jobs that wait in four Redis lists, by
-- priority, and the loop that runs them.
pub mod Laws
pub mod Order
pub mod Drain
pub mod Accepted
mod Tests
use mathlib.Core.Option
use image_app.Common.{
  ℕ, suc, ◌+◌, String, Bool, true, false, ◌&&◌, ◌||◌, Option, none, some, List, [], ◌∷◌, ◌++◌,
  length, ltb, str_eq, if◌then◌else◌,
}

pub data TransactionPriority : Type 0 where
  critical high normal low : TransactionPriority

pub record QueuedJob (payload : Type 0) : Type 0 where
  pub id : String
  pub job_name : String
  pub data_of : payload
  pub priority : TransactionPriority
  pub created_at : ℕ
  pub attempts : ℕ
  pub max_attempts : ℕ

-- The lists "queue:critical", "queue:high", "queue:normal" and "queue:low", each from its right end
-- to its left end.
pub record Queues (payload : Type 0) : Type 0 where
  pub critical_jobs : List (QueuedJob payload)
  pub high_jobs : List (QueuedJob payload)
  pub normal_jobs : List (QueuedJob payload)
  pub low_jobs : List (QueuedJob payload)

-- The service, with the lists it keeps in Redis. `registered` says which names are keys of
-- `handlers`, and `has_client` whether `blockingClient` is set.
pub record TransactionQueue (payload : Type 0) : Type 0 where
  pub queues : Queues payload
  pub registered : String → Bool
  pub has_client : Bool
  pub is_processing : Bool
  pub total_enqueued : ℕ
  pub total_processed : ℕ
  pub total_failed : ℕ
  pub total_dropped : ℕ

-- How `executeInTransaction` ends for a job, and whether the job can be pushed again after it threw.
pub data Outcome : Type 0 where
  commits throws throws_unqueued : Outcome

-- One round of `processLoop`: the free permits that the unit of work reports, whether `brPop`
-- answers, and how the transaction ends.
pub record Turn : Type 0 where
  pub available_permits : ℕ
  pub answers : Bool
  pub outcome : Outcome

pub record QueueSizes : Type 0 where
  pub critical_size : ℕ
  pub high_size : ℕ
  pub normal_size : ℕ
  pub low_size : ℕ

-- What `getMetrics` returns.
pub record QueueMetrics : Type 0 where
  pub enqueued : ℕ
  pub processed : ℕ
  pub failed : ℕ
  pub dropped : ℕ
  pub queue_sizes : QueueSizes

-- The options of `enqueue`.
pub record EnqueueOptions : Type 0 where
  pub priority : Option TransactionPriority
  pub max_attempts : Option ℕ

-- What `executeOrQueue` does: the job is queued, runs in a transaction at once, or has no handler.
pub data Immediate (payload : Type 0) : Type 0 where
  queued : TransactionQueue payload → Immediate payload
  executes : Immediate payload
  no_handler : Immediate payload

module _ {payload : Type 0} where
  abbrev pub queue_of : TransactionPriority → Queues payload → List (QueuedJob payload)
  queue_of critical q = q.critical_jobs
  queue_of high q = q.high_jobs
  queue_of normal q = q.normal_jobs
  queue_of low q = q.low_jobs

  abbrev pub set_queue :
      TransactionPriority → List (QueuedJob payload) → Queues payload → Queues payload
  set_queue critical js q = record q { critical_jobs = js }
  set_queue high js q = record q { high_jobs = js }
  set_queue normal js q = record q { normal_jobs = js }
  set_queue low js q = record q { low_jobs = js }

  abbrev pub l_push : TransactionPriority → QueuedJob payload → Queues payload → Queues payload
  l_push p job q = set_queue p (queue_of p q ++ job ∷ []) q

  abbrev pub r_push : TransactionPriority → QueuedJob payload → Queues payload → Queues payload
  r_push p job q = set_queue p (job ∷ queue_of p q) q

  -- `brPop` of the four lists: the right end of the first one that is not empty.
  unfoldable pub br_pop :
      Queues payload → Option (TransactionPriority × QueuedJob payload × Queues payload)
  br_pop q = elim q.critical_jobs [
    | job ∷ js ↦ some (critical, job, record q { critical_jobs = js })
    | [] ↦ elim q.high_jobs [
      | job ∷ js ↦ some (high, job, record q { high_jobs = js })
      | [] ↦ elim q.normal_jobs [
        | job ∷ js ↦ some (normal, job, record q { normal_jobs = js })
        | [] ↦ elim q.low_jobs [
          | job ∷ js ↦ some (low, job, record q { low_jobs = js })
          | [] ↦ none
        ]
      ]
    ]
  ]

  abbrev pub no_jobs : Queues payload
  no_jobs = record { critical_jobs = []; high_jobs = []; normal_jobs = []; low_jobs = [] }

  -- The constructed service, over empty lists.
  abbrev pub idle : TransactionQueue payload
  idle = record {
    queues = no_jobs;
    registered = λ name. false;
    has_client = false;
    is_processing = false;
    total_enqueued = 0;
    total_processed = 0;
    total_failed = 0;
    total_dropped = 0;
  }

  unfoldable pub register_handler : String → TransactionQueue payload → TransactionQueue payload
  register_handler name s = record s {
    registered = λ other. str_eq name other || s.registered other;
  }

  -- `connects` says whether the blocking client connects.
  unfoldable pub start_processing : Bool → TransactionQueue payload → TransactionQueue payload
  start_processing connects s =
      if s.is_processing then s else record s { has_client = true; is_processing = connects }

  unfoldable pub stop_processing : TransactionQueue payload → TransactionQueue payload
  stop_processing s = record s { has_client = false; is_processing = false }

  abbrev pub new_job : String → ℕ → String → payload → EnqueueOptions → QueuedJob payload
  new_job id now job_name data_of options = record {
    id = id;
    job_name = job_name;
    data_of = data_of;
    priority = Option.get_or options.priority normal;
    created_at = now;
    attempts = 0;
    max_attempts = Option.get_or options.max_attempts 3;
  }

  unfoldable pub enqueue :
      Bool → QueuedJob payload → TransactionQueue payload → TransactionQueue payload
  unfolding start_processing
  enqueue connects job s = start_processing connects (record s {
    queues = l_push job.priority job s.queues;
    total_enqueued = s.total_enqueued + 1;
  })

  -- What a round does with a job whose attempt is counted: `p` is the list that it came from.
  unfoldable pub settle :
      Outcome
      → TransactionPriority
      → QueuedJob payload
      → TransactionQueue payload
      → TransactionQueue payload
  settle commits p job s = record s { total_processed = s.total_processed + 1 }
  settle throws p job s =
      if ltb job.attempts job.max_attempts
      then record s { queues = r_push p job s.queues }
      else record s { total_failed = s.total_failed + 1 }
  settle throws_unqueued p job s =
      if ltb job.attempts job.max_attempts
      then s
      else record s { total_failed = s.total_failed + 1 }

  abbrev pub attempted : QueuedJob payload → QueuedJob payload
  attempted job = record job { attempts = job.attempts + 1 }

  -- A job that was popped: the jobs whose handler was run, and the service after it.
  unfoldable pub handle_job :
      Outcome
      → TransactionPriority
      → QueuedJob payload
      → TransactionQueue payload
      → List (QueuedJob payload) × TransactionQueue payload
  unfolding settle
  handle_job outcome p job s =
      if s.registered job.job_name
      then (attempted job ∷ [], settle outcome p (attempted job) s)
      else ([], record s { total_failed = s.total_failed + 1 })

  unfoldable pub process_popped :
      Outcome
      → Option (TransactionPriority × QueuedJob payload × Queues payload)
      → TransactionQueue payload
      → List (QueuedJob payload) × TransactionQueue payload
  unfolding handle_job
  process_popped outcome none s = ([], s)
  process_popped outcome (some (p, job, q)) s = handle_job outcome p job (record s { queues = q })

  unfoldable pub process_turn :
      Turn → TransactionQueue payload → List (QueuedJob payload) × TransactionQueue payload
  unfolding process_popped br_pop
  process_turn turn s =
      if ltb turn.available_permits 5
      then ([], s)
      else if turn.answers
      then process_popped turn.outcome (br_pop s.queues) s
      else ([], s)

  -- `processLoop`, for the rounds of the list.
  unfoldable pub process_loop :
      List Turn → TransactionQueue payload → List (QueuedJob payload) × TransactionQueue payload
  unfolding process_turn
  process_loop [] s = ([], s)
  process_loop (turn ∷ turns) s =
      let (ran, after) = process_turn turn s in
      let (rest, end) = process_loop turns after in
      if s.is_processing && s.has_client then (ran ++ rest, end) else ([], s)

  -- `getQueueSizes`: zeros when the client is closed or a command fails.
  unfoldable pub get_queue_sizes : Bool → Queues payload → QueueSizes
  get_queue_sizes answers q =
      if answers
      then record {
        critical_size = length q.critical_jobs;
        high_size = length q.high_jobs;
        normal_size = length q.normal_jobs;
        low_size = length q.low_jobs;
      }
      else record { critical_size = 0; high_size = 0; normal_size = 0; low_size = 0 }

  unfoldable pub get_metrics : Bool → TransactionQueue payload → QueueMetrics
  unfolding get_queue_sizes
  get_metrics answers s = record {
    enqueued = s.total_enqueued;
    processed = s.total_processed;
    failed = s.total_failed;
    dropped = s.total_dropped;
    queue_sizes = get_queue_sizes answers s.queues;
  }

  -- The jobs in all four lists.
  unfoldable pub size : Queues payload → ℕ
  unfolding get_queue_sizes
  size q =
      let sizes = get_queue_sizes true q in
      sizes.critical_size + sizes.high_size + sizes.normal_size + sizes.low_size

  unfoldable pub clear_queues : TransactionQueue payload → TransactionQueue payload
  clear_queues s = record s { queues = no_jobs }

  -- The queue length and the free permits are those that `unitOfWork.getMetrics` reports.
  unfoldable pub execute_or_queue :
      ℕ → ℕ → Option ℕ → Bool → QueuedJob payload → TransactionQueue payload → Immediate payload
  unfolding enqueue
  execute_or_queue queue_length available_permits load_threshold connects job s =
      if ltb (Option.get_or load_threshold 40) queue_length || ltb available_permits 5
      then queued (enqueue connects job s)
      else if s.registered job.job_name
      then executes
      else no_handler
