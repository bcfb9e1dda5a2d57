-- ===== src/TransactionQueue/Drain.antt =====
-- Enough rounds empty the queues.
use image_app.Common.{
  ℕ, suc, ◌+◌, ◌-◌, ◌≤◌, ◌<◌, max, ◌≡◌, refl, sym, ap, ◌∙◌, inl, inr, String, Bool, true, ◌&&◌,
  List, [], ◌∷◌, map, length, All, arith, Bool-cases, if◌then◌else◌,
}
use image_app.TransactionQueue.{
  TransactionPriority, QueuedJob, Queues, TransactionQueue, Outcome, commits, Turn, r_push, settle,
  attempted, handle_job, process_turn, process_loop, size,
}
use image_app.TransactionQueue.Laws.{
  pending, is_open, shut_turn, finds_none, handles, process_turn-Round, size-pending,
}

-- The rounds in which the loop takes a job.
abbrev pub open_turns : List Turn → ℕ
open_turns [] = 0
open_turns (turn ∷ turns) = if is_open turn then suc (open_turns turns) else open_turns turns

module _ {payload : Type 0} where
  -- The attempts that the waiting jobs have left, at least one for each.
  abbrev pub attempts_left : List (QueuedJob payload) → ℕ
  attempts_left [] = 0
  attempts_left (job ∷ jobs) = max 1 (job.max_attempts - job.attempts) + attempts_left jobs

  abbrev left : TransactionQueue payload → ℕ
  left s = attempts_left (pending s.queues)

  handle_job-left :
      (outcome : Outcome) (p : TransactionPriority) (job : QueuedJob payload)
      (rest : Queues payload) (s : TransactionQueue payload)
      → ((again : QueuedJob payload) → pending (r_push p again rest) ≡ again ∷ pending rest)
      → left (handle_job outcome p job (record s { queues = rest })).1
        < attempts_left (job ∷ pending rest)
  unfolding handle_job settle
  handle_job-left outcome p job rest s again = ground (
    arith,
    again (attempted job),
    ap (λ (js : List (QueuedJob payload)). attempts_left js) (again (attempted job)),
  )

  -- A round does not stop the loop.
  abbrev IsOn : TransactionQueue payload → Type 0
  IsOn s = (s.is_processing && s.has_client) ≡ true

  handle_job-IsOn :
      (outcome : Outcome) (p : TransactionPriority) (job : QueuedJob payload)
      (s : TransactionQueue payload)
      → IsOn s
      → IsOn (handle_job outcome p job s).1
  unfolding handle_job settle
  handle_job-IsOn outcome p job s on = ground arith

  -- A round in which the loop takes a job leaves fewer attempts, if there were any.
  open_turn-left :
      (turn : Turn) (s : TransactionQueue payload)
      → IsOn s
      → is_open turn ≡ true
      → IsOn (process_turn turn s).1 × (left (process_turn turn s).1 ≤ left s - 1)
  open_turn-left turn s on o = elim (process_turn-Round turn s o) [
    | finds_none n e ↦ rw e (on, rw n (omega arith))
    | handles p job rest n again e ↦
        let less = handle_job-left turn.outcome p job rest s again in
        rw (e, n)
          (handle_job-IsOn turn.outcome p job (record s { queues = rest }) on, omega (arith, less))
  ]

  none_left : (jobs : List (QueuedJob payload)) → attempts_left jobs ≤ 0 → length jobs ≡ 0
  none_left [] h = refl
  none_left (job ∷ jobs) h = ground arith

  -- A loop that runs empties the queues, once as many of its rounds are free to take a job as the
  -- waiting jobs have attempts left, however the attempts end. Rounds in which the unit of work is
  -- busy, or Redis does not answer, only delay it.
  pub process_loop_drains :
      (turns : List Turn) (s : TransactionQueue payload)
      → (s.is_processing && s.has_client) ≡ true
      → attempts_left (pending s.queues) ≤ open_turns turns
      → size (process_loop turns s).1.queues ≡ 0
  unfolding process_loop
  process_loop_drains [] s on enough = rw size-pending (none_left (pending s.queues) enough)
  process_loop_drains (turn ∷ turns) s on enough = elim (Bool-cases (is_open turn)) [
    | inr shut ↦ rw (on, shut_turn turn s shut) (process_loop_drains turns s on (rw shut at enough))
    | inl o ↦
        let (still, less) = open_turn-left turn s on o in
        rw on (
          process_loop_drains turns (process_turn turn s).1 still
            (omega (arith, less, rw o at enough)))
  ]

module _ {payload : Type 0} where
  abbrev pub AllRegistered : (String → Bool) → List (QueuedJob payload) → Type 0
  AllRegistered registered jobs = All (λ (j : QueuedJob payload). registered j.job_name ≡ true) jobs

  abbrev pub Ran :
      List (QueuedJob payload) → ℕ → List (QueuedJob payload) × TransactionQueue payload → Type 0
  Ran jobs before r =
      (r.0 ≡ map attempted jobs)
      × (pending r.1.queues ≡ [])
      × (r.1.total_processed ≡ before + length jobs)

  commits_job :
      (p : TransactionPriority) (job : QueuedJob payload) (s : TransactionQueue payload)
      → s.registered job.job_name ≡ true
      → handle_job commits p job s
        ≡ (attempted job ∷ [], record s { total_processed = s.total_processed + 1 })
  unfolding handle_job settle
  commits_job p job s known = rw known refl

  -- Jobs that all have handlers, and whose transactions commit, run in the order in which they wait.
  pub runs_all :
      (turns : List Turn) (s : TransactionQueue payload) (jobs : List (QueuedJob payload))
      → pending s.queues ≡ jobs
      → IsOn s
      → All (λ (t : Turn). t.outcome ≡ commits) turns
      → AllRegistered s.registered jobs
      → length jobs ≤ open_turns turns
      → Ran jobs s.total_processed (process_loop turns s)
  unfolding process_loop
  runs_all [] s [] is on good known enough = (refl, is, omega arith)
  runs_all [] s (job ∷ jobs) is on good known enough = absurd (omega (arith, enough))
  runs_all (turn ∷ turns) s jobs is on good known enough = elim (Bool-cases (is_open turn)) [
    | inr shut ↦
        rw (on, shut_turn turn s shut)
          (runs_all turns s jobs is on good.1 known (rw shut at enough))
    | inl o ↦ elim (process_turn-Round turn s o) [
      | finds_none n e ↦ rw (on, e, sym is ∙ n) (runs_all turns s [] n on good.1 tt (omega arith))
      | handles p job rest n again e ↦
          let whole : jobs ≡ job ∷ pending rest = sym is ∙ n in
          let knows = rw whole at known in
          let fits = rw (whole, o) at enough in
          let step = commits_job p job (record s { queues = rest }) knows.0 in
          let later =
            runs_all turns (record s { queues = rest; total_processed = s.total_processed + 1 })
              (pending rest) refl on good.1 knows.1 (omega (arith, fits)) in
          rw (on, e, good.0, step, whole)
            (ap (λ js. attempted job ∷ js) later.0, later.1, omega (arith, later.2))
    ]
  ]
