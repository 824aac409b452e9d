-- ===== src/Tests/Workers.antt =====
-- Tests of the states of a worker's job.
use laso.Base.{ℕ, ◌≡◌, true, [], ◌∷◌}
use laso.Workers.{WorkerJob, WorkerJobState, queued, submitting, completed, worker_job_terminal}
use laso.Workers.Jobs.{past_submission, job_row, jobs_move_forward}

abbrev job : WorkerJobState → WorkerJob ℕ
job state = record { id = "j1"; state = state; body = 0 }

-- A second instance tries to submit the job again.
jobs_move_forward_example :
    (past_submission queued ≡ true
      → past_submission (job_row (job queued) (job submitting ∷ job completed ∷ [])).state ≡ true)
    × (worker_job_terminal queued ≡ true
        → (job_row (job queued) (job submitting ∷ job completed ∷ [])).state ≡ queued)
jobs_move_forward_example = jobs_move_forward (job queued) (job submitting ∷ job completed ∷ [])
