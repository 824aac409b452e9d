-- ===== src/Workers/Jobs.antt =====
-- src/storage/postgres.cpp, `write_records`: what a history of writes can do to a job of a worker.
use laso.Base.{◌≡◌, refl, ◌∙◌, Bool, true, false, some, List, [], ◌∷◌, arith}
use laso.Core.Errors.{Result, ok, err}
use laso.Workers.{
  WorkerJobState, created, submitting, worker_job_terminal, valid_worker_job_transition, WorkerJob,
  write_worker_job,
}

abbrev pub kept_job : {Body : Type 0} → WorkerJob Body → Result (WorkerJob Body) → WorkerJob Body
kept_job old (ok new) = new
kept_job old (err e) = old

-- The job has left the states of a submission behind.
abbrev pub past_submission : WorkerJobState → Bool
past_submission created = false
past_submission submitting = false
past_submission _ = true

module _ {Body : Type 0} where
  -- The row after one write, and after a list of them; a write that throws leaves it as it was.
  unfoldable pub after_write : WorkerJob Body → WorkerJob Body → WorkerJob Body
  after_write old new = kept_job old (write_worker_job (some old) new)

  unfoldable pub job_row : WorkerJob Body → List (WorkerJob Body) → WorkerJob Body
  job_row old [] = old
  job_row old (new ∷ ws) = job_row (after_write old new) ws

  terminal-after :
      (old new : WorkerJob Body)
      → worker_job_terminal old.state ≡ true
      → (after_write old new).state ≡ old.state
  unfolding after_write write_worker_job valid_worker_job_transition worker_job_terminal
  terminal-after old new h = ground arith

  job_state_fixed :
      (old : WorkerJob Body) (ws : List (WorkerJob Body))
      → worker_job_terminal old.state ≡ true
      → (job_row old ws).state ≡ old.state
  unfolding job_row
  job_state_fixed old [] h = refl
  job_state_fixed old (new ∷ ws) h =
      let same = terminal-after old new h in
      job_state_fixed (after_write old new) ws (rw same h) ∙ same

  past-after :
      (old new : WorkerJob Body)
      → past_submission old.state ≡ true
      → past_submission (after_write old new).state ≡ true
  unfolding after_write write_worker_job valid_worker_job_transition worker_job_terminal
  past-after old new h = ground arith

  past-row :
      (old : WorkerJob Body) (ws : List (WorkerJob Body))
      → past_submission old.state ≡ true
      → past_submission (job_row old ws).state ≡ true
  unfolding job_row
  past-row old [] h = h
  past-row old (new ∷ ws) h = past-row (after_write old new) ws (past-after old new h)

  -- After any list of writes, accepted or refused, to a stored job: if the job was past `Created` and
  -- `Submitting` it is still, so it is not submitted a second time; and if its state was terminal, the
  -- state is the same.
  pub jobs_move_forward :
      (old : WorkerJob Body) (ws : List (WorkerJob Body))
      → (past_submission old.state ≡ true → past_submission (job_row old ws).state ≡ true)
        × (worker_job_terminal old.state ≡ true → (job_row old ws).state ≡ old.state)
  jobs_move_forward old ws = (past-row old ws, job_state_fixed old ws)
