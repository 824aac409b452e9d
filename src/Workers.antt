-- ===== src/Workers.antt =====
-- include/laso/workers/worker.hpp and src/workers/worker.cpp: the states of a worker's job, and the branch
-- of src/storage/postgres.cpp, `write_records`, that guards the rows of `worker_jobs`.
pub mod Interactions
pub mod Jobs
pub mod Usage
pub mod Manager
use laso.Base.{String, Bool, true, false, not, ◌&&◌, Option, none, some, if◌then◌else◌}
use laso.Core.Errors.{ErrorCode, Result, ok, err, throw}

pub data WorkerJobState : Type 0 where
  created submitting queued running waiting completed failed cancelled timed_out unknown :
      WorkerJobState

unfoldable pub worker_job_terminal : WorkerJobState → Bool
worker_job_terminal completed = true
worker_job_terminal failed = true
worker_job_terminal cancelled = true
worker_job_terminal timed_out = true
worker_job_terminal _ = false

-- What a job that is in the queue, runs, waits or is unknown may become.
abbrev pub from_active : WorkerJobState → Bool
from_active running = true
from_active waiting = true
from_active completed = true
from_active failed = true
from_active cancelled = true
from_active timed_out = true
from_active unknown = true
from_active _ = false

abbrev pub next_job_state : WorkerJobState → WorkerJobState → Bool
next_job_state created submitting = true
next_job_state created failed = true
next_job_state created cancelled = true
next_job_state created unknown = true
next_job_state submitting queued = true
next_job_state submitting running = true
next_job_state submitting completed = true
next_job_state submitting failed = true
next_job_state submitting cancelled = true
next_job_state submitting timed_out = true
next_job_state submitting unknown = true
next_job_state queued to = from_active to
next_job_state running to = from_active to
next_job_state waiting to = from_active to
next_job_state unknown to = from_active to
next_job_state _ _ = false

unfoldable pub valid_worker_job_transition : WorkerJobState → WorkerJobState → Bool
unfolding worker_job_terminal
valid_worker_job_transition from to =
    if worker_job_terminal from then false else next_job_state from to

abbrev pub same_job_state : WorkerJobState → WorkerJobState → Bool
same_job_state created created = true
same_job_state submitting submitting = true
same_job_state queued queued = true
same_job_state running running = true
same_job_state waiting waiting = true
same_job_state completed completed = true
same_job_state failed failed = true
same_job_state cancelled cancelled = true
same_job_state timed_out timed_out = true
same_job_state unknown unknown = true
same_job_state _ _ = false

-- A job with its state and the rest of its record.
pub record WorkerJob (Body : Type 0) : Type 0 where
  pub id : String
  pub state : WorkerJobState
  pub body : Body

-- What a write of `new` leaves in the job's row.
unfoldable pub write_worker_job :
    {Body : Type 0} → Option (WorkerJob Body) → WorkerJob Body → Result (WorkerJob Body)
write_worker_job none new = ok new
write_worker_job (some old) new =
    if not (same_job_state old.state new.state)
      && not (valid_worker_job_transition old.state new.state)
    then throw ErrorCode.conflict "Invalid worker job state transition"
    else ok new
