-- ===== src/Workers/Manager/Statuses.antt =====
-- src/workers/manager.cpp: `record_submission`, what the answer to a submission does to the row of its job,
-- and the part of `reconcile` that writes the status that a worker has reported.
pub mod Budgets
use laso.Base.{
  ℕ, ◌*◌, String, Bool, true, false, not, ◌&&◌, ◌||◌, Option, none, some, List, [], ◌∷◌, length,
  ltb, leb, codes, if◌then◌else◌,
}
use laso.Core.Errors.{ErrorCode, Result, ok, err, throw_if, ◌>>=◌, ◌>>◌}
use laso.Pipeline.Reference.{Bytes, is_nil}
use laso.Workers.{
  WorkerJobState, WorkerJob, worker_job_terminal, same_job_state, valid_worker_job_transition,
}
use laso.Workers.Usage.{
  WorkerUsage, OpaqueProviderContinuation, JobBody, WorkerLimits, WorkerFailureKind, CostOps,
  merge_usage,
}
use laso.Workers.Manager.{
  JsonOps, Job, Rows, with_body, is_some, bounded_error, max_external_id_bytes, max_metadata_bytes,
  job, apply_continuation, persist,
}
use laso.Workers.Manager.Events.{violation, enforce, complete_at}

-- What a worker answers about a job; a submission has an external id besides.
pub record WorkerStatus (Json Cost : Type 0) : Type 0 where
  pub state : WorkerJobState
  pub result : Json
  pub metadata : Json
  pub artifacts : List Json
  pub error : Bytes
  pub usage : WorkerUsage Json Cost
  pub continuation : Option OpaqueProviderContinuation

pub record WorkerSubmission (Json Cost : Type 0) : Type 0 where
  pub external_job_id : Bytes
  pub status : WorkerStatus Json Cost

abbrev pub no_artifacts : {A : Type 0} → List A → Bool
no_artifacts [] = true
no_artifacts (x ∷ xs) = false

abbrev pub newer_error : Bytes → Bytes → Bytes
newer_error error old = if is_nil error then old else bounded_error error

abbrev pub is_failed : WorkerJobState → Bool
is_failed state = same_job_state state WorkerJobState.failed

abbrev pub no_failure_yet : WorkerFailureKind → Bool
no_failure_yet WorkerFailureKind.no_failure = true
no_failure_yet _ = false

module _ {Json Cost : Type 0} (json : JsonOps Json Cost) (c : CostOps Cost) (finite : Cost → Bool)
    (m : WorkerLimits Cost) (now : Bytes) (rows : Rows Json Cost) where
  -- The failure kind of a job that fails without a violation.
  abbrev pub note_failure : Bool → Job Json Cost → Job Json Cost
  note_failure failed value = with_body value (λ b. record b {
    failure_kind =
        if failed && not (is_some (violation json c finite m now rows value))
        then WorkerFailureKind.job_failure
        else b.failure_kind;
  })

  -- The two fates of a value whose usage is known: the violation of a budget, or its own state.
  abbrev pub judged : Bool → Job Json Cost → Job Json Cost
  judged failed value = enforce json c finite m now rows (note_failure failed value)

  abbrev pub take_submission : WorkerSubmission Json Cost → Job Json Cost → Job Json Cost
  take_submission s value = record value {
    state = s.status.state;
    body = record (value.body) {
      external_job_id = s.external_job_id;
      result_metadata = s.status.metadata;
      result = if json.is_null s.status.result then value.body.result else s.status.result;
      artifacts =
          if no_artifacts s.status.artifacts then value.body.artifacts else s.status.artifacts;
      error = newer_error s.status.error value.body.error;
      usage = merge_usage json.is_object json.update value.body.usage s.status.usage;
    };
  }

  -- What is persisted; `none` for a job that has ended.
  abbrev pub submitted_job :
      WorkerSubmission Json Cost → Job Json Cost → Result (Option (Job Json Cost))
  submitted_job s value =
      if worker_job_terminal value.state
      then ok none
      else (apply_continuation s.status.continuation (take_submission s value) >>= λ taken. ok (
          some (
            complete_at json c finite m now rows
              (worker_job_terminal taken.state
                || is_some (violation json c finite m now rows taken))
              (judged (is_failed taken.state) taken))))

  -- The first locked part of `record_submission`.
  unfoldable pub record_submission :
      Bytes → WorkerSubmission Json Cost → Result (Option (Job Json Cost))
  unfolding apply_continuation job
  record_submission id s =
      throw_if (is_nil s.external_job_id || ltb max_external_id_bytes (length s.external_job_id))
        ErrorCode.plugin "Worker returned an invalid external job id"
      >> (job id rows >>= λ value. submitted_job s value)

  abbrev pub take_status : WorkerStatus Json Cost → Job Json Cost → Job Json Cost
  take_status s value = record value {
    state = s.state;
    body = record (value.body) {
      result =
          if not (json.is_null s.result) && leb (json.dump_size s.result) (1024 * 1024)
          then s.result
          else value.body.result;
      result_metadata =
          if json.is_object s.metadata && leb (json.dump_size s.metadata) max_metadata_bytes
          then s.metadata
          else value.body.result_metadata;
      usage = merge_usage json.is_object json.update value.body.usage s.usage;
      artifacts =
          if not (no_artifacts s.artifacts) && leb (length s.artifacts) m.max_artifacts
          then s.artifacts
          else value.body.artifacts;
      error = newer_error s.error value.body.error;
    };
  }

  -- A tool call's child notes that its final result has been read.
  abbrev pub note_retrieved : Bool → Json → Job Json Cost → Result (Job Json Cost)
  note_retrieved false mark value = ok value
  note_retrieved true mark value =
      json.set_member value.body.request_metadata "codex_tool_result_retrieved" mark >>= λ metadata.
      ok (with_body value (λ b. record b { request_metadata = metadata }))

  abbrev pub status_job :
      Bool → Json → WorkerStatus Json Cost → Job Json Cost → Result (Option (Job Json Cost))
  status_job received mark s value =
      if worker_job_terminal value.state
        || (not (valid_worker_job_transition value.state s.state)
            && not (same_job_state value.state s.state))
      then ok none
      else (apply_continuation s.continuation (take_status s value) >>= λ taken.
          note_retrieved
            (same_job_state s.state WorkerJobState.completed
              && received
              && is_some (json.member taken.body.request_metadata "parent_worker_job_id"))
            mark taken
          >>= λ noted.
              let fate =
                judged (is_failed noted.state && no_failure_yet noted.body.failure_kind) noted in
              ok (
                some (
                  complete_at json c finite m now rows
                    (worker_job_terminal fate.state && is_nil fate.body.completed_at) fate)))

  -- The part of `reconcile` after the worker has answered, for a status other than `Unknown`. `received`
  -- is final_result_received, and `mark` the JSON value `true`.
  unfoldable pub reconcile_status :
      Bool → Json → Bytes → WorkerStatus Json Cost → Result (Option (Job Json Cost))
  unfolding apply_continuation job
  reconcile_status received mark id s = job id rows >>= λ value. status_job received mark s value

  -- The part for the status `Unknown`.
  abbrev pub forget_as : Job Json Cost → Result (Option (Job Json Cost))
  forget_as value =
      if worker_job_terminal value.state || same_job_state value.state WorkerJobState.unknown
      then ok none
      else ok (
          some (record value {
            state = WorkerJobState.unknown;
            body = record (value.body) {
              error = codes "Worker process no longer knows this job; it will not be resubmitted";
            };
          }))

  unfoldable pub reconcile_unknown : Bytes → Result (Option (Job Json Cost))
  unfolding job
  reconcile_unknown id = job id rows >>= λ value. forget_as value
