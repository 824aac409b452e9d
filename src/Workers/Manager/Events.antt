-- ===== src/Workers/Manager/Events.antt =====
-- src/workers/manager.cpp: `apply_event`, what an event of a worker does to the row of its job.
pub mod Budgeted
use laso.Base.{
  ℕ, ◌*◌, String, Bool, true, false, not, ◌&&◌, ◌||◌, Option, none, some, List, [], ◌∷◌, ltb, leb,
  codes, ◌==◌, if◌then◌else◌,
}
use laso.Core.Errors.{ErrorCode, Result, ok, err, throw_if, ◌>>=◌, ◌>>◌}
use laso.Pipeline.Reference.{Bytes, is_nil}
use laso.Security.{bytes_eq}
use laso.Workers.{
  WorkerJobState, WorkerJob, worker_job_terminal, same_job_state, valid_worker_job_transition,
}
use laso.Workers.Usage.{
  WorkerUsage, OpaqueProviderContinuation, JobBody, WorkerLimits, WorkerFailureKind, CostOps,
  merge_usage, budget_violation,
}
use laso.Workers.Manager.{
  JsonOps, Job, Rows, with_body, is_some, member_or, usage_from_json, bounded_identifier,
  bounded_error, max_job_id_bytes, max_external_id_bytes, max_metadata_bytes, rows_of, job,
  apply_continuation, persist,
}

pub record WorkerEvent (Json : Type 0) : Type 0 where
  pub type : Bytes
  pub source_id : Bytes
  pub payload : Json

unfoldable pub event_state : Bytes → WorkerJobState
event_state type =
    if bytes_eq type (codes "worker.job.started")
    then WorkerJobState.running
    else if bytes_eq type (codes "worker.job.completed")
    then WorkerJobState.completed
    else if bytes_eq type (codes "worker.job.failed")
    then WorkerJobState.failed
    else if bytes_eq type (codes "worker.job.cancelled")
    then WorkerJobState.cancelled
    else WorkerJobState.unknown

unfoldable pub starts_with : Bytes → Bytes → Bool
starts_with [] text = true
starts_with (c ∷ cs) [] = false
starts_with (c ∷ cs) (d ∷ ds) = c == d && starts_with cs ds

module _ {Json Cost : Type 0} (json : JsonOps Json Cost) (c : CostOps Cost) (finite : Cost → Bool)
    (m : WorkerLimits Cost) (now : Bytes) (rows : Rows Json Cost) where
  abbrev pub violation : Job Json Cost → Option String
  violation value = budget_violation c json.dump_size m (rows_of value.body.run_id rows) value

  -- A job that violates a budget fails.
  abbrev pub enforce_as : Option String → Job Json Cost → Job Json Cost
  enforce_as none value = value
  enforce_as (some text) value = record value {
    state = WorkerJobState.failed;
    body = record (value.body) {
      failure_kind = WorkerFailureKind.budget_failure;
      error = codes text;
    };
  }

  abbrev pub enforce : Job Json Cost → Job Json Cost
  enforce value = enforce_as (violation value) value

  abbrev pub complete_at : Bool → Job Json Cost → Job Json Cost
  complete_at done value =
      with_body value (λ b. record b { completed_at = if done then now else b.completed_at })

  abbrev pub merge_reported : Option Json → Job Json Cost → Result (Job Json Cost)
  merge_reported none value = ok value
  merge_reported (some report) value = usage_from_json json finite report >>= λ usage. ok (
      with_body value
        (λ b. record b { usage = merge_usage json.is_object json.update b.usage usage }))

  abbrev pub show_progress : Json → Job Json Cost → Result (Job Json Cost)
  show_progress progress value =
      if leb (json.dump_size progress) max_metadata_bytes
      then (json.set_member value.body.result_metadata "progress" progress >>= λ metadata.
          ok (with_body value (λ b. record b { result_metadata = metadata })))
      else ok value

  -- The value to be persisted.
  unfoldable pub progressed : Json → Job Json Cost → Result (Option (Job Json Cost))
  progressed payload value =
      show_progress (member_or json (json.member payload "progress") json.empty_object) value
      >>= λ shown. merge_reported (json.member payload "usage") shown >>= λ merged.
          ok (some (complete_at (is_some (violation merged)) (enforce merged)))

  abbrev pub read_continuation : Option Json → Job Json Cost → Result (Job Json Cost)
  read_continuation none value = ok value
  read_continuation (some k) value =
      if json.is_null k
      then ok value
      else (throw_if (not (json.is_object k)) ErrorCode.validation
            "Worker event continuation is invalid"
          >> (json.text_member k "provider_id" [] >>= λ provider.
              json.text_member k "provider_version" [] >>= λ version.
              json.text_member k "state" [] >>= λ state.
              apply_continuation
                (some
                  (record { provider_id = provider; provider_version = version; state = state }))
                value))

  abbrev pub read_artifacts : Option Json → Result (List Json)
  read_artifacts none = ok []
  read_artifacts (some j) = json.read_list j

  unfoldable pub completed_job : Json → Job Json Cost → Result (Job Json Cost)
  unfolding apply_continuation
  completed_job payload value =
      read_continuation (json.member payload "continuation") (
        with_body value (λ b. record b {
          result =
              member_or json (json.member payload "result")
                (member_or json (json.member payload "output") json.empty_object);
          result_metadata = member_or json (json.member payload "metadata") json.empty_object;
        }))
      >>= λ continued. read_artifacts (json.member payload "artifacts") >>= λ artifacts.
          merge_reported (json.member payload "usage")
            (with_body continued (λ b. record b { artifacts = artifacts }))

  -- What an event that moves a job to a state does besides.
  abbrev pub moved : WorkerJobState → Json → Job Json Cost → Result (Job Json Cost)
  moved WorkerJobState.running payload value = ok (
      with_body value
        (λ b. record b { started_at = if is_nil b.started_at then now else b.started_at }))
  moved WorkerJobState.completed payload value = completed_job payload value
  moved WorkerJobState.failed payload value =
      json.text_member payload "error" (codes "Worker failed") >>= λ text. ok (
        with_body value (λ b. record b {
          error = bounded_error text;
          failure_kind = WorkerFailureKind.job_failure;
        }))
  moved WorkerJobState.cancelled payload value =
      ok (with_body value (λ b. record b { cancellation_acknowledged = true }))
  moved _ payload value = ok value

  unfoldable pub advanced : WorkerJobState → Json → Job Json Cost → Result (Option (Job Json Cost))
  unfolding completed_job
  advanced next payload value =
      if same_job_state next WorkerJobState.unknown
        || (not (same_job_state next value.state)
            && not (valid_worker_job_transition value.state next))
      then ok none
      else (moved next payload (record value { state = next }) >>= λ changed.
          ok (some (complete_at (worker_job_terminal (enforce changed).state) (enforce changed))))

  abbrev pub adopt_external : Bytes → Job Json Cost → Option (Job Json Cost)
  adopt_external external value =
      if is_nil external
      then some value
      else if not (bounded_identifier external max_external_id_bytes)
          || (not (is_nil value.body.external_job_id)
              && not (bytes_eq external value.body.external_job_id))
      then none
      else some (
          with_body value (λ b. record b {
            external_job_id = if is_nil b.external_job_id then external else b.external_job_id;
          }))

  abbrev pub handle_job :
      WorkerEvent Json → Option (Job Json Cost) → Result (Option (Job Json Cost))
  handle_job event none = ok none
  handle_job event (some value) =
      if worker_job_terminal value.state
      then ok none
      else if bytes_eq event.type (codes "worker.job.progress")
      then progressed event.payload value
      else advanced (event_state event.type) event.payload value

  -- The part of `apply_event` in its `try` block; `none` where it returns before `persist`. `source_of`
  -- is the event source of a registered worker.
  unfoldable pub handle_event :
      (Bytes → Result Bytes) → Bytes → WorkerEvent Json → Result (Option (Job Json Cost))
  unfolding progressed advanced job
  handle_event source_of job_id event = job job_id rows >>= λ value.
      source_of value.body.worker_id >>= λ source.
      if not (bytes_eq event.source_id source)
      then ok none
      else (json.text_member event.payload "external_job_id" [] >>= λ external.
          handle_job event (adopt_external external value))

  -- What is thrown is logged.
  abbrev pub kept_rows : Result (Rows Json Cost) → Rows Json Cost
  kept_rows (err e) = rows
  kept_rows (ok after) = after

  abbrev pub persist_handled : Result (Option (Job Json Cost)) → Rows Json Cost
  persist_handled (err e) = rows
  persist_handled (ok none) = rows
  persist_handled (ok (some value)) = kept_rows (persist json.dump_size m rows value)

  abbrev pub apply_named : (Bytes → Result Bytes) → WorkerEvent Json → Result Bytes → Rows Json Cost
  apply_named source_of event (err e) = rows
  apply_named source_of event (ok job_id) =
      if not (bounded_identifier job_id max_job_id_bytes)
      then rows
      else persist_handled (handle_event source_of job_id event)

  unfoldable pub apply_event : Bool → (Bytes → Result Bytes) → WorkerEvent Json → Rows Json Cost
  unfolding handle_event persist
  apply_event stopped source_of event =
      if stopped
        || not (starts_with (codes "worker.job.") event.type)
        || not (json.is_object event.payload)
      then rows
      else apply_named source_of event (json.text_member event.payload "job_id" [])
