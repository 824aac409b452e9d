-- ===== src/Workers/Manager.antt =====
-- src/workers/manager.cpp: how a WorkerManager keeps the rows of jobs: `persist`, the cancellation before
-- a submission, the fencing of a submission that was interrupted. src/workers/worker.cpp: the usage that
-- is read from a report. What the JSON library does is a parameter.
pub mod Events
pub mod Statuses
use laso.Base.{
  ℕ, zero, suc, ◌+◌, ◌-◌, ◌*◌, String, Bool, true, false, not, ◌&&◌, ◌||◌, Option, none, some, List,
  [], ◌∷◌, length, ltb, leb, all, codes, ◌==◌, if◌then◌else◌,
}
use laso.Core.Errors.{ErrorCode, Result, ok, err, throw, throw_if, ◌>>=◌, ◌>>◌}
use laso.Pipeline.Reference.{Bytes, is_nil, alnum}
use laso.Security.{bytes_eq}
use laso.Tables.{get_row, put_row}
use laso.Workers.{WorkerJobState, WorkerJob, worker_job_terminal, same_job_state, write_worker_job}
use laso.Workers.Usage.{
  WorkerUsage, OpaqueProviderContinuation, JobBody, WorkerLimits, WorkerFailureKind,
}

abbrev pub max_job_id_bytes : ℕ
max_job_id_bytes = 128

abbrev pub max_external_id_bytes : ℕ
max_external_id_bytes = 512

abbrev pub max_metadata_bytes : ℕ
max_metadata_bytes = 64 * 1024

abbrev pub identifier_char : ℕ → Bool
identifier_char c = alnum c || c == b'-' || c == b'_' || c == b'.' || c == b':'

unfoldable pub bounded_identifier : Bytes → ℕ → Bool
bounded_identifier value maximum =
    not (is_nil value) && leb (length value) maximum && all identifier_char value

unfoldable pub first_bytes : ℕ → Bytes → Bytes
first_bytes zero text = []
first_bytes (suc n) [] = []
first_bytes (suc n) (c ∷ cs) = c ∷ first_bytes n cs

unfoldable pub bounded_error : Bytes → Bytes
unfolding first_bytes
bounded_error value = if leb (length value) 512 then value else first_bytes 512 value

-- What the code does with JSON values. `member` finds a member of an object; `text_member` is
-- `value(name, fallback)` for a text; `set_member` is the writing of `value[name]`.
pub record JsonOps (Json Cost : Type 0) : Type 0 where
  pub is_object : Json → Bool
  pub is_null : Json → Bool
  pub dump_size : Json → ℕ
  pub empty_object : Json
  pub update : Json → Json → Json
  pub member : Json → String → Option Json
  pub text_member : Json → String → Bytes → Result Bytes
  pub set_member : Json → String → Json → Result Json
  pub read_uint : Json → Result ℕ
  pub read_double : Json → Result Cost
  pub read_list : Json → Result (List Json)

module _ {Json Cost : Type 0} (json : JsonOps Json Cost) where
  -- A member that is missing or null is not reported.
  abbrev pub optional_of : {A : Type 0} → (Json → Result A) → Option Json → Result (Option A)
  optional_of read none = ok none
  optional_of read (some j) = if json.is_null j then ok none else (read j >>= λ n. ok (some n))

  abbrev pub optional_uint : Json → String → Result (Option ℕ)
  optional_uint j name = optional_of json.read_uint (json.member j name)

  -- `valid` is `isfinite` and not below 0.
  abbrev pub read_cost : (Cost → Bool) → Json → Result Cost
  read_cost valid j = json.read_double j >>= λ x.
      throw_if (not (valid x)) ErrorCode.validation
        "Worker cost_units must be finite and non-negative"
      >> ok x

  abbrev pub member_or : Option Json → Json → Json
  member_or none fallback = fallback
  member_or (some j) fallback = j

  unfoldable pub usage_from_json : (Cost → Bool) → Json → Result (WorkerUsage Json Cost)
  usage_from_json valid j = do
    throw_if (not (json.is_object j)) ErrorCode.validation "Worker usage must be an object"
    queue_time ← optional_uint j "queue_duration_ms"
    wall_time ← optional_uint j "wall_duration_ms"
    input ← optional_uint j "input_tokens"
    output ← optional_uint j "output_tokens"
    total ← optional_uint j "total_tokens"
    calls ← optional_uint j "tool_calls"
    actions ← optional_uint j "action_count"
    cost ← optional_of (read_cost valid) (json.member j "cost_units")
    provider ← json.text_member j "provider" []
    model ← json.text_member j "model" []
    executor ← json.text_member j "executor" []
    let metadata = member_or (json.member j "metadata") json.empty_object
    throw_if (not (json.is_object metadata)) ErrorCode.validation
        "Worker usage metadata must be an object"
    ok (record {
      queue_duration_ms = queue_time;
      wall_duration_ms = wall_time;
      input_tokens = input;
      output_tokens = output;
      total_tokens = total;
      tool_calls = calls;
      action_count = actions;
      cost_units = cost;
      provider = provider;
      model = model;
      executor = executor;
      metadata = metadata;
    })

abbrev pub with_body : {Body : Type 0} → WorkerJob Body → (Body → Body) → WorkerJob Body
with_body job change = record job { body = change job.body }

abbrev pub is_some : {A : Type 0} → Option A → Bool
is_some none = false
is_some (some a) = true

abbrev pub Job : Type 0 → Type 0 → Type 0
Job Json Cost = WorkerJob (JobBody Json Cost)

abbrev pub Rows : Type 0 → Type 0 → Type 0
Rows Json Cost = List (Bytes × Job Json Cost)

abbrev pub bad_continuation : OpaqueProviderContinuation → Bool
bad_continuation k =
    is_nil k.provider_id
    || ltb 256 (length k.provider_id)
    || is_nil k.provider_version
    || ltb 128 (length k.provider_version)
    || is_nil k.state
    || ltb (64 * 1024) (length k.state)

-- The artifacts' sizes, with `total` bytes so far.
unfoldable pub check_artifacts : {Json : Type 0} → (Json → ℕ) → ℕ → List Json → Result (Unit {0})
check_artifacts dump_size total [] = ok tt
check_artifacts dump_size total (artifact ∷ rest) =
    throw_if (ltb (64 * 1024) (dump_size artifact) || ltb (64 * 1024 - dump_size artifact) total)
      ErrorCode.validation "Worker artifact metadata exceeds limit"
    >> check_artifacts dump_size (total + dump_size artifact) rest

module _ {Json Cost : Type 0} where
  -- The rows of a run, or all of them where no run is named.
  unfoldable pub rows_of : Bytes → Rows Json Cost → Rows Json Cost
  rows_of run_id [] = []
  rows_of run_id ((key, row) ∷ rest) =
      let others = rows_of run_id rest in
      if is_nil run_id || bytes_eq row.body.run_id run_id then (key, row) ∷ others else others

  unfoldable pub job : Bytes → Rows Json Cost → Result (Job Json Cost)
  unfolding bounded_identifier
  job id rows =
      throw_if (not (bounded_identifier id max_job_id_bytes)) ErrorCode.validation
        "Invalid worker job id"
      >> elim (get_row id rows) [
        | none ↦ throw ErrorCode.not_found "Record not found"
        | some row ↦ ok row
      ]

  unfoldable pub apply_continuation :
      Option OpaqueProviderContinuation → Job Json Cost → Result (Job Json Cost)
  apply_continuation none value = ok value
  apply_continuation (some k) value =
      throw_if (bad_continuation k) ErrorCode.plugin "Worker returned invalid continuation state"
      >> ok (with_body value (λ b. record b { continuation = some k }))

  -- What `persist` makes of the value.
  abbrev pub persisted : Job Json Cost → Job Json Cost
  persisted value = with_body value (λ b. record b {
    error = first_bytes 512 b.error;
    cancellation_error = first_bytes 512 b.cancellation_error;
    continuation =
        if same_job_state value.state WorkerJobState.completed then b.continuation else none;
  })

  -- The commit of one row, with the guard of write_records.
  unfoldable pub commit_job : Rows Json Cost → Job Json Cost → Result (Rows Json Cost)
  unfolding write_worker_job
  commit_job rows value = write_worker_job (get_row (codes value.id) rows) value >>= λ row.
      ok (put_row (codes value.id) row rows)

  -- The checks of `persist`.
  unfoldable pub check_job : (Json → ℕ) → WorkerLimits Cost → Job Json Cost → Result (Unit {0})
  unfolding check_artifacts
  check_job dump_size m value =
      check_artifacts dump_size 0 value.body.artifacts
      >> throw_if
          (ltb (1024 * 1024) (dump_size value.body.result)
            || ltb max_metadata_bytes (dump_size value.body.result_metadata)
            || ltb m.max_artifacts (length value.body.artifacts))
          ErrorCode.validation "Worker result exceeds limit"
      >> throw_if (ltb (64 * 1024) (dump_size value.body.usage.metadata)) ErrorCode.validation
          "Worker usage metadata exceeds limit"

  unfoldable pub persist :
      (Json → ℕ) → WorkerLimits Cost → Rows Json Cost → Job Json Cost → Result (Rows Json Cost)
  unfolding check_job commit_job first_bytes
  persist dump_size m rows value = check_job dump_size m value >> commit_job rows (persisted value)

  -- The id of a job that crosses the dispatch boundary is not known yet.
  unfoldable pub fence_stale_submission :
      (Json → ℕ)
      → WorkerLimits Cost
      → (submitting : Bool) → Rows Json Cost
      → Job Json Cost
      → Result (Rows Json Cost)
  unfolding persist
  fence_stale_submission dump_size m submitting rows value =
      if not (same_job_state value.state WorkerJobState.submitting)
        || not (is_nil value.body.external_job_id)
        || submitting
      then ok rows
      else persist dump_size m rows (record value {
        state = WorkerJobState.unknown;
        body = record (value.body) {
          error =
              codes
                "Worker submission was interrupted before its external job ID was recorded; the outcome is unknown and it will not be resubmitted";
        };
      })

  unfoldable pub finalize_pending_cancellation :
      (Json → ℕ) → WorkerLimits Cost → Bytes → Bytes → Rows Json Cost → Result (Rows Json Cost)
  unfolding job persist worker_job_terminal
  finalize_pending_cancellation dump_size m now id rows = job id rows >>= λ value.
      if worker_job_terminal value.state
        || not value.body.cancellation_requested
        || not (is_nil value.body.external_job_id)
      then ok rows
      else persist dump_size m rows (record value {
        state = value.body.cancellation_target_state;
        body = record (value.body) {
          cancellation_acknowledged = true;
          cancellation_error = [];
          completed_at = now;
        };
      })
