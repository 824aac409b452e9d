-- ===== src/Tests/Manager.antt =====
-- Tests of src/workers/manager.cpp: the usage of jobs, and the events of workers.
use laso.Base.{
  ℕ, String, ◌+◌, ◌≡◌, refl, true, false, Option, none, some, [], ◌∷◌, codes, str_eq, arith, ◌&&◌,
  ◌==◌, leb, ltb, if◌then◌else◌,
}
use laso.Core.Errors.{ok}
use laso.Security.{bytes_eq}
use laso.Tables.{get_row, put_row, first_rows}
use laso.Workers.{
  WorkerJobState, worker_job_terminal, valid_worker_job_transition, write_worker_job,
}
use laso.Workers.Usage.{
  WorkerUsage, JobBody, CostOps, WorkerLimits, WorkerFailureKind, total_tokens, merge_usage,
  prior_usage, budget_violation,
}
use laso.Workers.Usage.Stale.{merge_all, OnlyCounts, first_total_stays}
use laso.Workers.Manager.{
  JsonOps, Job, Rows, usage_from_json, bounded_identifier, first_bytes, rows_of, job,
  check_artifacts, check_job, commit_job, persist,
}
use laso.Workers.Manager.Events.{WorkerEvent, starts_with, progressed, handle_event, apply_event}

abbrev cost_ops : CostOps ℕ
cost_ops = record {
  zero_cost = 0;
  valid = λ x. leb x 1000;
  plus = λ x y. x + y;
  exceeds = λ x y. ltb y x;
  off = λ x. x == 0;
}

-- The value 1 is a payload whose usage is the value 2, with a total of 500 tokens.
abbrev member_of : ℕ → String → Option ℕ
member_of j name =
    if j == 1 && str_eq name "usage"
    then some 2
    else if j == 2 && str_eq name "total_tokens"
    then some 500
    else none

abbrev json_ops : JsonOps ℕ ℕ
json_ops = record {
  is_object = λ j. true;
  is_null = λ j. false;
  dump_size = λ j. 2;
  empty_object = 0;
  update = λ old new. new;
  member = member_of;
  text_member = λ j name fallback. ok (if str_eq name "job_id" then codes "j1" else fallback);
  set_member = λ j name value. ok j;
  read_uint = λ j. ok j;
  read_double = λ j. ok j;
  read_list = λ j. ok [];
}

abbrev small : WorkerLimits ℕ
small = record {
  max_active = 4;
  max_per_worker = 2;
  max_artifacts = 8;
  max_wall_time_ms = 0;
  max_tokens_per_run = 600;
  max_cost_units_per_run = 0;
}

abbrev no_usage : WorkerUsage ℕ ℕ
no_usage = record {
  queue_duration_ms = none;
  wall_duration_ms = none;
  input_tokens = none;
  output_tokens = none;
  total_tokens = none;
  tool_calls = none;
  action_count = none;
  cost_units = none;
  provider = [];
  model = [];
  executor = [];
  metadata = 0;
}

abbrev body_with : WorkerUsage ℕ ℕ → JobBody ℕ ℕ
body_with usage = record {
  worker_id = codes "w";
  run_id = codes "r";
  node_id = codes "n";
  idempotency_key = codes "k";
  external_job_id = [];
  submitted_at = [];
  started_at = [];
  completed_at = [];
  error = [];
  cancellation_error = [];
  attempt = 1;
  cancellation_target_state = WorkerJobState.cancelled;
  failure_kind = WorkerFailureKind.no_failure;
  cancellation_requested = false;
  cancellation_acknowledged = false;
  request_metadata = 0;
  result = 0;
  result_metadata = 0;
  artifacts = [];
  usage = usage;
  continuation = none;
}

abbrev using : Option ℕ → Option ℕ → Option ℕ → WorkerUsage ℕ ℕ
using input output total = record no_usage {
  input_tokens = input;
  output_tokens = output;
  total_tokens = total;
}

abbrev running_job : Job ℕ ℕ
running_job = record { id = "j1"; state = WorkerJobState.running; body = body_with no_usage }

-- The other job of the run has used 200 tokens.
abbrev jobs_of_run : Rows ℕ ℕ
jobs_of_run =
    (codes "j1", running_job)
    ∷ (
      codes "j2",
      record {
        id = "j2";
        state = WorkerJobState.completed;
        body = body_with (using (some 150) (some 50) none);
      },
    )
    ∷ []

abbrev progress : WorkerEvent ℕ
progress = record { type = codes "worker.job.progress"; source_id = codes "src"; payload = 1 }

-- 700 tokens are more than 600.
abbrev overspent_job : Job ℕ ℕ
overspent_job = record running_job {
  state = WorkerJobState.failed;
  body = record (body_with (using none none (some 500))) {
    completed_at = codes "now";
    failure_kind = WorkerFailureKind.budget_failure;
    error = codes "worker token budget exceeded";
  };
}

abbrev after_progress : WorkerLimits ℕ → Rows ℕ ℕ
after_progress m =
    apply_event json_ops cost_ops (λ x. true) m (codes "now") jobs_of_run false
      (λ worker. ok (codes "src")) progress

overspent : get_row (codes "j1") (after_progress small) ≡ some overspent_job
unfolding apply_event handle_event progressed job bounded_identifier usage_from_json merge_usage
    budget_violation total_tokens prior_usage rows_of first_rows get_row put_row bytes_eq persist
    check_job check_artifacts commit_job write_worker_job valid_worker_job_transition
    worker_job_terminal first_bytes starts_with
overspent = refl

abbrev roomy : WorkerLimits ℕ
roomy = record small { max_tokens_per_run = 700 }

abbrev served_job : Job ℕ ℕ
served_job = record running_job { body = body_with (using none none (some 500)) }

abbrev first_report : WorkerUsage ℕ ℕ
first_report = using (some 10) (some 10) none

abbrev second_report : WorkerUsage ℕ ℕ
second_report = using (some 1000000) (some 1000000) none

only_second : OnlyCounts (λ j. true) (λ old new. new) (second_report ∷ [])
unfolding OnlyCounts
only_second = (refl, tt)

first_total_stays_example :
    total_tokens
      (merge_all (λ j. true) (λ old new. new) no_usage (first_report ∷ second_report ∷ []))
    ≡ some 20
first_total_stays_example =
    first_total_stays (λ j. true) (λ old new. new) no_usage first_report 10 10 (second_report ∷ [])
      refl refl refl refl (omega arith) only_second
