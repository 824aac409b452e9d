-- ===== src/Workers/Usage.antt =====
-- include/laso/workers/worker.hpp: the usage that a worker reports and the record of a job; and
-- src/workers/manager.cpp: the merging of reports and the budgets. A value of `double` and a JSON value
-- are kept as they are; what is done with them is a parameter.
pub mod Budget
pub mod Stale
use laso.Base.{
  ℕ, zero, suc, ◌+◌, ◌-◌, ◌*◌, ◌^◌, String, Bool, true, false, not, ◌&&◌, ◌||◌, Option, none, some,
  List, [], ◌∷◌, length, ltb, leb, any, codes, ◌==◌, if◌then◌else◌,
}
use laso.Core.Errors.{ErrorCode, Result, ok, throw_if}
use laso.Pipeline.Reference.{Bytes, is_nil}
use laso.Security.{bytes_eq}
use laso.Tables.{first_rows}
use laso.Workers.{WorkerJobState, WorkerJob}

pub data WorkerFailureKind : Type 0 where
  no_failure job_failure transport_failure budget_failure : WorkerFailureKind

pub record WorkerUsage (Json Cost : Type 0) : Type 0 where
  pub queue_duration_ms : Option ℕ
  pub wall_duration_ms : Option ℕ
  pub input_tokens : Option ℕ
  pub output_tokens : Option ℕ
  pub total_tokens : Option ℕ
  pub tool_calls : Option ℕ
  pub action_count : Option ℕ
  pub cost_units : Option Cost
  pub provider : Bytes
  pub model : Bytes
  pub executor : Bytes
  pub metadata : Json

pub record OpaqueProviderContinuation : Type 0 where
  pub provider_id : Bytes
  pub provider_version : Bytes
  pub state : Bytes

-- The fields of `WorkerJob` but for its id and its state.
pub record JobBody (Json Cost : Type 0) : Type 0 where
  pub worker_id : Bytes
  pub run_id : Bytes
  pub node_id : Bytes
  pub idempotency_key : Bytes
  pub external_job_id : Bytes
  pub submitted_at : Bytes
  pub started_at : Bytes
  pub completed_at : Bytes
  pub error : Bytes
  pub cancellation_error : Bytes
  pub attempt : ℕ
  pub cancellation_target_state : WorkerJobState
  pub failure_kind : WorkerFailureKind
  pub cancellation_requested : Bool
  pub cancellation_acknowledged : Bool
  pub request_metadata : Json
  pub result : Json
  pub result_metadata : Json
  pub artifacts : List Json
  pub usage : WorkerUsage Json Cost
  pub continuation : Option OpaqueProviderContinuation

-- What the code does with values of `double`: `valid` is finite, not negative and at most
-- max_usage_metric; `exceeds` is `>`; `off` is `== 0`.
pub record CostOps (Cost : Type 0) : Type 0 where
  pub zero_cost : Cost
  pub valid : Cost → Bool
  pub plus : Cost → Cost → Cost
  pub exceeds : Cost → Cost → Bool
  pub off : Cost → Bool

-- The limits that a WorkerManager is made with.
pub record WorkerLimits (Cost : Type 0) : Type 0 where
  pub max_active : ℕ
  pub max_per_worker : ℕ
  pub max_artifacts : ℕ
  pub max_wall_time_ms : ℕ
  pub max_tokens_per_run : ℕ
  pub max_cost_units_per_run : Cost

abbrev pub max_usage_metric : ℕ
max_usage_metric = 1000000000000000

-- The greatest value of 64 bits.
abbrev pub max_uint : ℕ
max_uint = 2 ^ 64 - 1

unfoldable pub check_limits : {Cost : Type 0} → CostOps Cost → WorkerLimits Cost → Result (Unit {0})
check_limits c m =
    throw_if
      (m.max_active == 0
        || ltb 4096 m.max_active
        || m.max_per_worker == 0
        || ltb m.max_active m.max_per_worker
        || m.max_artifacts == 0
        || ltb 64 m.max_artifacts
        || ltb max_usage_metric m.max_wall_time_ms
        || ltb max_usage_metric m.max_tokens_per_run
        || not (c.valid m.max_cost_units_per_run))
      ErrorCode.configuration "Invalid worker limits"

-- `if (incoming.x) target.x = incoming.x;`
abbrev pub newer : {A : Type 0} → Option A → Option A → Option A
newer (some x) old = some x
newer none old = old

abbrev pub newer_text : Bytes → Bytes → Bytes
newer_text incoming old = if is_nil incoming then old else incoming

-- The sum of two counts, unless it leaves 64 bits.
abbrev pub summed : Option ℕ → Option ℕ → Option ℕ
summed (some a) (some b) = if leb a (max_uint - b) then some (a + b) else none
summed (some a) none = none
summed none b = none

abbrev pub total_or : Option ℕ → Option ℕ → Option ℕ
total_or (some t) sum = some t
total_or none sum = sum

abbrev pub metric_exceeds : Option ℕ → Bool
metric_exceeds none = false
metric_exceeds (some n) = ltb max_usage_metric n

abbrev pub long_identity : Bytes → Bool
long_identity text = ltb 128 (length text)

-- Whether a metric is reported that is above a limit.
abbrev pub above : ℕ → Option ℕ → Bool
above limit none = false
above limit (some n) = not (limit == 0) && ltb limit n

-- `limit - prior` is of 64 bits; it is taken only where it does not wrap.
abbrev pub tokens_exceed : ℕ → ℕ → Option ℕ → Bool
tokens_exceed limit prior none = false
tokens_exceed limit prior (some k) = not (limit == 0) && (ltb limit prior || ltb (limit - prior) k)

module _ {Cost : Type 0} (c : CostOps Cost) where
  abbrev pub bad_cost : Option Cost → Bool
  bad_cost none = false
  bad_cost (some x) = not (c.valid x)

  abbrev pub add_cost : Option Cost → Cost → Cost
  add_cost none total = total
  add_cost (some x) total = c.plus total x

  -- One job of the run; `none` is a sum that leaves 64 bits.
  abbrev pub add_tokens : Option ℕ → Option Cost → ℕ × Cost → Option (ℕ × Cost)
  add_tokens none cost (tokens, total) = some (tokens, add_cost cost total)
  add_tokens (some k) cost (tokens, total) =
      if ltb (max_uint - k) tokens then none else some (tokens + k, add_cost cost total)

  abbrev pub cost_exceeds : Cost → Cost → Option Cost → Bool
  cost_exceeds limit prior none = false
  cost_exceeds limit prior (some x) = not (c.off limit) && c.exceeds (c.plus prior x) limit

module _ {Json Cost : Type 0} where
  unfoldable pub total_tokens : WorkerUsage Json Cost → Option ℕ
  total_tokens u = total_or u.total_tokens (summed u.input_tokens u.output_tokens)

  -- `update` is that of the JSON library; it is applied to objects.
  unfoldable pub merge_usage :
      (is_object : Json → Bool) (update : Json → Json → Json)
      → WorkerUsage Json Cost
      → WorkerUsage Json Cost
      → WorkerUsage Json Cost
  merge_usage is_object update target incoming =
      let input = newer incoming.input_tokens target.input_tokens in
      let output = newer incoming.output_tokens target.output_tokens in
      record {
        queue_duration_ms = newer incoming.queue_duration_ms target.queue_duration_ms;
        wall_duration_ms = newer incoming.wall_duration_ms target.wall_duration_ms;
        input_tokens = input;
        output_tokens = output;
        total_tokens =
            total_or (newer incoming.total_tokens target.total_tokens) (summed input output);
        tool_calls = newer incoming.tool_calls target.tool_calls;
        action_count = newer incoming.action_count target.action_count;
        cost_units = newer incoming.cost_units target.cost_units;
        provider = newer_text incoming.provider target.provider;
        model = newer_text incoming.model target.model;
        executor = newer_text incoming.executor target.executor;
        metadata =
            if is_object incoming.metadata
            then update target.metadata incoming.metadata
            else target.metadata;
      }

  abbrev pub metrics_exceed : WorkerUsage Json Cost → Bool
  metrics_exceed u =
      metric_exceeds u.queue_duration_ms
      || metric_exceeds u.wall_duration_ms
      || metric_exceeds u.input_tokens
      || metric_exceeds u.output_tokens
      || metric_exceeds u.total_tokens
      || metric_exceeds u.tool_calls
      || metric_exceeds u.action_count

  module _ (c : CostOps Cost) where
    unfoldable pub prior_usage :
        Bytes → List (Bytes × WorkerJob (JobBody Json Cost)) → ℕ × Cost → Option (ℕ × Cost)
    prior_usage id [] sums = some sums
    prior_usage id ((key, prior) ∷ rest) sums =
        elim (if bytes_eq (codes prior.id) id
          then some sums
          else add_tokens c (total_tokens prior.body.usage) prior.body.usage.cost_units sums) [
            | none ↦ none
            | some sums' ↦ prior_usage id rest sums'
          ]

    abbrev pub run_violation :
        WorkerLimits Cost → WorkerUsage Json Cost → Option (ℕ × Cost) → Option String
    run_violation m u none = some "worker token budget exceeded"
    run_violation m u (some (tokens, cost)) =
        if tokens_exceed m.max_tokens_per_run tokens (total_tokens u)
        then some "worker token budget exceeded"
        else if cost_exceeds c m.max_cost_units_per_run cost u.cost_units
        then some "worker cost_units budget exceeded"
        else none

    -- The first violation; the empty text of the code is `none`. `rows` are the jobs of the same run.
    unfoldable pub budget_violation :
        (Json → ℕ)
        → WorkerLimits Cost
        → List (Bytes × WorkerJob (JobBody Json Cost))
        → WorkerJob (JobBody Json Cost)
        → Option String
    budget_violation dump_size m rows value =
        let u = value.body.usage in
        if metrics_exceed u
        then some "reported worker usage exceeds the representable limit"
        else if ltb (64 * 1024) (dump_size u.metadata)
        then some "worker usage metadata exceeds the limit"
        else if long_identity u.provider || long_identity u.model || long_identity u.executor
        then some "worker usage identity exceeds the limit"
        else if bad_cost c u.cost_units
        then some "reported worker cost_units is invalid"
        else if above m.max_wall_time_ms u.wall_duration_ms
        then some "worker wall-time budget exceeded"
        else run_violation m u (
            if m.max_tokens_per_run == 0 && c.off m.max_cost_units_per_run
            then some (0, c.zero_cost)
            else prior_usage (codes value.id) (first_rows 10000 rows) (0, c.zero_cost))
