-- ===== src/Config/Limits.antt =====
-- src/core/config.cpp, `Config::validate`: the guards on numbers, on the PostgreSQL schema and on the
-- hosts. A double is known by the one test on it, `cost_out_of_range`.
use laso.Base.{◌^◌, length, ℕ, ◌/◌, ◌*◌, Bool, not, ◌&&◌, ◌||◌, String, str_eq, leb, ltb, ◌==◌}
use laso.Core.Errors.{ErrorCode, Result, throw_if, ◌>>◌}
use laso.Pipeline.Reference.{Bytes, identifier}
use laso.Pool.{valid_schema, is_empty}

-- The settings that these guards read.
pub record Config : Type 0 where
  pub session_context_reduction_enabled : Bool
  pub session_context_reducer : Bytes
  pub postgres_dsn : Bytes
  pub postgres_schema : Bytes
  pub api_host : String
  pub artifact_service_host : String
  pub allow_remote_api : Bool
  pub log_level : String
  pub artifact_service_url : Bytes
  pub artifact_service_token : Bytes
  pub max_artifact_bytes : ℕ
  pub max_artifact_temp_bytes : ℕ
  pub artifact_cleanup_grace_seconds : ℕ
  pub api_port : ℕ
  pub artifact_service_port : ℕ
  pub max_session_sse_streams : ℕ
  pub workers : ℕ
  pub max_runs : ℕ
  pub max_nodes : ℕ
  pub max_nodes_per_run : ℕ
  pub max_models : ℕ
  pub max_tools : ℕ
  pub max_subpipeline_depth : ℕ
  pub max_pending_scheduler_launches : ℕ
  pub max_event_trigger_depth : ℕ
  pub max_event_trigger_deliveries : ℕ
  pub max_worker_jobs : ℕ
  pub max_worker_jobs_per_worker : ℕ
  pub max_worker_wall_time_ms : ℕ
  pub max_worker_tokens_per_run : ℕ
  pub cost_out_of_range : Bool
  pub postgres_pool_min_connections : ℕ
  pub postgres_pool_max_connections : ℕ
  pub postgres_pool_acquisition_timeout_ms : ℕ
  pub coordination_lease_ttl_ms : ℕ
  pub coordination_heartbeat_interval_ms : ℕ
  pub instance_stale_after_ms : ℕ
  pub claim_batch_size : ℕ
  pub max_pending_runs : ℕ
  pub session_context_reduction_target_bytes : ℕ
  pub session_context_reduction_threshold_bytes : ℕ
  pub session_context_reduction_max_input_bytes : ℕ
  pub session_context_reduction_timeout_ms : ℕ

unfoldable pub invalid_reduction : Config → Bool
invalid_reduction c =
    not (identifier c.session_context_reducer)
    || c.session_context_reduction_target_bytes == 0
    || ltb (1024 * 1024) c.session_context_reduction_target_bytes
    || leb c.session_context_reduction_threshold_bytes c.session_context_reduction_target_bytes
    || ltb c.session_context_reduction_max_input_bytes c.session_context_reduction_threshold_bytes
    || ltb (16 * 1024 * 1024) c.session_context_reduction_max_input_bytes
    || c.session_context_reduction_timeout_ms == 0
    || ltb 300000 c.session_context_reduction_timeout_ms

-- The long guard on ports and concurrency limits, in two parts.
unfoldable pub invalid_concurrency : Config → Bool
invalid_concurrency c =
    c.api_port == 0
    || ltb 65535 c.api_port
    || ltb 65535 c.artifact_service_port
    || c.max_session_sse_streams == 0
    || ltb 128 c.max_session_sse_streams
    || c.workers == 0
    || ltb 64 c.workers
    || c.max_runs == 0
    || ltb 1024 c.max_runs
    || c.max_nodes == 0
    || ltb 4096 c.max_nodes
    || c.max_nodes_per_run == 0
    || ltb c.max_nodes c.max_nodes_per_run
    || c.max_models == 0
    || ltb 1024 c.max_models
    || c.max_tools == 0
    || ltb 1024 c.max_tools
    || c.max_subpipeline_depth == 0
    || ltb 64 c.max_subpipeline_depth
    || c.max_pending_scheduler_launches == 0
    || ltb 4096 c.max_pending_scheduler_launches
    || c.max_event_trigger_depth == 0
    || ltb 64 c.max_event_trigger_depth
    || c.max_event_trigger_deliveries == 0
    || ltb 100000 c.max_event_trigger_deliveries
    || c.max_worker_jobs == 0
    || ltb 4096 c.max_worker_jobs
    || c.max_worker_jobs_per_worker == 0
    || ltb c.max_worker_jobs c.max_worker_jobs_per_worker
    || ltb 1000000000000000 c.max_worker_wall_time_ms
    || ltb 1000000000000000 c.max_worker_tokens_per_run
    || c.cost_out_of_range

unfoldable pub invalid_coordination : Config → Bool
invalid_coordination c =
    c.postgres_pool_min_connections == 0
    || ltb c.postgres_pool_max_connections c.postgres_pool_min_connections
    || ltb 64 c.postgres_pool_max_connections
    || c.postgres_pool_acquisition_timeout_ms == 0
    || ltb 60000 c.postgres_pool_acquisition_timeout_ms
    || ltb c.coordination_lease_ttl_ms 1000
    || ltb 86400000 c.coordination_lease_ttl_ms
    || c.coordination_heartbeat_interval_ms == 0
    || leb (c.coordination_lease_ttl_ms / 2) c.coordination_heartbeat_interval_ms
    || ltb c.instance_stale_after_ms c.coordination_lease_ttl_ms
    || ltb 86400000 c.instance_stale_after_ms
    || c.claim_batch_size == 0
    || ltb 1024 c.claim_batch_size
    || c.max_pending_runs == 0
    || ltb 100000 c.max_pending_runs

abbrev pub loopback : String → Bool
loopback host = str_eq host "127.0.0.1" || str_eq host "::1"

unfoldable pub check_database : Config → Result (Unit {0})
check_database c =
    throw_if (is_empty c.postgres_dsn) ErrorCode.configuration "PostgreSQL DSN is required"
    >> throw_if (not (valid_schema c.postgres_schema)) ErrorCode.configuration
        "Invalid PostgreSQL schema"

unfoldable pub invalid_artifact_service : Config → Bool
invalid_artifact_service c =
    ltb 4096 (length c.artifact_service_token)
    || (not (is_empty c.artifact_service_url) && is_empty c.artifact_service_token)
    || (not (c.artifact_service_port == 0) && is_empty c.artifact_service_token)
    || (not (is_empty c.artifact_service_url) && not (c.artifact_service_port == 0))

unfoldable pub invalid_artifact_storage : Config → Bool
invalid_artifact_storage c =
    c.max_artifact_bytes == 0
    || ltb (4 * 2 ^ 40) c.max_artifact_bytes
    || ltb c.max_artifact_temp_bytes c.max_artifact_bytes
    || ltb (8 * 2 ^ 40) c.max_artifact_temp_bytes
    || c.artifact_cleanup_grace_seconds == 0
    || ltb (30 * 86400) c.artifact_cleanup_grace_seconds

abbrev pub known_level : String → Bool
known_level level =
    str_eq level "debug" || str_eq level "info" || str_eq level "warn" || str_eq level "error"

unfoldable pub check_access : Config → Result (Unit {0})
check_access c =
    throw_if (not (loopback c.api_host) && not c.allow_remote_api) ErrorCode.configuration
      "Non-loopback API requires allow_remote_api=true"
    >> (throw_if (not (loopback c.artifact_service_host) && not c.allow_remote_api)
          ErrorCode.configuration "Non-loopback artifact service requires allow_remote_api=true"
        >> throw_if (not (known_level c.log_level)) ErrorCode.configuration "Invalid log level")

-- These guards of `validate`, in their order; the ones on paths, modes, S3 and JSON that stand before
-- or between them are left out, so that this refuses less than the whole.
unfoldable pub validate_limits : Config → Result (Unit {0})
validate_limits c =
    throw_if (c.session_context_reduction_enabled && invalid_reduction c) ErrorCode.configuration
      "Invalid session context reduction configuration"
    >> (check_database c
        >> (throw_if (invalid_artifact_service c) ErrorCode.configuration
              "Invalid artifact service configuration"
            >> (throw_if (invalid_artifact_storage c) ErrorCode.configuration
                  "Invalid artifact storage limit"
                >> (throw_if (invalid_concurrency c || invalid_coordination c)
                      ErrorCode.configuration "Invalid port or concurrency limit"
                    >> check_access c))))
