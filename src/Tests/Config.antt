-- ===== src/Tests/Config.antt =====
-- Tests of src/core/config.cpp.
use laso.Base.{◌≤◌, ◌*◌, ◌<◌, ◌≡◌, refl, true, false, List, [], ◌∷◌, codes, All}
use laso.Core.Errors.{ok, is_ok}
use laso.Pipeline.Reference.{Bytes, identifier}
use laso.Security.{bytes_eq}
use laso.Config.{
  ProcessWorkerConfig, env_name, check_args, check_names, check_environment, invalid_worker_limits,
  check_process_worker, check_process_workers, is_remote, check_remote, check_processes,
}
use laso.Config.Limits.{
  check_database, check_access, loopback, invalid_artifact_service, invalid_artifact_storage,
  Config, invalid_reduction, invalid_concurrency, invalid_coordination, validate_limits,
}
use laso.Config.Consistency.{pool_options, accepted_limits}
use laso.Pool.{invalid_limits, valid_schema, validate_schema}
use laso.Coordination.{validate_ttl}
use laso.Config.Processes.{Starts, EachRemote, accepted_processes}

abbrev coder : ProcessWorkerConfig
coder = record {
  executable = codes "/usr/bin/coder";
  args = codes "--stdio" ∷ codes "-v" ∷ [];
  remote = true;
  environment_allowlist = codes "HOME" ∷ codes "PATH" ∷ [];
  environment = (codes "MODE", codes "fast") ∷ [];
  startup_timeout_ms = 5000;
  request_timeout_ms = 5000;
  interaction_timeout_ms = 300000;
}

abbrev workers : List (Bytes × ProcessWorkerConfig)
workers = (codes "coder", coder) ∷ []

workers-accepted : check_processes workers (codes "coder" ∷ []) ≡ ok tt
unfolding check_processes check_process_workers check_process_worker check_args check_names
    check_environment check_remote is_remote invalid_worker_limits env_name identifier bytes_eq
workers-accepted = refl

twice_refused : is_ok (check_processes workers (codes "coder" ∷ codes "coder" ∷ [])) ≡ false
unfolding check_processes check_process_workers check_process_worker check_args check_names
    check_environment check_remote is_remote invalid_worker_limits env_name identifier bytes_eq
twice_refused = refl

accepted_processes_example : All Starts workers × EachRemote workers [] (codes "coder" ∷ [])
accepted_processes_example = accepted_processes workers (codes "coder" ∷ []) workers-accepted

abbrev settings : Config
settings = record {
  session_context_reduction_enabled = true;
  session_context_reducer = codes "recent_turns";
  postgres_dsn = codes "postgresql:";
  postgres_schema = codes "public";
  api_host = "127.0.0.1";
  artifact_service_host = "::1";
  allow_remote_api = false;
  log_level = "info";
  artifact_service_url = [];
  artifact_service_token = [];
  max_artifact_bytes = 268435456;
  max_artifact_temp_bytes = 536870912;
  artifact_cleanup_grace_seconds = 3600;
  api_port = 8080;
  artifact_service_port = 0;
  max_session_sse_streams = 16;
  workers = 4;
  max_runs = 16;
  max_nodes = 64;
  max_nodes_per_run = 8;
  max_models = 8;
  max_tools = 8;
  max_subpipeline_depth = 8;
  max_pending_scheduler_launches = 64;
  max_event_trigger_depth = 8;
  max_event_trigger_deliveries = 1000;
  max_worker_jobs = 32;
  max_worker_jobs_per_worker = 8;
  max_worker_wall_time_ms = 0;
  max_worker_tokens_per_run = 0;
  cost_out_of_range = false;
  postgres_pool_min_connections = 1;
  postgres_pool_max_connections = 4;
  postgres_pool_acquisition_timeout_ms = 1000;
  coordination_lease_ttl_ms = 30000;
  coordination_heartbeat_interval_ms = 10000;
  instance_stale_after_ms = 60000;
  claim_batch_size = 16;
  max_pending_runs = 1000;
  session_context_reduction_target_bytes = 32768;
  session_context_reduction_threshold_bytes = 65536;
  session_context_reduction_max_input_bytes = 1048576;
  session_context_reduction_timeout_ms = 30000;
}

settings-accepted : validate_limits settings ≡ ok tt
unfolding validate_limits check_database invalid_artifact_service invalid_artifact_storage
    check_access invalid_reduction invalid_concurrency invalid_coordination identifier valid_schema
settings-accepted = refl

accepted_limits_example :
    (invalid_limits (pool_options settings) ≡ false)
    × (validate_schema settings.postgres_schema ≡ ok tt)
    × (validate_ttl settings.coordination_lease_ttl_ms ≡ ok tt)
    × (2 * settings.coordination_heartbeat_interval_ms < settings.coordination_lease_ttl_ms)
    × (settings.coordination_lease_ttl_ms ≤ settings.instance_stale_after_ms)
    × (settings.max_artifact_bytes ≤ settings.max_artifact_temp_bytes)
    × (settings.allow_remote_api ≡ false → loopback settings.api_host ≡ true)
accepted_limits_example = accepted_limits settings settings-accepted
