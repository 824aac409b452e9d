-- ===== src/Config/Consistency.antt =====
-- src/core/config.cpp, src/storage/postgres_pool.cpp and src/storage/coordination.cpp: what the guards of
-- `Config::validate` promise to the parts that read the settings.
use laso.Base.{◌*◌, ◌≤◌, ◌<◌, ◌≡◌, refl, true, false, not, ◌||◌, ◌&&◌, arith}
use laso.Core.Errors.{ok, guard-eq-ok, then-eq-ok, throw_if-eq-ok, then-eq-ok, throw_if-eq-ok}
use laso.Config.Limits.{
  Config, invalid_reduction, invalid_concurrency, invalid_coordination, validate_limits,
  check_database, check_access, loopback, invalid_artifact_service, invalid_artifact_storage,
}
use laso.Coordination.{validate_ttl}
use laso.Pool.{PostgresPoolOptions, is_empty, valid_schema, validate_schema, invalid_limits}

-- The options that the settings give to the pool.
abbrev pub pool_options : Config → PostgresPoolOptions
pool_options c = record {
  min_connections = c.postgres_pool_min_connections;
  max_connections = c.postgres_pool_max_connections;
  acquisition_timeout_ms = c.postgres_pool_acquisition_timeout_ms;
}

second_false : (a b : _) → (a || b) ≡ false → b ≡ false
second_false true b h = cc h
second_false false b h = h

-- Settings that pass the guards of `validate_limits` are accepted by the pool of connections, its limits
-- and its schema, and by the leases as their time to live; two heartbeats fit into one lease, and an
-- instance counts as stale no sooner than its leases expire; the largest artifact fits into the temporary
-- space; and without `allow_remote_api` the host of the API is a loopback address.
pub accepted_limits :
    (c : Config)
    → validate_limits c ≡ ok tt
    → (invalid_limits (pool_options c) ≡ false)
      × (validate_schema c.postgres_schema ≡ ok tt)
      × (validate_ttl c.coordination_lease_ttl_ms ≡ ok tt)
      × (2 * c.coordination_heartbeat_interval_ms < c.coordination_lease_ttl_ms)
      × (c.coordination_lease_ttl_ms ≤ c.instance_stale_after_ms)
      × (c.max_artifact_bytes ≤ c.max_artifact_temp_bytes)
      × (c.allow_remote_api ≡ false → loopback c.api_host ≡ true)
unfolding validate_limits check_database invalid_coordination invalid_artifact_storage check_access
    invalid_limits validate_schema
accepted_limits c h =
    let (_, h1) =
      guard-eq-ok (c.session_context_reduction_enabled && invalid_reduction c) _ _ _ h in
    let (database, h2) = then-eq-ok (check_database c) _ h1 in
    let (_, schema) = guard-eq-ok (is_empty c.postgres_dsn) _ _ _ database in
    let (_, h3) = guard-eq-ok (invalid_artifact_service c) _ _ _ h2 in
    let (storage, h4) = guard-eq-ok (invalid_artifact_storage c) _ _ _ h3 in
    let (limits, access) =
      guard-eq-ok (invalid_concurrency c || invalid_coordination c) _ _ (check_access c) h4 in
    let (local, _) =
      guard-eq-ok (not (loopback c.api_host) && not c.allow_remote_api) _ _ _ access in
    let good = second_false (invalid_concurrency c) (invalid_coordination c) limits in
    (
      ground (arith, good),
      rw (throw_if-eq-ok (not (valid_schema c.postgres_schema)) _ _ schema) refl,
      ground (arith, good),
      ground (arith, good),
      ground (arith, good),
      ground (arith, storage),
      λ closed. ground (arith, local, closed),
    )
