-- ===== src/Tests/Pool.antt =====
-- Tests of src/storage/postgres_pool.cpp.
use laso.Base.{
  ℕ, ◌+◌, ◌<◌, ◌≡◌, ◌≤◌, ◌↔◌, ◌⊎◌, refl, true, false, none, some, [], ◌∷◌, length, codes, arith,
}
use laso.Core.Errors.{Result, ok, is_ok}
use laso.Pool.{
  PostgresPoolOptions, Pool, lease_of, open_slots, open_pool, valid_schema, validate_schema,
  invalid_limits, fresh_pool, free_slot, put_slot, ready, take_slot, acquire_lease, release_slot,
  release_lease, lease_connection, connection_in, diagnostics, mark_broken,
}
use laso.Pool.Leases.{opened, acquired, leases_are_exclusive}
use laso.Pool.Capacity.{acquire_serves}

abbrev two_at_most : PostgresPoolOptions
two_at_most = record { min_connections = 1; max_connections = 2; acquisition_timeout_ms = 1000 }

abbrev connects : ℕ → Result ℕ
connects n = ok (7 + n)

abbrev new_pool : Pool ℕ
new_pool = fresh_pool two_at_most (record { connection = some 7; in_use = false } ∷ [])

new_pool-opened :
    open_pool (codes "postgresql:") (codes "laso_test1") two_at_most connects ≡ ok new_pool
unfolding open_pool open_slots valid_schema validate_schema invalid_limits
new_pool-opened = refl

bad_schema : valid_schema (codes "laso-test") ≡ false
unfolding valid_schema
bad_schema = refl

abbrev asked : Pool ℕ → Pool ℕ
asked p = (acquire_lease 10 false (ok 9) p).0

-- The third request finds both slots in use.
three_requests :
    (is_ok (acquire_lease 10 false (ok 9) (asked new_pool)).1 ≡ true)
    × (is_ok (acquire_lease 10 false (ok 9) (asked (asked new_pool))).1 ≡ false)
    × ((asked (asked (asked new_pool))).acquisition_timeouts ≡ 1)
    × (lease_connection (lease_of 1) (asked (asked new_pool)) ≡ ok 9)
unfolding acquire_lease ready free_slot take_slot put_slot lease_connection connection_in
three_requests = (refl, refl, refl, refl)

-- A lease that was marked as broken leaves its slot without a connection.
broken_release :
    (release_lease (λ c. true) (mark_broken (lease_of 0)) (asked new_pool)).slots
    ≡ record { connection = none; in_use = false } ∷ []
unfolding acquire_lease ready free_slot take_slot put_slot release_lease release_slot mark_broken
broken_release = refl

leases_are_exclusive_example :
    (1 ≤ 1)
    × (length (asked new_pool).slots ≤ 2)
    × (0 < 1 → is_ok (lease_connection (lease_of 0) (asked new_pool)) ≡ true)
unfolding acquire_lease ready free_slot take_slot put_slot
leases_are_exclusive_example =
    leases_are_exclusive
      (acquired 10 false (ok 9)
        (opened (codes "postgresql:") (codes "laso_test1") two_at_most connects new_pool-opened))
      0 false

acquire_serves_example : (is_ok (acquire_lease 10 false (ok 9) (asked new_pool)).1 ≡ true) ↔ (
    ((diagnostics (asked new_pool)).in_use < (diagnostics (asked new_pool)).size)
    ⊎ ((diagnostics (asked new_pool)).size < 2))
unfolding acquire_lease ready free_slot take_slot put_slot
acquire_serves_example = acquire_serves 10 9 (asked new_pool) (omega arith) refl
