-- ===== src/Tests/Coordination.antt =====
-- Tests of src/storage/coordination.cpp.
use laso.Base.{
  ℕ, ◌+◌, ◌≤◌, ◌<◌, String, ◌≡◌, ◌≢◌, refl, true, false, some, [], ◌∷◌, ltb, str_eq, arith,
}
use laso.Core.Errors.{Result, ok}
use laso.Maps.{lookup}
use laso.Coordination.{
  LeaseRecord, LeaseRow, Database, Coordination, is_held, is_active, read_lease, fresh_row,
  new_instance, take_lease, acquire, renew, release, require_current,
}
use laso.Coordination.Grants.{acquire_grants}
use laso.Coordination.Fencing.{
  renews, acquires, History, begin, next, Any, Others, newer_lease_fences, lease_is_exclusive,
}

abbrev client : String → Coordination
client owner = record {
  owner = owner;
  acquisition_failures = 0;
  renewal_failures = 0;
  fencing_rejections = 0;
}

-- Instance "one" holds "run:1" with token 3 until the time 100.
abbrev tables : Database
tables = record {
  leases =
      ("run:1", record { owner = "one"; token = 3; acquired = 0; heartbeat = 0; expires = 100 })
      ∷ [];
  instances =
      ("one", new_instance "one" 0 "1.0" "" "ACTIVE")
      ∷ ("two", new_instance "two" 0 "1.0" "" "ACTIVE")
      ∷ [];
}

abbrev first_lease : LeaseRecord
first_lease = record {
  resource_key = "run:1";
  owner_instance = "one";
  fencing_token = 3;
  acquired_at = 0;
  heartbeat_at = 0;
  expires_at = 100;
  active = true;
}

abbrev second_lease : LeaseRecord
second_lease = read_lease "run:1" (fresh_row "two" 4 200 50) 200

second_acquires : (acquire (client "two") tables (ok tt) 200 "run:1" 50).2 ≡ ok (some second_lease)
unfolding acquire take_lease lookup
second_acquires = refl

acquire_grants_example :
    let d' = (acquire (client "two") tables (ok tt) 200 "run:1" 50).1 in
    (second_lease.owner_instance ≡ (client "two").owner)
    × (is_active (lookup "two" tables.instances) ≡ true)
    × ((old : LeaseRow)
        → lookup "run:1" tables.leases ≡ some old
        → (old.expires ≤ 200) × (4 ≡ old.token + 1))
    × ((t : ℕ) → is_held second_lease t (lookup "run:1" d'.leases) ≡ ltb t 250)
    × ((r : String) → str_eq "run:1" r ≡ false → lookup r d'.leases ≡ lookup r tables.leases)
acquire_grants_example =
    acquire_grants (client "two") tables 200 "run:1" 50 second_lease (ok tt) second_acquires

-- The first instance comes back and tries to renew its lease.
late_renewal :
    History Any 200
      (acquire (client "two") tables (ok tt) 200 "run:1" 50).1
      300
      (renew
        (client "one")
        (acquire (client "two") tables (ok tt) 200 "run:1" 50).1
        (ok tt)
        300
        first_lease
        50).1
late_renewal = next begin (client "one") 300 (ground arith) tt (renews (ok tt) first_lease 50)

newer_lease_fences_example :
    let d' =
      (renew
        (client "one")
        (acquire (client "two") tables (ok tt) 200 "run:1" 50).1
        (ok tt)
        300
        first_lease
        50).1 in
    ((require_current (client "one") d' (ok tt) 300 first_lease).1 ≢ ok tt)
    × ((renew (client "one") d' (ok tt) 300 first_lease 60).3 ≢ ok true)
    × ((release (client "one") d' (ok tt) 300 first_lease).1 ≢ ok true)
newer_lease_fences_example =
    newer_lease_fences (client "two") tables (ok tt) 200 "run:1" 50 second_lease second_acquires
      first_lease refl (ground arith) 300
      (renew (client "one") (acquire (client "two") tables (ok tt) 200 "run:1" 50).1 (ok tt) 300
        first_lease 50).1
      late_renewal (client "one") (ok tt) 60

abbrev first_row : LeaseRow
first_row = record { owner = "one"; token = 3; acquired = 0; heartbeat = 0; expires = 100 }

-- The second instance tries to take the resource too early.
early_attempt :
    History
      (Others first_lease 100)
      10
      tables
      20
      (acquire (client "two") tables (ok tt) 20 "run:1" 50).1
early_attempt =
    next begin (client "two") 20 (ground arith) (refl, ground arith) (acquires (ok tt) "run:1" 50)

lease_is_exclusive_example :
    let d' = (acquire (client "two") tables (ok tt) 20 "run:1" 50).1 in
    (lookup "run:1" d'.leases ≡ some first_row)
    × (is_held first_lease 20 (lookup "run:1" d'.leases) ≡ true)
    × ((c : Coordination) (answer : Result (Unit {0})) (now ttl : ℕ) (new : LeaseRecord)
        → now < 100
        → (acquire c d' answer now "run:1" ttl).2 ≢ ok (some new))
unfolding lookup
lease_is_exclusive_example =
    lease_is_exclusive first_lease first_row 10 tables refl refl 20
      (acquire (client "two") tables (ok tt) 20 "run:1" 50).1 early_attempt
