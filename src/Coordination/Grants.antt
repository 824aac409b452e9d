-- ===== src/Coordination/Grants.antt =====
-- src/storage/coordination.cpp, `acquire`: what a client that gets a lease has got.
use laso.Base.{
  ℕ, ◌+◌, ◌≤◌, ◌^◌, String, ◌≡◌, sym, ap, true, false, ◌&&◌, Option, none, some, arith, ltb, leb,
  ◌==◌, str_eq, eq_refl, if-elim,
}
use laso.Core.Errors.{Result, ok, checked-elim, ◌>>◌}
use laso.Maps.{lookup}
use laso.Coordination.{
  LeaseRecord, LeaseRow, Database, Coordination, is_held, put_lease, fresh_row, read_lease,
  take_lease, acquire, validate_resource, validate_ttl, is_active,
}
use laso.Coordination.Rows.{row}
use laso.Coordination.Rows.{put_lease-other, put_lease-same}

module _ (c : Coordination) (d : Database) (now : ℕ) (resource : String) (ttl : ℕ)
    (l : LeaseRecord) where
  abbrev Took : Option LeaseRow → Coordination × Database × Result (Option LeaseRecord) → Type 0
  Took o x =
      x.2 ≡ ok (some l)
      → (l.resource_key ≡ resource)
        × (l.owner_instance ≡ c.owner)
        × (x.1 ≡ put_lease resource (fresh_row c.owner l.fencing_token now ttl) d)
        × ((old : LeaseRow)
            → o ≡ some old
            → (old.expires ≤ now) × (l.fencing_token ≡ old.token + 1))

  -- The lease that is read back from the row that has been written.
  written :
      (token : ℕ) (o : Option LeaseRow)
      → ((old : LeaseRow) → o ≡ some old → (old.expires ≤ now) × (token ≡ old.token + 1))
      → Took o (
        c,
        put_lease resource (fresh_row c.owner token now ttl) d,
        ok (some (read_lease resource (fresh_row c.owner token now ttl) now)),
      )
  written token o free h =
      let e : read_lease resource (fresh_row c.owner token now ttl) now ≡ l = cc h in
      let t : token ≡ l.fencing_token = ap (λ x. x.fencing_token) e in
      (
        sym (ap (λ x. x.resource_key) e),
        sym (ap (λ x. x.owner_instance) e),
        ap (λ x. put_lease resource (fresh_row c.owner x now ttl) d) t,
        λ old q. rw (sym t) (free old q),
      )

  took : (o : Option LeaseRow) → Took o (take_lease c d now resource ttl o)
  unfolding take_lease
  took none = written 1 none (λ old q. cc q)
  took (some old) =
      if-elim (Took (some old)) (ltb now old.expires) _ _ (λ held h. cc h)
        λ free.
          if-elim (Took (some old)) (leb (2 ^ 63) (old.token + 1)) _ _ (λ full h. cc h)
            (λ room. written (old.token + 1) (some old) (λ other q. ground (arith, free, q)))

  abbrev Acquired : Coordination × Database × Result (Option LeaseRecord) → Type 0
  Acquired x = Took (row resource d) x

  pub acquire-took : (answer : Result (Unit {0})) → Acquired (acquire c d answer now resource ttl)
  unfolding acquire
  acquire-took answer =
      checked-elim Acquired (validate_resource resource >> (validate_ttl ttl >> answer)) _ _
        (λ e _ h. cc h)
        λ _.
          if-elim Acquired (is_active (lookup c.owner d.instances)) _ _ (λ _. took (row resource d))
            (λ _ h. cc h)

  abbrev OnlyActive : Coordination × Database × Result (Option LeaseRecord) → Type 0
  OnlyActive x = x.2 ≡ ok (some l) → is_active (lookup c.owner d.instances) ≡ true

  only_active : (answer : Result (Unit {0})) → OnlyActive (acquire c d answer now resource ttl)
  unfolding acquire
  only_active answer =
      checked-elim OnlyActive (validate_resource resource >> (validate_ttl ttl >> answer)) _ _
        (λ e _ h. cc h)
        λ _.
          if-elim OnlyActive (is_active (lookup c.owner d.instances)) _ _ (λ active h. active)
            (λ _ h. cc h)

  -- A lease that `acquire` returns belongs to the instance that asked, which is registered as
  -- ACTIVE. Nobody held the resource: it had no row, or an expired one, whose token is one less than
  -- the new one. The database holds the lease as current at each time before its expiry and at no
  -- other, and no other resource's row has changed.
  pub acquire_grants :
      (answer : Result (Unit {0}))
      → (acquire c d answer now resource ttl).2 ≡ ok (some l)
      → let d' = (acquire c d answer now resource ttl).1 in
        (l.owner_instance ≡ c.owner)
        × (is_active (lookup c.owner d.instances) ≡ true)
        × ((old : LeaseRow)
            → lookup resource d.leases ≡ some old
            → (old.expires ≤ now) × (l.fencing_token ≡ old.token + 1))
        × ((t : ℕ) → is_held l t (lookup l.resource_key d'.leases) ≡ ltb t (now + ttl))
        × ((r : String) → str_eq resource r ≡ false → lookup r d'.leases ≡ lookup r d.leases)
  acquire_grants answer h =
      let (key, mine, stored, free) = acquire-took answer h in
      (
        mine,
        only_active answer h,
        free,
        λ t.
            rw
              (
                stored,
                key,
                put_lease-same resource (fresh_row c.owner l.fencing_token now ttl) d,
                mine,
              )
              (held_row t),
        λ r other.
            rw stored
              (put_lease-other resource r (fresh_row c.owner l.fencing_token now ttl) d other),
      )
    where
      held_row :
          (t : ℕ)
          → (str_eq c.owner c.owner && l.fencing_token == l.fencing_token && ltb t (now + ttl))
            ≡ ltb t (now + ttl)
      held_row t = ground (arith, eq_refl c.owner)
