-- ===== src/Coordination/Rows.antt =====
-- src/storage/coordination.cpp: what one operation does to the row of a resource.
use laso.Base.{
  ℕ, ◌+◌, ◌≤◌, ◌<◌, ◌^◌, String, ◌≡◌, refl, subst, ◌⊎◌, inl, inr, Bool, true, false, not, Option,
  none, some, arith, ltb, leb, str_eq, eq_iff, eq_refl, Bool-cases, if-elim,
}
use laso.Core.Errors.{Result, checked-elim, ◌>>◌}
use laso.Maps.{lookup, lookup-insert}
use laso.Coordination.{
  LeaseRecord, LeaseRow, Database, Coordination, is_held, put_lease, fresh_row, take_lease, acquire,
  renew_row, renew, release_row, release, register_instance, heartbeat_instance, set_instance_state,
  validate_resource, validate_ttl, is_active,
}

abbrev pub row : String → Database → Option LeaseRow
row resource d = lookup resource d.leases

-- What an operation of the instance `who` at the time `now` may do to a row: nothing, a new row, a new
-- owner of an expired row under a higher token, or new times for a row that it holds.
abbrev pub Moves : String → ℕ → Option LeaseRow → Option LeaseRow → Type 0
Moves who now none none = Unit
Moves who now none (some n) = n.owner ≡ who
Moves who now (some o) none = ⊥
Moves who now (some o) (some n) =
    (n ≡ o)
    ⊎ ((o.expires ≤ now) × (o.token < n.token) × (n.owner ≡ who))
    ⊎ ((now < o.expires) × (o.owner ≡ who) × (n.token ≡ o.token) × (n.owner ≡ o.owner))

pub Moves-refl : (who : String) (now : ℕ) (o : Option LeaseRow) → Moves who now o o
Moves-refl who now none = tt
Moves-refl who now (some o) = inl refl

pub put_lease-same :
    (resource : String) (new : LeaseRow) (d : Database)
    → row resource (put_lease resource new d) ≡ some new
put_lease-same resource new d =
    ground (arith, lookup-insert resource resource new d.leases, eq_refl resource)

pub put_lease-other :
    (resource r : String) (new : LeaseRow) (d : Database)
    → str_eq resource r ≡ false
    → row r (put_lease resource new d) ≡ row r d
put_lease-other resource r new d other =
    ground (arith, lookup-insert resource r new d.leases, other)

put_lease-Moves :
    (who : String) (now : ℕ) (d : Database) (resource r : String) (new : LeaseRow)
    → Moves who now (row resource d) (some new)
    → Moves who now (row r d) (row r (put_lease resource new d))
put_lease-Moves who now d resource r new h = elim (Bool-cases (str_eq resource r)) [
  | inl same ↦
      let e = (eq_iff resource r).0 same in
      let found : row r (put_lease resource new d) ≡ some new =
        ground (arith, lookup-insert resource r new d.leases, same) in
      rw found (subst (λ x. Moves who now (row x d) (some new)) e h)
  | inr other ↦
      let found : row r (put_lease resource new d) ≡ row r d =
        ground (arith, lookup-insert resource r new d.leases, other) in
      rw found (Moves-refl who now (row r d))
]

take_lease-Moves :
    (c : Coordination) (d : Database) (now : ℕ) (resource : String) (ttl : ℕ) (o : Option LeaseRow)
    (r : String)
    → row resource d ≡ o
    → Moves c.owner now (row r d) (row r (take_lease c d now resource ttl o).1)
unfolding take_lease
take_lease-Moves c d now resource ttl none r e =
    put_lease-Moves c.owner now d resource r (fresh_row c.owner 1 now ttl) (rw e refl)
take_lease-Moves c d now resource ttl (some old) r e = elim (Bool-cases (ltb now old.expires)) [
  | inl held ↦ rw held (Moves-refl c.owner now (row r d))
  | inr free ↦ elim (Bool-cases (leb (2 ^ 63) (old.token + 1))) [
    | inl full ↦ rw (free, full) (Moves-refl c.owner now (row r d))
    | inr room ↦
        rw (free, room)
          (put_lease-Moves c.owner now d resource r (fresh_row c.owner (old.token + 1) now ttl)
            (rw e (inr (inl (ground (arith, free), omega arith, refl)))))
  ]
]

module _ (c : Coordination) (d : Database) (answer : Result (Unit {0})) (now : ℕ) where
  -- What may become of the row of `r`.
  abbrev Leaves : String → Database → Type 0
  Leaves r d' = Moves c.owner now (row r d) (row r d')

  same : (r : String) → Leaves r d
  same r = Moves-refl c.owner now (row r d)

  abbrev AfterAcquire : String → Coordination × Database × Result (Option LeaseRecord) → Type 0
  AfterAcquire r x = Leaves r x.1

  abbrev AfterRenew : String → Coordination × Database × LeaseRecord × Result Bool → Type 0
  AfterRenew r x = Leaves r x.1

  abbrev AfterRelease : String → Database × Result Bool → Type 0
  AfterRelease r x = Leaves r x.0

  pub acquire-Moves :
      (resource : String) (ttl : ℕ) (r : String)
      → Moves c.owner now (row r d) (row r (acquire c d answer now resource ttl).1)
  unfolding acquire
  acquire-Moves resource ttl r =
      checked-elim (AfterAcquire r) (validate_resource resource >> (validate_ttl ttl >> answer)) _ _
        (λ e _. same r)
        λ _.
          if-elim (AfterAcquire r) (is_active (lookup c.owner d.instances)) _ _
            (λ _. take_lease-Moves c d now resource ttl (row resource d) r refl) (λ _. same r)

  touched :
      (l : LeaseRecord) (old : LeaseRow) (new : LeaseRow)
      → str_eq l.owner_instance c.owner ≡ true
      → is_held l now (some old) ≡ true
      → new.token ≡ old.token
      → new.owner ≡ old.owner
      → Moves c.owner now (some old) (some new)
  touched l old new mine held t o = inr (
      inr (
        ground (arith, held),
        ground
            (arith, held, mine, eq_iff l.owner_instance c.owner, eq_iff old.owner l.owner_instance),
        t,
        o,
      ))

  renew_row-Moves :
      (l : LeaseRecord) (ttl : ℕ) (o : Option LeaseRow) (r : String)
      → str_eq l.owner_instance c.owner ≡ true
      → row l.resource_key d ≡ o
      → Leaves r (renew_row c d l now ttl o).1
  renew_row-Moves l ttl none r mine e = same r
  renew_row-Moves l ttl (some old) r mine e =
      if-elim (AfterRenew r) (is_held l now (some old)) _ _
        (λ held.
          put_lease-Moves c.owner now d l.resource_key r
            (record old { heartbeat = now; expires = now + ttl })
            (rw e (touched l old _ mine held refl refl)))
        (λ _. same r)

  release_row-Moves :
      (l : LeaseRecord) (o : Option LeaseRow) (r : String)
      → str_eq l.owner_instance c.owner ≡ true
      → row l.resource_key d ≡ o
      → Leaves r (release_row d l now o).0
  release_row-Moves l none r mine e = same r
  release_row-Moves l (some old) r mine e =
      if-elim (AfterRelease r) (is_held l now (some old)) _ _
        (λ held.
          put_lease-Moves c.owner now d l.resource_key r (record old { expires = now })
            (rw e (touched l old _ mine held refl refl)))
        (λ _. same r)

  is_mine : (b : Bool) → not b ≡ false → b ≡ true
  is_mine true h = refl
  is_mine false h = cc

  pub renew-Moves :
      (l : LeaseRecord) (ttl : ℕ) (r : String)
      → Moves c.owner now (row r d) (row r (renew c d answer now l ttl).1)
  unfolding renew
  renew-Moves l ttl r =
      checked-elim (AfterRenew r) (validate_resource l.resource_key >> validate_ttl ttl) _ _
        (λ e _. same r)
        λ _.
          if-elim (AfterRenew r) (not (str_eq l.owner_instance c.owner)) _ _ (λ _. same r)
            λ mine.
              checked-elim (AfterRenew r) answer _ _ (λ e _. same r)
                (λ _. renew_row-Moves l ttl (row l.resource_key d) r (is_mine _ mine) refl)

  pub release-Moves :
      (l : LeaseRecord) (r : String)
      → Moves c.owner now (row r d) (row r (release c d answer now l).0)
  unfolding release
  release-Moves l r =
      checked-elim (AfterRelease r) (validate_resource l.resource_key) _ _ (λ e _. same r)
        λ _.
          if-elim (AfterRelease r) (not (str_eq l.owner_instance c.owner)) _ _ (λ _. same r)
            λ mine.
              checked-elim (AfterRelease r) answer _ _ (λ e _. same r)
                (λ _. release_row-Moves l (row l.resource_key d) r (is_mine _ mine) refl)

  -- The operations on the registry of instances leave the leases alone.
  pub register_instance-leases :
      (version capabilities state : String)
      → (register_instance c d answer now version capabilities state).0.leases ≡ d.leases
  unfolding register_instance
  register_instance-leases version capabilities state = ground arith

  pub heartbeat_instance-leases :
      (state : String) → (heartbeat_instance c d answer now state).0.leases ≡ d.leases
  unfolding heartbeat_instance
  heartbeat_instance-leases state = ground arith

  pub set_instance_state-leases :
      (state : String) → (set_instance_state c d answer now state).0.leases ≡ d.leases
  unfolding set_instance_state
  set_instance_state-leases state = ground arith
