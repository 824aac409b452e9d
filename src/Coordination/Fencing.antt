-- ===== src/Coordination/Fencing.antt =====
-- src/storage/coordination.cpp: leases over any history of operations of any number of instances,
-- each one transaction at a time that is not before the time of the one before.
use laso.Base.{
  ◌≢◌, ℕ, ◌≤◌, ◌<◌, String, ◌≡◌, ap, inl, inr, true, false, ◌&&◌, Option, none, some, arith, ◌==◌,
  str_eq,
}
use laso.Core.Errors.{Result, ok}
use laso.Maps.{lookup}
use laso.Coordination.{
  LeaseRecord, LeaseRow, Database, Coordination, is_held, fresh_row, acquire, renew, release,
  require_current, register_instance, heartbeat_instance, set_instance_state,
}
use laso.Coordination.Stale.{check_fails, renew_fails, release_fails}
use laso.Coordination.Grants.{acquire-took}
use laso.Coordination.Rows.{
  row, put_lease-same, Moves, Moves-refl, acquire-Moves, renew-Moves, release-Moves,
  register_instance-leases, heartbeat_instance-leases, set_instance_state-leases,
}

-- One operation of the instance that `c` belongs to, at the time `now`.
pub data Step (c : Coordination) (now : ℕ) (d : Database) : Database → Type 0 where
  acquires :
      (answer : Result (Unit {0})) (resource : String) (ttl : ℕ)
      → Step c now d (acquire c d answer now resource ttl).1
  renews :
      (answer : Result (Unit {0})) (l : LeaseRecord) (ttl : ℕ)
      → Step c now d (renew c d answer now l ttl).1
  releases :
      (answer : Result (Unit {0})) (l : LeaseRecord) → Step c now d (release c d answer now l).0
  registers :
      (answer : Result (Unit {0})) (version capabilities state : String)
      → Step c now d (register_instance c d answer now version capabilities state).0
  beats :
      (answer : Result (Unit {0})) (state : String)
      → Step c now d (heartbeat_instance c d answer now state).0
  sets :
      (answer : Result (Unit {0})) (state : String)
      → Step c now d (set_instance_state c d answer now state).0

Step-Moves :
    (c : Coordination) (now : ℕ) (d d' : Database) (r : String)
    → Step c now d d'
    → Moves c.owner now (row r d) (row r d')
Step-Moves c now d d' r (acquires answer resource ttl) = acquire-Moves c d answer now resource ttl r
Step-Moves c now d d' r (renews answer l ttl) = renew-Moves c d answer now l ttl r
Step-Moves c now d d' r (releases answer l) = release-Moves c d answer now l r
Step-Moves c now d d' r (registers answer version capabilities state) =
    rw (register_instance-leases c d answer now version capabilities state)
      (Moves-refl c.owner now (row r d))
Step-Moves c now d d' r (beats answer state) =
    rw (heartbeat_instance-leases c d answer now state) (Moves-refl c.owner now (row r d))
Step-Moves c now d d' r (sets answer state) =
    rw (set_instance_state-leases c d answer now state) (Moves-refl c.owner now (row r d))

-- The histories whose every operation, by its instance and its time, is one that `P` permits.
pub data History (P : Coordination → ℕ → Type 0) (start : ℕ) (d : Database)
    : ℕ → Database → Type 0 where
  begin : History P start d start d
  next :
      {before : ℕ} {d' d'' : Database}
      → History P start d before d'
      → (c : Coordination) (now : ℕ) → before ≤ now
      → P c now
      → Step c now d' d''
      → History P start d now d''

abbrev pub Any : Coordination → ℕ → Type 0
Any c now = Unit

-- The lease `l` is not current at the time `now`, and will not be.
abbrev Spent : LeaseRecord → ℕ → Option LeaseRow → Type 0
Spent l now none = ⊥
Spent l now (some o) = (l.fencing_token ≤ o.token) × (is_held l now (some o) ≡ false)

Moves-Spent :
    (l : LeaseRecord) (who : String) (before now : ℕ) (o n : Option LeaseRow)
    → before ≤ now
    → Moves who now o n
    → Spent l before o
    → Spent l now n
Moves-Spent l who before now none n le m s = absurd s
Moves-Spent l who before now (some o) none le m s = absurd m
Moves-Spent l who before now (some o) (some n) le m s = elim m [
  | inl same ↦ rw same (later o s)
  | inr (inl (free, newer, who_owns)) ↦ ground (arith, s, free, newer)
  | inr (inr (held, owns, token, owner)) ↦
      let wrong : str_eq o.owner l.owner_instance && o.token == l.fencing_token ≡ false =
        ground (arith, s, held, le) in
      ground (arith, s, wrong, token, owner)
]
  where
    later : (o : LeaseRow) → Spent l before (some o) → Spent l now (some o)
    later o s = ground (arith, s, le)

History-Spent :
    (l : LeaseRecord) (P : Coordination → ℕ → Type 0) (start : ℕ) (d : Database) (finish : ℕ)
    (d' : Database)
    → Spent l start (row l.resource_key d)
    → History P start d finish d'
    → Spent l finish (row l.resource_key d')
History-Spent l P start d finish d' s begin = s
History-Spent l P start d finish d' s (next {before = b} {d' = m} h c now le p step) =
    Moves-Spent l c.owner b now (row l.resource_key m) (row l.resource_key d') le
      (Step-Moves c now m d' l.resource_key step) (History-Spent l P start d b m s h)

not_held :
    (l : LeaseRecord) (now : ℕ) (o : Option LeaseRow) → Spent l now o → is_held l now o ≡ false
not_held l now none s = absurd s
not_held l now (some o) s = s.1

older-Spent :
    (l : LeaseRecord) (now : ℕ) (owner : String) (token ttl : ℕ)
    → l.fencing_token < token
    → Spent l now (some (fresh_row owner token now ttl))
older-Spent l now owner token ttl h = ground (arith, h)

-- Once an instance has acquired a resource, every lease of that resource with a smaller token is
-- fenced for good: after any history of operations of any instances, in transactions at times that
-- do not decrease, no instance can have that lease confirmed by `require_current`, renewed or released,
-- whatever the database answers.
pub newer_lease_fences :
    (c : Coordination) (d : Database) (answer : Result (Unit {0})) (now : ℕ) (resource : String)
    (ttl : ℕ) (l : LeaseRecord)
    → (acquire c d answer now resource ttl).2 ≡ ok (some l)
    → (stale : LeaseRecord) → stale.resource_key ≡ resource
    → stale.fencing_token < l.fencing_token
    → (later : ℕ) (d' : Database) → History Any now (acquire c d answer now resource ttl).1 later d'
    → (other : Coordination) (reply : Result (Unit {0})) (more : ℕ)
    → ((require_current other d' reply later stale).1 ≢ ok tt)
      × ((renew other d' reply later stale more).3 ≢ ok true)
      × ((release other d' reply later stale).1 ≢ ok true)
newer_lease_fences c d answer now resource ttl l got stale key older later d' history other reply
      more =
    let (_, _, stored, _) = acquire-took c d now resource ttl l answer got in
    let spent : Spent stale now (row stale.resource_key (acquire c d answer now resource ttl).1) =
      rw (key, stored, put_lease-same resource (fresh_row c.owner l.fencing_token now ttl) d)
        (older-Spent stale now c.owner l.fencing_token ttl older) in
    let dead = not_held stale later (row stale.resource_key d') (
      History-Spent stale Any now (acquire c d answer now resource ttl).1 later d' spent history) in
    (
      check_fails other d' reply later stale dead,
      renew_fails other d' reply later stale more dead,
      release_fails other d' reply later stale dead,
    )

-- Operations of other instances than the owner of `l`, before the time `expiry`.
abbrev pub Others : LeaseRecord → ℕ → Coordination → ℕ → Type 0
Others l expiry c now = (str_eq c.owner l.owner_instance ≡ false) × (now < expiry)

Moves-held :
    (l : LeaseRecord) (o : LeaseRow) (who : String) (now : ℕ) (n : Option LeaseRow)
    → str_eq o.owner l.owner_instance ≡ true
    → str_eq who l.owner_instance ≡ false
    → now < o.expires
    → Moves who now (some o) n
    → n ≡ some o
Moves-held l o who now none mine other before m = absurd m
Moves-held l o who now (some n) mine other before m = elim m [
  | inl same ↦ ap some same
  | inr (inl (free, _, _)) ↦ absurd (omega (arith, free, before))
  | inr (inr (_, owns, _, _)) ↦ cc (owns, mine, other)
]

History-held :
    (l : LeaseRecord) (o : LeaseRow) (start : ℕ) (d : Database) (finish : ℕ) (d' : Database)
    → str_eq o.owner l.owner_instance ≡ true
    → start < o.expires
    → row l.resource_key d ≡ some o
    → History (Others l o.expires) start d finish d'
    → (row l.resource_key d' ≡ some o) × (finish < o.expires)
History-held l o start d finish d' mine early found begin = (found, early)
History-held l o start d finish d' mine early found
      (next {before = b} {d' = m} h c now le (other, before) step) =
    let (same, _) = History-held l o start d b m mine early found h in
    let moved : Moves c.owner now (some o) (row l.resource_key d') =
      rw same at (Step-Moves c now m d' l.resource_key step) in
    (Moves-held l o c.owner now (row l.resource_key d') mine other before moved, before)

-- A lease that is current, of an instance that does nothing meanwhile, is left alone: after any history
-- of operations of other instances before its expiry the row of its resource is the same, so the lease
-- is current still, and up to the expiry no instance can acquire the resource.
pub lease_is_exclusive :
    (l : LeaseRecord) (o : LeaseRow) (start : ℕ) (d : Database)
    → lookup l.resource_key d.leases ≡ some o
    → is_held l start (some o) ≡ true
    → (finish : ℕ) (d' : Database) → History (Others l o.expires) start d finish d'
    → (lookup l.resource_key d'.leases ≡ some o)
      × (is_held l finish (lookup l.resource_key d'.leases) ≡ true)
      × ((c : Coordination) (answer : Result (Unit {0})) (now ttl : ℕ) (new : LeaseRecord)
          → now < o.expires
          → (acquire c d' answer now l.resource_key ttl).2 ≢ ok (some new))
lease_is_exclusive l o start d found held finish d' history =
    let mine : str_eq o.owner l.owner_instance ≡ true = ground (arith, held) in
    let early : start < o.expires = ground (arith, held) in
    let (same, before) = History-held l o start d finish d' mine early found history in
    (
      same,
      rw same (still o held before),
      λ c answer now ttl new in_time got.
          let (_, _, _, free) = acquire-took c d' now l.resource_key ttl new answer got in
          omega (arith, (free o same).0, in_time),
    )
  where
    still :
        (o : LeaseRow)
        → is_held l start (some o) ≡ true
        → finish < o.expires
        → is_held l finish (some o) ≡ true
    still o h t = ground (arith, h, t)
