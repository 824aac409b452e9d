-- ===== src/Coordination.antt =====
-- include/laso/storage/coordination.hpp and src/storage/coordination.cpp: leases with fencing tokens,
-- and the registry of instances. Each operation is one transaction on the two tables, which SQL
-- makes atomic; times are numbers, and the calls of clock_timestamp() in one transaction read the same
-- `now`. The argument `answer` is what the pool and the database answer: an error that is thrown
-- before anything is committed, or `ok`.
pub mod Rows
pub mod Grants
pub mod Stale
pub mod Fencing
use Prim.Native.String.{len}
use laso.Base.{
  ℕ, ◌+◌, ◌%◌, ◌^◌, String, Bool, true, false, not, ◌&&◌, ◌||◌, Option, none, some, List, [], ◌∷◌,
  ltb, leb, ◌==◌, str_eq, if◌then◌else◌,
}
use laso.Core.Errors.{ErrorCode, Result, ok, err, throw, throw_if, checked, ◌>>=◌, ◌>>◌}
use laso.Maps.{lookup, insert}

pub record LeaseRecord : Type 0 where
  pub resource_key : String
  pub owner_instance : String
  pub fencing_token : ℕ
  pub acquired_at : ℕ
  pub heartbeat_at : ℕ
  pub expires_at : ℕ
  pub active : Bool

-- A row of laso_coordination_leases, whose key is the resource.
pub record LeaseRow : Type 0 where
  pub owner : String
  pub token : ℕ
  pub acquired : ℕ
  pub heartbeat : ℕ
  pub expires : ℕ

-- A row of laso_instances, whose key is the instance.
pub record InstanceRecord : Type 0 where
  pub instance_id : String
  pub started_at : ℕ
  pub last_heartbeat_at : ℕ
  pub software_version : String
  pub capabilities : String
  pub state : String

pub record Database : Type 0 where
  pub leases : List (String × LeaseRow)
  pub instances : List (String × InstanceRecord)

-- The members of `PostgresCoordination` besides its pool.
pub record Coordination : Type 0 where
  pub owner : String
  pub acquisition_failures : ℕ
  pub renewal_failures : ℕ
  pub fencing_rejections : ℕ

-- A std::uint64_t.
abbrev pub u64 : ℕ → ℕ
u64 n = n % 2 ^ 64

abbrev pub acquisition_failed : Coordination → Coordination
acquisition_failed c = record c { acquisition_failures = u64 (c.acquisition_failures + 1) }

abbrev pub renewal_failed : Coordination → Coordination
renewal_failed c = record c { renewal_failures = u64 (c.renewal_failures + 1) }

abbrev pub fencing_rejected : Coordination → Coordination
fencing_rejected c = record c { fencing_rejections = u64 (c.fencing_rejections + 1) }

abbrev pub validate_resource : String → Result (Unit {0})
validate_resource resource =
    throw_if (str_eq resource "" || ltb 256 (len resource)) ErrorCode.validation
      "Invalid coordination resource key"

abbrev pub validate_ttl : ℕ → Result (Unit {0})
validate_ttl ttl =
    throw_if (ttl == 0 || ltb 86400000 ttl) ErrorCode.validation
      "Invalid coordination lease duration"

abbrev pub known_state : String → Bool
known_state s =
    str_eq s "STARTING"
    || str_eq s "ACTIVE"
    || str_eq s "DRAINING"
    || str_eq s "DRAINED"
    || str_eq s "MAINTENANCE"
    || str_eq s "STOPPED"
    || str_eq s "STALE"

abbrev pub validate_instance_state : String → Result (Unit {0})
validate_instance_state s =
    throw_if (not (known_state s)) ErrorCode.validation "Invalid LASO instance state"

abbrev pub read_lease : String → LeaseRow → ℕ → LeaseRecord
read_lease resource row now = record {
  resource_key = resource;
  owner_instance = row.owner;
  fencing_token = row.token;
  acquired_at = row.acquired;
  heartbeat_at = row.heartbeat;
  expires_at = row.expires;
  active = ltb now row.expires;
}

-- `WHERE resource_key = … AND owner_instance = … AND fencing_token = … AND expires_at > now`
abbrev pub is_held : LeaseRecord → ℕ → Option LeaseRow → Bool
is_held l now none = false
is_held l now (some row) =
    str_eq row.owner l.owner_instance && row.token == l.fencing_token && ltb now row.expires

abbrev pub put_lease : String → LeaseRow → Database → Database
put_lease resource row d = record d { leases = insert resource row d.leases }

abbrev pub fresh_row : String → ℕ → ℕ → ℕ → LeaseRow
fresh_row owner token now ttl = record {
  owner = owner;
  token = token;
  acquired = now;
  heartbeat = now;
  expires = now + ttl;
}

-- INSERT … ON CONFLICT DO UPDATE … WHERE expires_at <= now; the column is a BIGINT.
unfoldable pub take_lease :
    Coordination
    → Database
    → ℕ
    → String
    → ℕ
    → Option LeaseRow
    → Coordination × Database × Result (Option LeaseRecord)
take_lease c d now resource ttl none =
    let row = fresh_row c.owner 1 now ttl in
    (c, put_lease resource row d, ok (some (read_lease resource row now)))
take_lease c d now resource ttl (some old) =
    if ltb now old.expires
    then (acquisition_failed c, d, ok none)
    else if leb (2 ^ 63) (old.token + 1)
    then (c, d, throw ErrorCode.storage "Coordination database operation failed")
    else let row = fresh_row c.owner (old.token + 1) now ttl in
      (c, put_lease resource row d, ok (some (read_lease resource row now)))

abbrev pub is_active : Option InstanceRecord → Bool
is_active none = false
is_active (some i) = str_eq i.state "ACTIVE"

unfoldable pub acquire :
    Coordination
    → Database
    → Result (Unit {0})
    → ℕ
    → String
    → ℕ
    → Coordination × Database × Result (Option LeaseRecord)
unfolding take_lease
acquire c d answer now resource ttl =
    checked (validate_resource resource >> (validate_ttl ttl >> answer)) (λ e. (c, d, err e))
      (if is_active (lookup c.owner d.instances)
        then take_lease c d now resource ttl (lookup resource d.leases)
        else (acquisition_failed c, d, ok none))

-- UPDATE … RETURNING; the lease that the caller passes is replaced by the row.
abbrev pub renew_row :
    Coordination
    → Database
    → LeaseRecord
    → ℕ
    → ℕ
    → Option LeaseRow
    → Coordination × Database × LeaseRecord × Result Bool
renew_row c d l now ttl none = (renewal_failed c, d, l, ok false)
renew_row c d l now ttl (some row) =
    if is_held l now (some row)
    then (let row' : LeaseRow = record row { heartbeat = now; expires = now + ttl } in
        (c, put_lease l.resource_key row' d, read_lease l.resource_key row' now, ok true))
    else (renewal_failed c, d, l, ok false)

unfoldable pub renew :
    Coordination
    → Database
    → Result (Unit {0})
    → ℕ
    → LeaseRecord
    → ℕ
    → Coordination × Database × LeaseRecord × Result Bool
renew c d answer now l ttl =
    checked (validate_resource l.resource_key >> validate_ttl ttl) (λ e. (c, d, l, err e))
      (if not (str_eq l.owner_instance c.owner)
        then (renewal_failed c, d, l, ok false)
        else checked answer (λ e. (c, d, l, err e))
            (renew_row c d l now ttl (lookup l.resource_key d.leases)))

abbrev pub release_row : Database → LeaseRecord → ℕ → Option LeaseRow → Database × Result Bool
release_row d l now none = (d, ok false)
release_row d l now (some row) =
    if is_held l now (some row)
    then (put_lease l.resource_key (record row { expires = now }) d, ok true)
    else (d, ok false)

unfoldable pub release :
    Coordination → Database → Result (Unit {0}) → ℕ → LeaseRecord → Database × Result Bool
release c d answer now l =
    checked (validate_resource l.resource_key) (λ e. (d, err e))
      (if not (str_eq l.owner_instance c.owner)
        then (d, ok false)
        else checked answer (λ e. (d, err e))
            (release_row d l now (lookup l.resource_key d.leases)))

abbrev pub inspect_row : String → ℕ → Option LeaseRow → Option LeaseRecord
inspect_row resource now none = none
inspect_row resource now (some row) = some (read_lease resource row now)

unfoldable pub inspect : Database → Result (Unit {0}) → ℕ → String → Result (Option LeaseRecord)
inspect d answer now resource = do
  validate_resource resource
  answer
  ok (inspect_row resource now (lookup resource d.leases))

unfoldable pub require_current :
    Coordination → Database → Result (Unit {0}) → ℕ → LeaseRecord → Coordination × Result (Unit {0})
require_current c d answer now l =
    checked (validate_resource l.resource_key) (λ e. (c, err e))
      (if not (str_eq l.owner_instance c.owner)
        then (
          fencing_rejected c,
          throw ErrorCode.conflict "Coordination fencing token belongs to another owner",
        )
        else checked answer (λ e. (c, err e))
            (if is_held l now (lookup l.resource_key d.leases) then (c, ok tt) else (
              fencing_rejected c,
              throw ErrorCode.conflict "Stale coordination fencing token",
            )))

abbrev pub new_instance : String → ℕ → String → String → String → InstanceRecord
new_instance owner now version capabilities state = record {
  instance_id = owner;
  started_at = now;
  last_heartbeat_at = now;
  software_version = version;
  capabilities = capabilities;
  state = state;
}

unfoldable pub register_instance :
    Coordination
    → Database
    → Result (Unit {0})
    → ℕ
    → String
    → String
    → String
    → Database × Result (Unit {0})
register_instance c d answer now version capabilities state =
    checked
      (validate_instance_state state
        >> (throw_if (ltb 128 (len version) || ltb 4096 (len capabilities)) ErrorCode.validation
              "LASO instance metadata exceeds limits"
            >> answer))
      (λ e. (d, err e))
      (
        record d {
          instances =
              insert c.owner (new_instance c.owner now version capabilities state) d.instances;
        },
        ok tt,
      )

-- UPDATE … SET last_heartbeat_at, state; `false` if there is no such row.
abbrev pub beat_row : Coordination → Database → ℕ → String → Option InstanceRecord → Database × Bool
beat_row c d now state none = (d, false)
beat_row c d now state (some i) = (
  record d {
    instances = insert c.owner (record i { last_heartbeat_at = now; state = state }) d.instances;
  },
  true,
)

unfoldable pub heartbeat_instance :
    Coordination → Database → Result (Unit {0}) → ℕ → String → Database × Result Bool
heartbeat_instance c d answer now state =
    checked (validate_instance_state state >> answer) (λ e. (d, err e))
      (let (d', found) = beat_row c d now state (lookup c.owner d.instances) in (d', ok found))

unfoldable pub set_instance_state :
    Coordination → Database → Result (Unit {0}) → ℕ → String → Database × Result (Unit {0})
set_instance_state c d answer now state =
    checked (validate_instance_state state >> answer) (λ e. (d, err e))
      (let (d', found) = beat_row c d now state (lookup c.owner d.instances) in
        (d', throw_if (not found) ErrorCode.not_found "LASO instance is not registered"))

-- `CASE WHEN stale > 0 AND last_heartbeat_at + stale <= now THEN 'STALE' ELSE state END`
abbrev pub shown_state : ℕ → ℕ → InstanceRecord → InstanceRecord
shown_state stale now i =
    if not (stale == 0) && leb (i.last_heartbeat_at + stale) now
    then record i { state = "STALE" }
    else i

abbrev pub shown_row : ℕ → ℕ → Option InstanceRecord → Option InstanceRecord
shown_row stale now none = none
shown_row stale now (some i) = some (shown_state stale now i)

unfoldable pub current_instance :
    Coordination → Database → Result (Unit {0}) → ℕ → ℕ → Result (Option InstanceRecord)
current_instance c d answer now stale = do
  throw_if (ltb 86400000 stale) ErrorCode.validation "Invalid instance stale interval"
  answer
  ok (shown_row stale now (lookup c.owner d.instances))
