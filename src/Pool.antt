-- ===== src/Pool.antt =====
-- src/storage/postgres_pool.cpp and include/laso/storage/postgres_pool.hpp: the pool of connections and
-- its leases. `C` stands for pqxx::connection. What `connect` answers is an argument, after the `catch`
-- clauses have turned it into an `Error`; `is_open` is that of the connection at the time of the call.
-- Each operation holds the mutex: `acquire` is modelled from the end of its wait on.
pub mod Slots
pub mod Leases
pub mod Capacity
use laso.Base.{
  ℕ, zero, suc, ◌+◌, ◌%◌, ◌^◌, Bool, true, false, not, ◌&&◌, ◌||◌, Option, none, some, List, [],
  ◌∷◌, ◌++◌, ltb, leb, ◌==◌, all, length, get_elem?, if◌then◌else◌,
}
use laso.Core.Errors.{ErrorCode, Result, ok, err, throw, throw_if, ◌>>=◌, ◌>>◌}
use laso.Pipeline.Reference.{Bytes, alnum}

pub record PostgresPoolOptions : Type 0 where
  pub min_connections : ℕ
  pub max_connections : ℕ
  pub acquisition_timeout_ms : ℕ

pub record PostgresPoolDiagnostics : Type 0 where
  pub size : ℕ
  pub in_use : ℕ
  pub acquisition_timeouts : ℕ
  pub replacements : ℕ

pub record Slot (C : Type 0) : Type 0 where
  pub connection : Option C
  pub in_use : Bool

-- Lease::State, less the texts that only `connect` reads, the mutex and the condition variable.
pub record Pool (C : Type 0) : Type 0 where
  pub options : PostgresPoolOptions
  pub slots : List (Slot C)
  pub shutting_down : Bool
  pub acquisition_timeouts : ℕ
  pub replacements : ℕ

-- A lease; `none` is the index static_cast<std::size_t>(-1) of one that was moved from.
pub record Lease : Type 0 where
  pub index : Option ℕ
  pub broken : Bool

abbrev pub lease_of : ℕ → Lease
lease_of i = record { index = some i; broken = false }

abbrev alpha : ℕ → Bool
alpha c = (leb 65 c && leb c 90) || (leb 97 c && leb c 122)

-- The two guards of validate_schema, the second for each character.
unfoldable pub valid_schema : Bytes → Bool
valid_schema [] = false
valid_schema (c ∷ cs) =
    leb (length (c ∷ cs)) 63 && alpha c && all (λ ch. alnum ch || ch == 95) (c ∷ cs)

unfoldable pub validate_schema : Bytes → Result (Unit {0})
validate_schema schema =
    throw_if (not (valid_schema schema)) ErrorCode.configuration "Invalid PostgreSQL schema"

unfoldable pub invalid_limits : PostgresPoolOptions → Bool
invalid_limits o =
    o.min_connections == 0
    || ltb o.max_connections o.min_connections
    || ltb 64 o.max_connections
    || o.acquisition_timeout_ms == 0
    || ltb 60000 o.acquisition_timeout_ms

abbrev pub is_empty : Bytes → Bool
is_empty [] = true
is_empty (c ∷ cs) = false

module _ {C : Type 0} where
  -- The loop of the constructor, with the rounds that it still has to do; `connected` answers each.
  unfoldable pub open_slots : (ℕ → Result C) → ℕ → Result (List (Slot C))
  open_slots connected zero = ok []
  open_slots connected (suc n) = connected n >>= λ c.
      open_slots connected n >>= λ rest. ok (record { connection = some c; in_use = false } ∷ rest)

  abbrev pub fresh_pool : PostgresPoolOptions → List (Slot C) → Pool C
  fresh_pool options slots = record {
    options = options;
    slots = slots;
    shutting_down = false;
    acquisition_timeouts = 0;
    replacements = 0;
  }

  unfoldable pub open_pool : Bytes → Bytes → PostgresPoolOptions → (ℕ → Result C) → Result (Pool C)
  open_pool dsn schema options connected =
      throw_if (is_empty dsn) ErrorCode.configuration "PostgreSQL DSN is required"
      >> (throw_if (invalid_limits options) ErrorCode.configuration
            "Invalid PostgreSQL connection pool limits"
          >> (validate_schema schema
              >> (open_slots connected options.min_connections >>= λ slots.
                  ok (fresh_pool options slots))))

  -- The destructor of the pool; leases keep the state alive.
  unfoldable pub shut_down : Pool C → Pool C
  shut_down p = record p { shutting_down = true }

  -- The first slot that is not in use, with its connection.
  unfoldable pub free_slot : List (Slot C) → Option (ℕ × Option C)
  free_slot [] = none
  free_slot (s ∷ ss) =
      let rest = free_slot ss in
      if not s.in_use
      then some (0, s.connection)
      else elim rest [ none ↦ none | some (i, c) ↦ some (suc i, c) ]

  unfoldable pub put_slot : ℕ → Slot C → List (Slot C) → List (Slot C)
  put_slot i new [] = []
  put_slot zero new (s ∷ ss) = new ∷ ss
  put_slot (suc i) new (s ∷ ss) = s ∷ put_slot i new ss

  abbrev pub some_free : Option (ℕ × Option C) → Bool
  some_free none = false
  some_free (some _) = true

  unfoldable pub ready : Pool C → Bool
  ready p =
      p.shutting_down
      || some_free (free_slot p.slots)
      || ltb (length p.slots) p.options.max_connections

  abbrev pub timed_out : Pool C → Pool C × Result Lease
  timed_out p = (
    record p { acquisition_timeouts = (p.acquisition_timeouts + 1) % 2 ^ 64 },
    throw ErrorCode.capacity "PostgreSQL connection pool acquisition timed out",
  )

  abbrev pub in_use_by : C → Slot C
  in_use_by c = record { connection = some c; in_use = true }

  -- `late`: the deadline is over when a connection is to be made.
  unfoldable pub take_slot :
      Bool → Result C → Pool C → Option (ℕ × Option C) → Pool C × Result Lease
  take_slot late connected p (some (i, some c)) =
      (record p { slots = put_slot i (in_use_by c) p.slots }, ok (lease_of i))
  take_slot true connected p (some (i, none)) = timed_out p
  take_slot false (err e) p (some (i, none)) = (p, err e)
  take_slot false (ok c) p (some (i, none)) =
      (record p { slots = put_slot i (in_use_by c) p.slots }, ok (lease_of i))
  take_slot true connected p none = timed_out p
  take_slot false (err e) p none = (p, err e)
  take_slot false (ok c) p none =
      (record p { slots = p.slots ++ (in_use_by c ∷ []) }, ok (lease_of (length p.slots)))

  -- `max_wait` in milliseconds, 0 for a negative one too.
  unfoldable pub acquire_lease : ℕ → Bool → Result C → Pool C → Pool C × Result Lease
  acquire_lease max_wait late connected p =
      if max_wait == 0
      then (p, throw ErrorCode.validation "PostgreSQL pool wait must be positive")
      else if not (ready p)
      then timed_out p
      else if p.shutting_down
      then (p, throw ErrorCode.storage "PostgreSQL connection pool is shutting down")
      else take_slot late connected p (free_slot p.slots)

  -- What `broken_ || !slot.connection || !slot.connection->is_open()` leaves of a connection.
  abbrev pub kept : (C → Bool) → Bool → Option C → Option C
  kept is_open broken none = none
  kept is_open broken (some c) = if broken || not (is_open c) then none else some c

  abbrev pub replaced : Option C → ℕ → ℕ
  replaced none n = (n + 1) % 2 ^ 64
  replaced (some c) n = n

  unfoldable pub release_slot : (C → Bool) → Bool → ℕ → Option (Slot C) → Pool C → Pool C
  release_slot is_open broken i none p = p
  release_slot is_open broken i (some s) p = if not s.in_use then p else record p {
    slots =
        put_slot i (record { connection = kept is_open broken s.connection; in_use = false })
          p.slots;
    replacements = replaced (kept is_open broken s.connection) p.replacements;
  }

  -- The destructor of a lease.
  unfoldable pub release_lease : (C → Bool) → Lease → Pool C → Pool C
  release_lease is_open l p = elim l.index [
    | none ↦ p
    | some i ↦ release_slot is_open l.broken i (get_elem? p.slots i) p
  ]

  abbrev pub connection_of : Option C → Result C
  connection_of none = throw ErrorCode.storage "PostgreSQL connection pool lease is broken"
  connection_of (some c) = ok c

  unfoldable pub connection_in : Option (Slot C) → Result C
  connection_in none = throw ErrorCode.storage "PostgreSQL connection pool lease is broken"
  connection_in (some s) = connection_of s.connection

  unfoldable pub lease_connection : Lease → Pool C → Result C
  lease_connection l p = elim l.index [
    | none ↦ throw ErrorCode.storage "Invalid PostgreSQL connection pool lease"
    | some i ↦ connection_in (get_elem? p.slots i)
  ]

  unfoldable pub count_in_use : List (Slot C) → ℕ
  count_in_use [] = 0
  count_in_use (s ∷ ss) = (if s.in_use then 1 else 0) + count_in_use ss

  unfoldable pub diagnostics : Pool C → PostgresPoolDiagnostics
  diagnostics p = record {
    size = length p.slots;
    in_use = count_in_use p.slots;
    acquisition_timeouts = p.acquisition_timeouts;
    replacements = p.replacements;
  }

unfoldable pub mark_broken : Lease → Lease
mark_broken l = record l { broken = true }

unfoldable pub has_slot : Lease → Bool
has_slot l = elim l.index [ none ↦ false | some i ↦ not l.broken ]

-- The constructor that moves a lease: the new one, and what is left of the old one.
unfoldable pub move_lease : Lease → Lease × Lease
move_lease other = (other, record { index = none; broken = false })

-- The assignment of another lease of the same pool. It gives the slot of `target` back with the
-- statements of the destructor.
unfoldable pub assign_lease :
    {C : Type 0} → (C → Bool) → Lease → Lease → Pool C → Pool C × Lease × Lease
unfolding release_lease move_lease
assign_lease is_open target other p =
    let (taken, left) = move_lease other in (release_lease is_open target p, taken, left)
