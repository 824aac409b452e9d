-- ===== src/Pool/Capacity.antt =====
-- src/storage/postgres_pool.cpp: when a pool gives out a lease.
use laso.Base.{
  ℕ, ◌≤◌, ◌<◌, ◌≡◌, refl, ◌↔◌, ◌⊎◌, true, false, none, some, List, [], ◌∷◌, arith, length,
}
use laso.Core.Errors.{ok, is_ok}
use laso.Pool.{
  Slot, Pool, free_slot, some_free, ready, take_slot, acquire_lease, count_in_use, diagnostics,
}

module _ {C : Type 0} where
  free_slot-count :
      (ss : List (Slot C))
      → (count_in_use ss ≤ length ss)
        × ((some_free (free_slot ss) ≡ true) ↔ (count_in_use ss < length ss))
  unfolding free_slot count_in_use
  free_slot-count [] = ground arith
  free_slot-count (s ∷ ss) = ground (arith, free_slot-count ss)

  take_slot-ok : (c : C) (p : Pool C) (found : _) → is_ok (take_slot false (ok c) p found).1 ≡ true
  unfolding take_slot
  take_slot-ok c p (some (i, some old)) = refl
  take_slot-ok c p (some (i, none)) = refl
  take_slot-ok c p none = refl

  -- A pool that is not shutting down, asked with a positive wait that is not over when the connection is
  -- made, and whose database accepts a connection, gives out a lease exactly when its diagnostics show
  -- a slot that is not in use or room for another slot.
  pub acquire_serves :
      (max_wait : ℕ) (c : C) (p : Pool C)
      → 0 < max_wait
      → p.shutting_down ≡ false
      → (is_ok (acquire_lease max_wait false (ok c) p).1 ≡ true) ↔ (
          ((diagnostics p).in_use < (diagnostics p).size)
          ⊎ ((diagnostics p).size < p.options.max_connections))
  unfolding acquire_lease ready diagnostics
  acquire_serves max_wait c p positive running =
      ground
        (arith, positive, running, free_slot-count p.slots, take_slot-ok c p (free_slot p.slots))
