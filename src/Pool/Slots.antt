-- ===== src/Pool/Slots.antt =====
-- src/storage/postgres_pool.cpp: the slots of a pool, when one is looked for and when one is set.
use laso.Base.{
  ℕ, zero, suc, ◌≡◌, refl, false, Option, none, some, List, [], ◌∷◌, ◌++◌, arith, ◌==◌, length,
  get_elem?, if◌then◌else◌,
}
use laso.Pool.{Slot, free_slot, put_slot}

module _ {C : Type 0} where
  -- A free slot was found, with this connection; or none is.
  abbrev pub Found : List (Slot C) → Option (ℕ × Option C) → Type 0
  Found ss none = Unit
  Found ss (some (i, c)) = get_elem? ss i ≡ some (record { connection = c; in_use = false })

  pub free_slot-Found : (ss : List (Slot C)) → Found ss (free_slot ss)
  unfolding free_slot
  free_slot-Found [] = tt
  free_slot-Found (s ∷ ss) = ground (arith, free_slot-Found ss)

  pub length-put_slot :
      (i : ℕ) (new : Slot C) (ss : List (Slot C)) → length (put_slot i new ss) ≡ length ss
  unfolding put_slot
  length-put_slot i new [] = refl
  length-put_slot zero new (s ∷ ss) = refl
  length-put_slot (suc i) new (s ∷ ss) = ground (arith, length-put_slot i new ss)

  pub put_slot-here :
      (i : ℕ) (old new : Slot C) (ss : List (Slot C))
      → get_elem? ss i ≡ some old
      → get_elem? (put_slot i new ss) i ≡ some new
  unfolding put_slot
  put_slot-here i old new [] h = cc
  put_slot-here zero old new (s ∷ ss) h = refl
  put_slot-here (suc i) old new (s ∷ ss) h = put_slot-here i old new ss h

  pub put_slot-there :
      (i j : ℕ) (new : Slot C) (ss : List (Slot C))
      → (i == j) ≡ false
      → get_elem? (put_slot i new ss) j ≡ get_elem? ss j
  unfolding put_slot
  put_slot-there i j new [] h = refl
  put_slot-there zero zero new (s ∷ ss) h = cc h
  put_slot-there zero (suc j) new (s ∷ ss) h = refl
  put_slot-there (suc i) zero new (s ∷ ss) h = refl
  put_slot-there (suc i) (suc j) new (s ∷ ss) h = put_slot-there i j new ss (ground arith)

  pub get_elem?-push :
      (new : Slot C) (ss : List (Slot C)) (j : ℕ)
      → get_elem? (ss ++ (new ∷ [])) j ≡ (if length ss == j then some new else get_elem? ss j)
  get_elem?-push new [] zero = refl
  get_elem?-push new [] (suc j) = ground arith
  get_elem?-push new (s ∷ ss) zero = ground arith
  get_elem?-push new (s ∷ ss) (suc j) = ground (arith, get_elem?-push new ss j)

  pub get_elem?-end : (ss : List (Slot C)) → get_elem? ss (length ss) ≡ none
  get_elem?-end [] = refl
  get_elem?-end (s ∷ ss) = get_elem?-end ss
