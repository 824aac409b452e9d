-- ===== src/Pool/Leases.antt =====
-- src/storage/postgres_pool.cpp: what leases a pool has given out and not got back, over any sequence of
-- its operations.
use laso.Base.{
  ℕ, zero, suc, ◌+◌, ◌-◌, ◌≤◌, ◌<◌, ◌≡◌, refl, inl, inr, Bool, true, false, not, Option, none, some,
  List, [], ◌∷◌, ◌++◌, subst, ap, arith, ◌==◌, length, length-append, get_elem?, if◌then◌else◌,
  if-elim, Bool-cases,
}
use laso.Core.Errors.{Result, ok, err, is_ok, guard-eq-ok, then-eq-ok, bind-eq-ok}
use laso.Pipeline.Reference.{Bytes}
use laso.Pool.{
  PostgresPoolOptions, Slot, Pool, Lease, invalid_limits, validate_schema, is_empty, open_slots,
  open_pool, shut_down, free_slot, put_slot, ready, take_slot, acquire_lease, release_slot,
  release_lease, assign_lease, move_lease, connection_in, connection_of, fresh_pool,
  lease_connection, in_use_by,
}
use laso.Pool.Slots.{
  Found, free_slot-Found, length-put_slot, put_slot-here, put_slot-there, get_elem?-push,
  get_elem?-end,
}

-- How many leases of each slot are out, when one of slot `i` is given out and when one is got back.
abbrev pub one_more : ℕ → (ℕ → ℕ) → ℕ → ℕ
one_more i out j = if i == j then out i + 1 else out j

abbrev pub one_less : ℕ → (ℕ → ℕ) → ℕ → ℕ
one_less i out j = if i == j then out i - 1 else out j

abbrev pub given : Result Lease → (ℕ → ℕ) → ℕ → ℕ
given (err e) out = out
given (ok l) out = elim l.index [ none ↦ out | some i ↦ one_more i out ]

-- The pools that a sequence of operations reaches, and the leases that are out then. A lease that
-- is out is destroyed or assigned over once, and may have been marked as broken before.
pub data Reaches {C : Type 0} : Pool C → (ℕ → ℕ) → Type 0 where
  opened :
      {p : Pool C} (dsn schema : Bytes) (options : PostgresPoolOptions) (connected : ℕ → Result C)
      → open_pool dsn schema options connected ≡ ok p
      → Reaches p (λ i. 0)
  closed : {p : Pool C} {out : ℕ → ℕ} → Reaches p out → Reaches (shut_down p) out
  acquired :
      {p : Pool C} {out : ℕ → ℕ} (max_wait : ℕ) (late : Bool) (connected : Result C)
      → Reaches p out
      → Reaches
          (acquire_lease max_wait late connected p).0
          (given (acquire_lease max_wait late connected p).1 out)
  released :
      {p : Pool C} {out : ℕ → ℕ} (is_open : C → Bool) (i : ℕ) (broken : Bool)
      → Reaches p out
      → 0 < out i
      → Reaches
          (release_lease is_open (record { index = some i; broken = broken }) p)
          (one_less i out)
  assigned :
      {p : Pool C} {out : ℕ → ℕ} (is_open : C → Bool) (i : ℕ) (broken : Bool) (other : Lease)
      → Reaches p out
      → 0 < out i
      → Reaches
          (assign_lease is_open (record { index = some i; broken = broken }) other p).0
          (one_less i out)

module _ {C : Type 0} where
  abbrev Connects : Option C → Type 0
  Connects none = ⊥
  Connects (some c) = Unit

  abbrev FitsUse : Bool → Option C → ℕ → Type 0
  FitsUse true c n = (n ≡ 1) × Connects c
  FitsUse false c n = n ≡ 0

  abbrev Fits : Option (Slot C) → ℕ → Type 0
  Fits none n = n ≡ 0
  Fits (some s) n = FitsUse s.in_use s.connection n

  abbrev Owned : List (Slot C) → (ℕ → ℕ) → Type 0
  Owned ss out = (j : ℕ) → Fits (get_elem? ss j) (out j)

  abbrev IsSound : Pool C → (ℕ → ℕ) → Type 0
  IsSound p out = (length p.slots ≤ p.options.max_connections) × Owned p.slots out

  Owned-put :
      (ss : List (Slot C)) (out : ℕ → ℕ) (i : ℕ) (old new : Slot C) (n : ℕ)
      → get_elem? ss i ≡ some old
      → Fits (some new) n
      → Owned ss out
      → (j : ℕ) → Fits (get_elem? (put_slot i new ss) j) (if i == j then n else out j)
  Owned-put ss out i old new n f fits h j = elim (Bool-cases (i == j)) [
    | inl same ↦
        let at_j : i ≡ j = ground (arith, same) in
        let here : get_elem? (put_slot i new ss) j ≡ some new =
          subst (λ k. get_elem? (put_slot i new ss) k ≡ some new) at_j
            (put_slot-here i old new ss f) in
        rw (here, same) fits
    | inr other ↦ rw (put_slot-there i j new ss other, other) (h j)
  ]

  free_count :
      (ss : List (Slot C)) (out : ℕ → ℕ) (i : ℕ) (o : Option C)
      → Found ss (some (i, o))
      → Owned ss out
      → out i ≡ 0
  free_count ss out i o f h = rw f at (h i)

  Owned-Found :
      (ss : List (Slot C)) (out : ℕ → ℕ) (i : ℕ) (o : Option C) (c : C)
      → Found ss (some (i, o))
      → Owned ss out
      → Owned (put_slot i (in_use_by c) ss) (one_more i out)
  Owned-Found ss out i o c f h =
      Owned-put ss out i _ (in_use_by c) (out i + 1) f
        (omega (arith, free_count ss out i o f h), tt) h

  Owned-push :
      (ss : List (Slot C)) (out : ℕ → ℕ) (c : C)
      → Owned ss out
      → Owned (ss ++ (in_use_by c ∷ [])) (one_more (length ss) out)
  Owned-push ss out c h j =
      let zero_out : out (length ss) ≡ 0 = rw (get_elem?-end ss) at (h (length ss)) in
      rw (get_elem?-push (in_use_by c) ss j) (elim (Bool-cases (length ss == j)) [
        | inl same ↦ rw same (omega (arith, zero_out), tt)
        | inr other ↦ rw other (h j)
      ])

  length-push : (ss : List (Slot C)) (s : Slot C) → length (ss ++ (s ∷ [])) ≡ suc (length ss)
  length-push ss s = omega (arith, length-append ss (s ∷ []))

  -- What `take_slot` keeps, when it adds a slot only below the limit.
  take_slot-IsSound :
      (late : Bool) (connected : Result C) (p : Pool C) (out : ℕ → ℕ)
      (found : Option (ℕ × Option C))
      → Found p.slots found
      → (found ≡ none → length p.slots < p.options.max_connections)
      → IsSound p out
      → IsSound
          (take_slot late connected p found).0
          (given (take_slot late connected p found).1 out)
  unfolding take_slot
  take_slot-IsSound late connected p out (some (i, some c)) f room s =
      (rw (length-put_slot i (in_use_by c) p.slots) s.0, Owned-Found p.slots out i _ c f s.1)
  take_slot-IsSound true connected p out (some (i, none)) f room s = s
  take_slot-IsSound false (err e) p out (some (i, none)) f room s = s
  take_slot-IsSound false (ok c) p out (some (i, none)) f room s =
      (rw (length-put_slot i (in_use_by c) p.slots) s.0, Owned-Found p.slots out i _ c f s.1)
  take_slot-IsSound true connected p out none f room s = s
  take_slot-IsSound false (err e) p out none f room s = s
  take_slot-IsSound false (ok c) p out none f room s =
      (omega (arith, room refl, length-push p.slots (in_use_by c)), Owned-push p.slots out c s.1)

  abbrev SoundAfter : (ℕ → ℕ) → Pool C × Result Lease → Type 0
  SoundAfter out x = IsSound x.0 (given x.1 out)

  acquire_lease-IsSound :
      (max_wait : ℕ) (late : Bool) (connected : Result C) (p : Pool C) (out : ℕ → ℕ)
      → IsSound p out
      → SoundAfter out (acquire_lease max_wait late connected p)
  unfolding acquire_lease ready
  acquire_lease-IsSound max_wait late connected p out s =
      if-elim (SoundAfter out) (max_wait == 0) _ _ (λ _. s)
        λ _.
          if-elim (SoundAfter out) (not (ready p)) _ _ (λ _. s)
            λ is_ready.
              if-elim (SoundAfter out) p.shutting_down _ _ (λ _. s)
                λ running.
                  take_slot-IsSound late connected p out (free_slot p.slots)
                    (free_slot-Found p.slots) (λ full. ground (arith, is_ready, running, full)) s

  FitsUse-used : (b : Bool) (o : Option C) (n : ℕ) → 0 < n → FitsUse b o n → (b ≡ true) × (n ≡ 1)
  FitsUse-used true o n h f = (refl, f.0)
  FitsUse-used false o n h f = ground (arith, f)

  release_slot-IsSound :
      (is_open : C → Bool) (i : ℕ) (broken : Bool) (p : Pool C) (out : ℕ → ℕ) (o : Option (Slot C))
      → get_elem? p.slots i ≡ o
      → 0 < out i
      → IsSound p out
      → IsSound (release_slot is_open broken i o p) (one_less i out)
  unfolding release_slot
  release_slot-IsSound is_open i broken p out none e held s =
      let zero_out : out i ≡ 0 = rw e at (s.1 i) in ground (arith, zero_out)
  release_slot-IsSound is_open i broken p out (some old) e held s =
      let fits : Fits (some old) (out i) = rw e at (s.1 i) in
      let (used, once) = FitsUse-used old.in_use old.connection (out i) held fits in
      rw used (
        rw (length-put_slot i _ p.slots) s.0,
        Owned-put p.slots out i old _ (out i - 1) e (omega (arith, once)) s.1,
      )

  Owned-cons :
      (s : Slot C) (ss : List (Slot C))
      → FitsUse s.in_use s.connection 0
      → Owned ss (λ i. 0)
      → Owned (s ∷ ss) (λ i. 0)
  Owned-cons s ss f h zero = f
  Owned-cons s ss f h (suc j) = h j

  open_slots-Owned :
      (connected : ℕ → Result C) (n : ℕ) (ss : List (Slot C))
      → open_slots connected n ≡ ok ss
      → (length ss ≡ n) × Owned ss (λ i. 0)
  unfolding open_slots
  open_slots-Owned connected zero ss h =
      let same : [] ≡ ss = cc h in
      subst (λ x. (length x ≡ 0) × Owned x (λ i. 0)) same (refl, λ j. refl)
  open_slots-Owned connected (suc n) ss h =
      let (c, _, h1) = bind-eq-ok (connected n) _ h in
      let (rest, h2, made) = bind-eq-ok (open_slots connected n) _ h1 in
      let same : record { connection = some c; in_use = false } ∷ rest ≡ ss = cc made in
      let (size, owned) = open_slots-Owned connected n rest h2 in
      subst (λ x. (length x ≡ suc n) × Owned x (λ i. 0)) same
        (ap suc size, Owned-cons _ rest refl owned)

  open_pool-IsSound :
      (dsn schema : Bytes) (options : PostgresPoolOptions) (connected : ℕ → Result C) (p : Pool C)
      → open_pool dsn schema options connected ≡ ok p
      → IsSound p (λ i. 0)
  unfolding open_pool invalid_limits
  open_pool-IsSound dsn schema options connected p h =
      let (_, h1) = guard-eq-ok (is_empty dsn) _ _ _ h in
      let (limits, h2) = guard-eq-ok (invalid_limits options) _ _ _ h1 in
      let (_, h3) = then-eq-ok (validate_schema schema) _ h2 in
      let (ss, opens, made) = bind-eq-ok (open_slots connected options.min_connections) _ h3 in
      let same : fresh_pool options ss ≡ p = cc made in
      let (size, owned) = open_slots-Owned connected options.min_connections ss opens in
      subst (λ x. IsSound x (λ i. 0)) same (ground (arith, size, limits), owned)

  Reaches-IsSound : {p : Pool C} {out : ℕ → ℕ} → Reaches p out → IsSound p out
  unfolding shut_down release_lease assign_lease move_lease
  Reaches-IsSound (opened {p} dsn schema options connected h) =
      open_pool-IsSound dsn schema options connected p h
  Reaches-IsSound (closed r) = Reaches-IsSound r
  Reaches-IsSound (acquired {p} {out} max_wait late connected r) =
      acquire_lease-IsSound max_wait late connected p out (Reaches-IsSound r)
  Reaches-IsSound (released {p} {out} is_open i broken r held) =
      release_slot-IsSound is_open i broken p out (get_elem? p.slots i) refl held
        (Reaches-IsSound r)
  Reaches-IsSound (assigned {p} {out} is_open i broken other r held) =
      release_slot-IsSound is_open i broken p out (get_elem? p.slots i) refl held
        (Reaches-IsSound r)

  FitsUse-Connects : (b : Bool) (o : Option C) (n : ℕ) → 0 < n → FitsUse b o n → Connects o
  FitsUse-Connects true o n h f = f.1
  FitsUse-Connects false o n h f = ground (arith, f)

  Connects-ok : (o : Option C) → Connects o → is_ok (connection_of o) ≡ true
  Connects-ok none h = ground (arith, h)
  Connects-ok (some c) h = refl

  connected_of : (o : Option (Slot C)) (n : ℕ) → 0 < n → Fits o n → is_ok (connection_in o) ≡ true
  unfolding connection_in
  connected_of none n h f = ground (arith, f)
  connected_of (some s) n h f =
      Connects-ok s.connection (FitsUse-Connects s.in_use s.connection n h f)

  FitsUse-once : (b : Bool) (o : Option C) (n : ℕ) → FitsUse b o n → n ≤ 1
  FitsUse-once true o n f = omega (arith, f.0)
  FitsUse-once false o n f = omega (arith, f)

  Fits-once : (o : Option (Slot C)) (n : ℕ) → Fits o n → n ≤ 1
  Fits-once none n f = omega (arith, f)
  Fits-once (some s) n f = FitsUse-once s.in_use s.connection n f

  -- In any pool that operations reach, no two leases of one slot are out at the same time, there are at
  -- most `max_connections` slots, and a lease that is out has a connection, whether or not it was marked
  -- as broken and whether or not the pool is shutting down.
  pub leases_are_exclusive :
      {p : Pool C} {out : ℕ → ℕ}
      → Reaches p out
      → (i : ℕ) (broken : Bool)
      → (out i ≤ 1)
        × (length p.slots ≤ p.options.max_connections)
        × (0 < out i
            → is_ok (lease_connection (record { index = some i; broken = broken }) p) ≡ true)
  unfolding lease_connection
  leases_are_exclusive {p} {out} r i broken =
      let sound = Reaches-IsSound r in
      (
        Fits-once (get_elem? p.slots i) (out i) (sound.1 i),
        sound.0,
        λ held. connected_of (get_elem? p.slots i) (out i) held (sound.1 i),
      )
