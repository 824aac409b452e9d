-- ===== src/Scheduler/Cron/Fields.antt =====
-- src/scheduler/scheduler.cpp, `cron_field`: the values that a field allows.
use Prim.Native.Nat.mul
use laso.Base.{
  ℕ, zero, suc, ◌+◌, ◌-◌, ◌*◌, ◌≤◌, ◌<◌, ◌≡◌, refl, sym, ap, subst, ◌⊎◌, inl, inr, ◌↔◌, Bool, true,
  ◌||◌, List, [], ◌∷◌, arith, ltb, ◌==◌, length, le→leb, Bool-cases,
}
use laso.Scheduler.Cron.{bit, set_bit, normalized, fill}

length-set_bit : (i : ℕ) (bits : List Bool) → length (set_bit i bits) ≡ length bits
length-set_bit i [] = refl
length-set_bit zero (b ∷ bits) = refl
length-set_bit (suc i) (b ∷ bits) = ap suc (length-set_bit i bits)

bit-set_bit :
    (i v : ℕ) (bits : List Bool) → i < length bits → bit v (set_bit i bits) ≡ (i == v || bit v bits)
bit-set_bit i v [] h = absurd (omega arith)
bit-set_bit zero zero (b ∷ bits) h = refl
bit-set_bit zero (suc v) (b ∷ bits) h = ground arith
bit-set_bit (suc i) zero (b ∷ bits) h = ground arith
bit-set_bit (suc i) (suc v) (b ∷ bits) h = ground (arith, bit-set_bit i v bits (omega arith))

-- A value on the way from `value` to `last` in steps, as it is stored.
abbrev pub Reaches : Bool → ℕ → ℕ → ℕ → ℕ → Type 0
Reaches alias value last step v =
    (k : ℕ) × (value + k * step ≤ last) × (normalized alias (value + k * step) ≡ v)

first_value : (value step : ℕ) → value + 0 * step ≡ value
first_value value step = omega (arith, mul.zero step)

next_value : (value k step : ℕ) → (value + step) + k * step ≡ value + suc k * step
next_value value k step = omega (arith, mul.suc k step)

Reaches-cases :
    (alias : Bool) (value last step v : ℕ)
    → Reaches alias value last step v
    → (normalized alias value ≡ v)
      ⊎ ((step ≤ last - value) × Reaches alias (value + step) last step v)
Reaches-cases alias value last step v (zero, le, e) =
    inl (subst (λ x. normalized alias x ≡ v) (first_value value step) e)
Reaches-cases alias value last step v (suc k, le, e) = inr (
  omega (arith, next_value value k step, le),
  (
    k,
    omega (arith, next_value value k step, le),
    subst (λ x. normalized alias x ≡ v) (sym (next_value value k step)) e,
  ),
)

Reaches-first :
    (alias : Bool) (value last step v : ℕ)
    → value ≤ last
    → normalized alias value ≡ v
    → Reaches alias value last step v
Reaches-first alias value last step v le e = (
  0,
  omega (arith, first_value value step, le),
  subst (λ x. normalized alias x ≡ v) (sym (first_value value step)) e,
)

Reaches-next :
    (alias : Bool) (value last step v : ℕ)
    → Reaches alias (value + step) last step v
    → Reaches alias value last step v
Reaches-next alias value last step v (k, le, e) = (
  suc k,
  omega (arith, next_value value k step, le),
  subst (λ x. normalized alias x ≡ v) (next_value value k step) e,
)

normalized-le : (alias : Bool) (value : ℕ) → normalized alias value ≤ value
normalized-le alias value = ground arith

pub length-fill :
    (alias : Bool) (fuel value last step : ℕ) (bits : List Bool)
    → length (fill alias fuel value last step bits) ≡ length bits
unfolding fill
length-fill alias zero value last step bits = refl
length-fill alias (suc fuel) value last step bits = ground (
  arith,
  length-set_bit (normalized alias value) bits,
  length-fill alias fuel (value + step) last step (set_bit (normalized alias value) bits),
)

-- The loop sets the bits of the values from `value` to `last` in steps, and no others.
pub bit-fill :
    (alias : Bool) (fuel value last step v : ℕ) (bits : List Bool)
    → 1 ≤ step
    → value ≤ last
    → last < length bits
    → last - value < fuel
    → (bit v (fill alias fuel value last step bits) ≡ true)
      ↔ ((bit v bits ≡ true) ⊎ Reaches alias value last step v)
unfolding fill
bit-fill alias zero value last step v bits positive le wide enough = absurd (omega (arith, enough))
bit-fill alias (suc fuel) value last step v bits positive le wide enough =
    elim (Bool-cases (ltb (last - value) step)) [
      | inl done ↦
          rw (le→leb value last le, done)
            (
              λ h. elim (split_or (normalized alias value) v (bit v bits) (rw marked at h)) [
                | inl e ↦ inr (Reaches-first alias value last step v le e)
                | inr b ↦ inl b
              ],
              λ h. rw marked (join_or (normalized alias value) v (bit v bits) (last_one done h)),
            )
      | inr more ↦
          rw (le→leb value last le, more)
            (let rest =
                bit-fill alias fuel (value + step) last step v
                  (set_bit (normalized alias value) bits) positive (ground (arith, more, le))
                  (omega (arith, length-set_bit (normalized alias value) bits, wide))
                  (ground (arith, more, positive, enough)) in
              (
                λ h. elim (rest.0 h) [
                  | inl b ↦
                      elim (split_or (normalized alias value) v (bit v bits) (rw marked at b)) [
                        | inl e ↦ inr (Reaches-first alias value last step v le e)
                        | inr old ↦ inl old
                      ]
                  | inr r ↦ inr (Reaches-next alias value last step v r)
                ],
                λ h. rest.1 (elim h [
                  | inl b ↦
                      inl (rw marked (join_or (normalized alias value) v (bit v bits) (inr b)))
                  | inr r ↦ elim (Reaches-cases alias value last step v r) [
                    | inl e ↦
                        inl (rw marked (join_or (normalized alias value) v (bit v bits) (inl e)))
                    | inr (_, later) ↦ inr later
                  ]
                ]),
              ))
    ]
  where
    marked :
        bit v (set_bit (normalized alias value) bits) ≡ (normalized alias value == v || bit v bits)
    marked =
        bit-set_bit (normalized alias value) v bits
          (omega (arith, normalized-le alias value, le, wide))

    split_or : (n v : ℕ) (b : Bool) → (n == v || b) ≡ true → (n ≡ v) ⊎ (b ≡ true)
    split_or n v b h = ground arith

    join_or : (n v : ℕ) (b : Bool) → (n ≡ v) ⊎ (b ≡ true) → (n == v || b) ≡ true
    join_or n v b h = ground arith

    last_one :
        ltb (last - value) step ≡ true
        → (bit v bits ≡ true) ⊎ Reaches alias value last step v
        → (normalized alias value ≡ v) ⊎ (bit v bits ≡ true)
    last_one done (inl b) = inr b
    last_one done (inr r) = elim (Reaches-cases alias value last step v r) [
      | inl e ↦ inl e
      | inr (far, _) ↦ absurd (ground (arith, done, far))
    ]
