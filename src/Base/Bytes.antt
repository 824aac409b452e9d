-- ===== src/Base/Bytes.antt =====
-- `^` and `|` of two bytes, by a table of all pairs.
use Prim.Native.Nat.{ℕ, zero, suc, ◌<◌, ◌≤◌, ◌+◌, bit_or, bit_xor}
use mathlib.Core.Path.{◌≡◌, refl}
use mathlib.Core.Logic.{◌↔◌, inl, inr}
use mathlib.Core.Bool.{Bool, true, false, ◌&&◌}
use native.Mathlib.Omega.{arith}
use laso.Base.Tests.{ltb, ◌==◌, Bool-cases}

-- A test holds of every byte from `at` on, `left` of them.
every : (left at : ℕ) → (ℕ → Bool) → Bool
every zero at test = true
every (suc left) at test = test at && every left (suc at) test

every-at :
    (left at : ℕ) (test : ℕ → Bool) (byte : ℕ)
    → every left at test ≡ true
    → at ≤ byte
    → byte < left + at
    → test byte ≡ true
unfolding every
every-at zero at test byte all_hold low high = absurd (omega arith)
every-at (suc left) at test byte all_hold low high = elim (Bool-cases (at == byte)) [
  | inl same_byte ↦ ground arith
  | inr other ↦ every-at left (suc at) test byte (ground arith) (ground arith) (ground arith)
]

same : Bool → Bool → Bool
same true b = b
same false true = false
same false false = true

byte_laws : ℕ → ℕ → Bool
byte_laws x y =
    same (bit_xor x y == 0) (x == y)
    && ltb (bit_xor x y) 256
    && same (bit_or x y == 0) (x == 0 && y == 0)
    && ltb (bit_or x y) 256

byte_table : every 256 0 (λ x. every 256 0 (byte_laws x)) ≡ true
unfolding every byte_laws same
byte_table = refl

byte_laws_hold : (x y : ℕ) → x < 256 → y < 256 → byte_laws x y ≡ true
byte_laws_hold x y hx hy =
    every-at 256 0 (byte_laws x) y
      (every-at 256 0 (λ z. every 256 0 (byte_laws z)) x byte_table (omega arith) (omega arith))
      (omega arith) (omega arith)

pub bit_xor-byte :
    (x y : ℕ) → x < 256 → y < 256 → (bit_xor x y < 256) × ((bit_xor x y ≡ 0) ↔ (x ≡ y))
unfolding byte_laws same
bit_xor-byte x y hx hy = let h = byte_laws_hold x y hx hy in ground (arith, h)

pub bit_or-byte :
    (x y : ℕ) → x < 256 → y < 256 → (bit_or x y < 256) × ((bit_or x y ≡ 0) ↔ ((x ≡ 0) × (y ≡ 0)))
unfolding byte_laws same
bit_or-byte x y hx hy = let h = byte_laws_hold x y hx hy in ground (arith, h)
