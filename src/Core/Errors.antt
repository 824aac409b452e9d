-- ===== src/Core/Errors.antt =====
-- include/laso/core/types.hpp: `ErrorCode` and `Error`. A function that throws returns a `Result`;
-- the JSON `details` of an error are left out.
use laso.Base.{String, ◌≡◌, refl, ◌⊎◌, inl, inr, Bool, true, false}

pub data ErrorCode : Type 0 where
  configuration validation plugin storage provider tool policy execution timeout cancellation
        not_found conflict capacity unavailable :
      ErrorCode

pub record Error : Type 0 where
  pub code : ErrorCode
  pub message : String

pub data Result {ℓ} (A : Type ℓ) : Type ℓ where
  ok : A → Result A
  err : Error → Result A

-- `throw Error(code, message)`
abbrev pub throw {ℓ} : {A : Type ℓ} → ErrorCode → String → Result A
throw c m = err (record { code = c; message = m })

infixl 5 ◌>>=◌ ◌>>◌
-- What follows in the code runs only if nothing was thrown.
abbrev pub ◌>>=◌ {ℓ κ} : {A : Type ℓ} {B : Type κ} → Result A → (A → Result B) → Result B
before >>= next = elim before [ ok value ↦ next value | err thrown ↦ err thrown ]

-- `if (bad) throw Error(code, message);`
abbrev pub throw_if : Bool → ErrorCode → String → Result (Unit {0})
throw_if true c m = throw c m
throw_if false c m = ok tt

abbrev pub ◌>>◌ {ℓ} : {B : Type ℓ} → Result (Unit {0}) → Result B → Result B
first >> second = first >>= λ _. second

abbrev pub is_ok {ℓ} : {A : Type ℓ} → Result A → Bool
is_ok (ok a) = true
is_ok (err e) = false

pub throw_if-eq-ok :
    (b : Bool) (c : ErrorCode) (m : String) {u : Unit {0}} → throw_if b c m ≡ ok u → b ≡ false
throw_if-eq-ok true c m h = cc
throw_if-eq-ok false c m h = refl

-- What follows a guard that has let pass.
pub guard-eq-ok {ℓ} :
    {B : Type ℓ} (b : Bool) (c : ErrorCode) (m : String) (k : Result B) {a : B}
    → (throw_if b c m >> k) ≡ ok a
    → (b ≡ false) × (k ≡ ok a)
guard-eq-ok true c m k h = cc
guard-eq-ok false c m k h = (refl, h)

pub then-eq-ok {ℓ} :
    {B : Type ℓ} (m : Result (Unit {0})) (k : Result B) {a : B}
    → (m >> k) ≡ ok a
    → (m ≡ ok tt) × (k ≡ ok a)
then-eq-ok (ok _) k h = (refl, h)
then-eq-ok (err e) k h = cc

-- A result that decides between what is done on an error and what is done without one.
abbrev pub checked {ℓ} : {A : Type ℓ} → Result (Unit {0}) → (Error → A) → A → A
checked (err e) failed go = failed e
checked (ok _) failed go = go

pub checked-elim {ℓ κ} :
    {A : Type ℓ} (P : A → Type κ) (answer : Result (Unit {0})) (failed : Error → A) (go : A)
    → ((e : Error) → answer ≡ err e → P (failed e))
    → (answer ≡ ok tt → P go)
    → P (checked answer failed go)
checked-elim P (err e) failed go p q = p e refl
checked-elim P (ok _) failed go p q = q refl

-- A chain that has returned: its first part has, with a value that the rest has gone on with.
pub bind-eq-ok {ℓ κ} :
    {A : Type ℓ} {B : Type κ} (start : Result A) (rest : A → Result B) {final : B}
    → (start >>= rest) ≡ ok final
    → (mid : A) × (start ≡ ok mid) × (rest mid ≡ ok final)
bind-eq-ok (err thrown) rest same = cc same
bind-eq-ok (ok mid) rest same = (mid, refl, same)

pub Result-cases {ℓ} :
    {A : Type ℓ} (r : Result A) → ((e : Error) × (r ≡ err e)) ⊎ ((a : A) × (r ≡ ok a))
Result-cases (err e) = inl (e, refl)
Result-cases (ok a) = inr (a, refl)
