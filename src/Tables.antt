-- ===== src/Tables.antt =====
-- Tables of the store (src/storage/postgres.cpp): rows by their id, in the order of their first insertion,
-- which is that of `ORDER BY sequence`. A write replaces the row of its id.
use laso.Base.{
  ℕ, zero, suc, ◌≤◌, ◌≡◌, refl, ap, length, true, false, Option, none, some, List, [], ◌∷◌, arith,
  if◌then◌else◌,
}
use laso.Security.{bytes_eq}
use laso.Security.Gateway.{bytes_eq_iff}
use laso.Pipeline.Reference.{Bytes}

module _ {V : Type 0} where
  unfoldable pub get_row : Bytes → List (Bytes × V) → Option V
  get_row id [] = none
  get_row id ((key, row) ∷ rest) = if bytes_eq key id then some row else get_row id rest

  unfoldable pub put_row : Bytes → V → List (Bytes × V) → List (Bytes × V)
  put_row id new [] = (id, new) ∷ []
  put_row id new ((key, old) ∷ rest) = elim (bytes_eq key id) [
    | true ↦ (key, new) ∷ rest
    | false ↦ (key, old) ∷ put_row id new rest
  ]

  -- The answer to a query with a limit.
  unfoldable pub first_rows : ℕ → List (Bytes × V) → List (Bytes × V)
  first_rows zero rows = []
  first_rows (suc n) [] = []
  first_rows (suc n) (row ∷ rows) = row ∷ first_rows n rows

  pub get_row-put_row :
      (id j : Bytes) (new : V) (rows : List (Bytes × V))
      → get_row j (put_row id new rows) ≡ (if bytes_eq id j then some new else get_row j rows)
  unfolding get_row put_row
  get_row-put_row id j new [] = refl
  get_row-put_row id j new ((key, old) ∷ rest) = ground (
    arith,
    bytes_eq_iff key id,
    bytes_eq_iff key j,
    bytes_eq_iff id j,
    get_row-put_row id j new rest,
  )

  pub get_row-put_self :
      (id : Bytes) (new : V) (rows : List (Bytes × V)) → get_row id (put_row id new rows) ≡ some new
  get_row-put_self id new rows =
      rw (get_row-put_row id id new rows, (bytes_eq_iff id id).1 refl) refl

  pub first_rows-all :
      (n : ℕ) (rows : List (Bytes × V)) → length rows ≤ n → first_rows n rows ≡ rows
  unfolding first_rows
  first_rows-all zero [] h = refl
  first_rows-all zero (row ∷ rows) h = absurd (omega arith)
  first_rows-all (suc n) [] h = refl
  first_rows-all (suc n) (row ∷ rows) h =
      ap (λ rest. row ∷ rest) (first_rows-all n rows (omega arith))
