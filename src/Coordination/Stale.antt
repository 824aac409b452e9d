-- ===== src/Coordination/Stale.antt =====
-- src/storage/coordination.cpp: a lease that is not current is refused by each operation.
use laso.Base.{ℕ, ◌≡◌, Bool, true, false, not, Option, none, some, str_eq, if-elim}
use laso.Core.Errors.{Result, ok, checked-elim, ◌>>◌}
use laso.Coordination.{
  LeaseRecord, LeaseRow, Database, Coordination, is_held, renew, release, renew_row, release_row,
  require_current, validate_resource, validate_ttl,
}
use laso.Coordination.Rows.{row}

module _ (c : Coordination) (d : Database) (answer : Result (Unit {0})) (now : ℕ)
    (l : LeaseRecord) where
  abbrev NotOk : {A : Type 0} → Result A → A → Type 0
  NotOk x a = x ≡ ok a → ⊥

  abbrev Rejected : Coordination × Result (Unit {0}) → Type 0
  Rejected x = NotOk x.1 tt

  abbrev NotRenewed : Coordination × Database × LeaseRecord × Result Bool → Type 0
  NotRenewed x = NotOk x.3 true

  abbrev NotReleased : Database × Result Bool → Type 0
  NotReleased x = NotOk x.1 true

  pub check_fails :
      is_held l now (row l.resource_key d) ≡ false → Rejected (require_current c d answer now l)
  unfolding require_current
  check_fails h =
      checked-elim Rejected (validate_resource l.resource_key) _ _ (λ e _ q. cc q)
        λ _.
          if-elim Rejected (not (str_eq l.owner_instance c.owner)) _ _ (λ _ q. cc q)
            λ _.
              checked-elim Rejected answer _ _ (λ e _ q. cc q)
                λ _.
                  if-elim Rejected (is_held l now (row l.resource_key d)) _ _
                    (λ held q. cc (held, h)) (λ _ q. cc q)

  renew_row_fails :
      (ttl : ℕ) (o : Option LeaseRow)
      → is_held l now o ≡ false
      → NotRenewed (renew_row c d l now ttl o)
  renew_row_fails ttl none h = λ q. cc q
  renew_row_fails ttl (some old) h =
      if-elim NotRenewed (is_held l now (some old)) _ _ (λ held q. cc (held, h)) (λ _ q. cc q)

  pub renew_fails :
      (ttl : ℕ)
      → is_held l now (row l.resource_key d) ≡ false
      → NotRenewed (renew c d answer now l ttl)
  unfolding renew
  renew_fails ttl h =
      checked-elim NotRenewed (validate_resource l.resource_key >> validate_ttl ttl) _ _
        (λ e _ q. cc q)
        λ _.
          if-elim NotRenewed (not (str_eq l.owner_instance c.owner)) _ _ (λ _ q. cc q)
            λ _.
              checked-elim NotRenewed answer _ _ (λ e _ q. cc q)
                (λ _. renew_row_fails ttl (row l.resource_key d) h)

  release_row_fails :
      (o : Option LeaseRow) → is_held l now o ≡ false → NotReleased (release_row d l now o)
  release_row_fails none h = λ q. cc q
  release_row_fails (some old) h =
      if-elim NotReleased (is_held l now (some old)) _ _ (λ held q. cc (held, h)) (λ _ q. cc q)

  pub release_fails :
      is_held l now (row l.resource_key d) ≡ false → NotReleased (release c d answer now l)
  unfolding release
  release_fails h =
      checked-elim NotReleased (validate_resource l.resource_key) _ _ (λ e _ q. cc q)
        λ _.
          if-elim NotReleased (not (str_eq l.owner_instance c.owner)) _ _ (λ _ q. cc q)
            λ _.
              checked-elim NotReleased answer _ _ (λ e _ q. cc q)
                (λ _. release_row_fails (row l.resource_key d) h)
