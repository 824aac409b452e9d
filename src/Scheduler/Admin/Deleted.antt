-- ===== src/Scheduler/Admin/Deleted.antt =====
-- src/scheduler/scheduler.cpp: a deleted schedule.
use laso.Base.{ℕ, ◌≡◌, refl, sym, ap, true, false, Option, some}
use laso.Core.Errors.{ErrorCode, Result, ok, err, throw, bind-eq-ok, then-eq-ok}
use laso.Pipeline.Reference.{Bytes}
use laso.Tables.{get_row, put_row, get_row-put_self}
use laso.Scheduler.Clock.{UtcTime, format_utc_timestamp}
use laso.Scheduler.Schedules.{ScheduleDefinition}
use laso.Scheduler.Store.{Store}
use laso.Scheduler.Launch.{Answers}
use laso.Scheduler.Process.{process_schedule}
use laso.Scheduler.Admin.{found, commit_or_throw, set_schedule_enabled, delete_schedule}

module _ {Json : Type 0} (dump_size : Json → ℕ) (timegm : UtcTime → Option (UtcTime × ℕ))
    (gmtime : ℕ → Option (UtcTime × ℕ)) where
  commit_or_throw-eq-ok :
      {A : Type 0} (now : ℕ) (answer : Result (Unit {0})) (store : Store Json)
      (r : Result (ScheduleDefinition Json)) (w : ScheduleDefinition Json → Store Json)
      (f : ScheduleDefinition Json → A) {x : A}
      → (commit_or_throw dump_size timegm gmtime now answer store r w f).1 ≡ ok x
      → (s : ScheduleDefinition Json) × (r ≡ ok s)
        × ((commit_or_throw dump_size timegm gmtime now answer store r w f).0 ≡ w s)
  commit_or_throw-eq-ok now answer store (err e) w f h = cc h
  commit_or_throw-eq-ok now answer store (ok s) w f h = (s, refl, refl)

  delete_schedule-row :
      (now : ℕ) (answer : Result (Unit {0})) (id : Bytes) (store : Store Json)
      → (delete_schedule dump_size timegm gmtime now answer id store).1 ≡ ok tt
      → (s : ScheduleDefinition Json) × (s.deleted ≡ true)
        × ((delete_schedule dump_size timegm gmtime now answer id store).0.schedules
            ≡ put_row id s store.schedules)
  unfolding delete_schedule
  delete_schedule-row now answer id store h =
      let (s, made, after) = commit_or_throw-eq-ok now answer store _ _ _ h in
      let (old, _, h1) = bind-eq-ok (found (get_row id store.schedules)) _ made in
      let (text, _, h2) = bind-eq-ok (format_utc_timestamp gmtime now) _ h1 in
      let (_, h3) = then-eq-ok answer _ h2 in
      let same : record old { enabled = false; deleted = true; updated_at = text } ≡ s = cc h3 in
      (
        s,
        ap (λ (x : ScheduleDefinition Json). x.deleted) (sym same),
        ap (λ (x : Store Json). x.schedules) after,
      )

  process_schedule-deleted :
      (now : ℕ) (a : Answers) (s : ScheduleDefinition Json) (store : Store Json)
      → s.deleted ≡ true
      → process_schedule dump_size timegm gmtime now a s store ≡ (store, ok false)
  unfolding process_schedule
  process_schedule-deleted now a s store h = rw h refl

  enabled-deleted :
      (now : ℕ) (answer : Result (Unit {0})) (id : Bytes) (s : ScheduleDefinition Json)
      (store : Store Json)
      → s.deleted ≡ true
      → get_row id store.schedules ≡ some s
      → set_schedule_enabled dump_size timegm gmtime now answer id true store
        ≡ (store, throw ErrorCode.conflict "Deleted schedule cannot be enabled")
  unfolding set_schedule_enabled
  enabled-deleted now answer id s store h row = rw (row, h) refl

  -- After a successful deletion the row of the schedule is there and marked; processing it changes no
  -- record and launches nothing, whatever is answered, also if an
  -- occurrence was queued; and it cannot be enabled again.
  pub deleted_is_idle :
      (now : ℕ) (answer : Result (Unit {0})) (id : Bytes) (store : Store Json)
      → (delete_schedule dump_size timegm gmtime now answer id store).1 ≡ ok tt
      → (s : ScheduleDefinition Json) × (get_row id
            (delete_schedule dump_size timegm gmtime now answer id store).0.schedules
          ≡ some s)
        × ((later : ℕ) (a : Answers) (any : Store Json)
            → process_schedule dump_size timegm gmtime later a s any ≡ (any, ok false))
        × ((later : ℕ) (again : Result (Unit {0}))
            → set_schedule_enabled dump_size timegm gmtime later again id true
                (delete_schedule dump_size timegm gmtime now answer id store).0
              ≡ (
                (delete_schedule dump_size timegm gmtime now answer id store).0,
                throw ErrorCode.conflict "Deleted schedule cannot be enabled",
              ))
  deleted_is_idle now answer id store h =
      let (s, marked, rows) = delete_schedule-row now answer id store h in
      let row : get_row id (delete_schedule dump_size timegm gmtime now answer id store).0.schedules
          ≡ some s =
        rw rows (get_row-put_self id s store.schedules) in
      (
        s,
        row,
        λ later a any. process_schedule-deleted later a s any marked,
        λ later again. enabled-deleted later again id s _ marked row,
      )
