-- ===== src/Scheduler/Admin.antt =====
-- src/scheduler/scheduler.cpp: the operations on stored schedules, and what `handle_event` does when the run
-- of a schedule ends. `answer` is what the storage says to the commit, and its reads succeed; `emit_event` and `wake` change no
-- record. The storage throws `NotFound` for an id that is not there.
pub mod Deleted
use laso.Base.{
  ℕ, ◌+◌, String, Bool, true, false, not, ◌&&◌, ◌||◌, Option, none, some, List, [], ◌∷◌, ◌++◌,
  codes, if◌then◌else◌,
}
use laso.Core.Errors.{Error, ErrorCode, Result, ok, err, throw, throw_if, ◌>>=◌, ◌>>◌}
use laso.Pipeline.Reference.{Bytes}
use laso.Tables.{get_row, put_row}
use laso.Scheduler.Cron.{is_nil}
use laso.Scheduler.Clock.{UtcTime, format_utc_timestamp}
use laso.Scheduler.Schedules.{ScheduleDefinition, is_type, validate_schedule, next_schedule_due}
use laso.Scheduler.Store.{Store, ScheduledRun, scheduler_event, active_schedule_run}

abbrev pub found {ℓ} : {V : Type ℓ} → Option V → Result V
found none = throw ErrorCode.not_found "Record not found"
found (some row) = ok row

abbrev pub row_exists {ℓ} : {V : Type ℓ} → Option V → Bool
row_exists none = false
row_exists (some row) = true

module _ {Json : Type 0} (dump_size : Json → ℕ) (timegm : UtcTime → Option (UtcTime × ℕ))
    (gmtime : ℕ → Option (UtcTime × ℕ)) (now : ℕ) (answer : Result (Unit {0})) where
  -- The commit of a schedule with an event.
  abbrev pub commit_schedule : String → Bytes → ScheduleDefinition Json → Store Json → Store Json
  commit_schedule type due s store = record store {
    schedules = put_row s.id s store.schedules;
    events = store.events ++ (scheduler_event type s due ∷ []);
  }

  -- The store after an operation that either throws or writes a schedule.
  abbrev pub commit_or_throw :
      {A : Type 0}
      → Store Json
      → Result (ScheduleDefinition Json)
      → (ScheduleDefinition Json → Store Json)
      → (ScheduleDefinition Json → A)
      → Store Json × Result A
  commit_or_throw store (err e) write result = (store, err e)
  commit_or_throw store (ok s) write result = (write s, ok (result s))

  unfoldable pub create_schedule :
      ScheduleDefinition Json → Store Json → Store Json × Result (ScheduleDefinition Json)
  create_schedule s store =
      commit_or_throw store
        (validate_schedule dump_size timegm gmtime s
          >> (throw_if (row_exists (get_row s.id store.schedules)) ErrorCode.conflict
                "Schedule already exists"
              >> (answer >> ok s)))
        (λ s'. commit_schedule "schedule.created" s'.next_due_at s' store) (λ s'. s')

  unfoldable pub update_schedule :
      ScheduleDefinition Json → Store Json → Store Json × Result (ScheduleDefinition Json)
  update_schedule s store =
      commit_or_throw store
        (validate_schedule dump_size timegm gmtime s
          >> (found (get_row s.id store.schedules) >>= λ old.
              format_utc_timestamp gmtime now >>= λ text.
              answer >> ok (record s { created_at = old.created_at; updated_at = text })))
        (λ s'. commit_schedule "schedule.updated" s'.next_due_at s' store) (λ s'. s')

  -- A schedule without a next due time gets one when it is enabled.
  unfoldable pub first_due : ScheduleDefinition Json → Result (ScheduleDefinition Json)
  first_due s =
      if not (is_nil s.next_due_at)
      then ok s
      else if is_type "one_time" s
      then ok (record s { next_due_at = s.at })
      else (format_utc_timestamp gmtime now >>= λ text.
          next_schedule_due dump_size timegm gmtime now s text >>= λ next.
          ok (record s { next_due_at = next }))

  unfoldable pub set_schedule_enabled : Bytes → Bool → Store Json → Store Json × Result (Unit {0})
  set_schedule_enabled id enabled store =
      commit_or_throw store
        (found (get_row id store.schedules) >>= λ s.
          throw_if (s.deleted && enabled) ErrorCode.conflict "Deleted schedule cannot be enabled"
          >> ((if enabled then first_due s else ok s) >>= λ s'.
              format_utc_timestamp gmtime now >>= λ text.
              answer >> ok (record s' { enabled = enabled; updated_at = text })))
        (λ s'. record store {
          schedules = put_row id s' store.schedules;
          events =
              store.events
              ++ (scheduler_event (if enabled then "schedule.enabled" else "schedule.disabled") s'
                    []
                  ∷ []);
        })
        (λ s'. tt)

  unfoldable pub delete_schedule : Bytes → Store Json → Store Json × Result (Unit {0})
  delete_schedule id store =
      commit_or_throw store
        (found (get_row id store.schedules) >>= λ s. format_utc_timestamp gmtime now >>= λ text.
          answer >> ok (record s { enabled = false; deleted = true; updated_at = text }))
        (λ s'. record store {
          schedules = put_row id s' store.schedules;
          events = store.events ++ (scheduler_event "schedule.deleted" s' [] ∷ []);
        })
        (λ s'. tt)

  -- The schedule of a run that has ended: an occurrence that it has queued is due now.
  abbrev pub release_queued : Store Json → Bytes → ScheduleDefinition Json → ScheduleDefinition Json
  release_queued store run_id s =
      if s.queued && not (active_schedule_run store s.id)
      then record s {
        last_completed_run_id = run_id;
        next_due_at = s.queued_due_at;
        queued = false;
        queued_due_at = [];
      }
      else record s { last_completed_run_id = run_id }

  abbrev pub complete_schedule : Store Json → ScheduledRun → Store Json
  complete_schedule store run =
      if is_nil run.schedule_id
      then store
      else (commit_or_throw store
          (found (get_row run.schedule_id store.schedules) >>= λ s.
            format_utc_timestamp gmtime now >>= λ text.
            answer >> ok (record (release_queued store run.id s) { updated_at = text }))
          (λ s'. record store { schedules = put_row s'.id s' store.schedules }) (λ s'. s')).0

  -- The part of `handle_event` for a run that has ended; what is thrown is logged.
  unfoldable pub complete_run : Bytes → Store Json → Store Json
  complete_run run_id store = elim (get_row run_id store.runs) [
    | none ↦ store
    | some run ↦ complete_schedule store run
  ]
